-- ===== src/ServerAccess/Presence.antt =====
-- controllers/argocd/ingress.go and hpa.go: an object is there exactly if it is enabled.
use argocd_vee.Common.{
  ◌≡◌, ◌⊎◌, inl, inr, refl, String, Bool, true, false, not, Option, none, some, if◌then◌else◌, ◌<>◌,
  ap, arith, subst, sym, ◌∙◌,
}
use argocd_vee.Effect.{
  Err, ok, done, Ensures, Anywhere, if-Ensures, done-Ensures, then-Ensures, conclude,
}
use argocd_vee.Kube.{Fetch, found, missing, failed, is_object_found, object_after}
use argocd_vee.Objects.{
  ObjectClient, IsStore, call, owned-Ensures, fetch-Ensures, create-Ensures, update-Ensures,
  delete-Ensures,
}
use argocd_vee.ServerAccess.{
  ServerSettings, ServerIngress, filled_ingress, empty_ingress, pointers_differ, create_ingress,
  on_server_ingress, reconcile_argo_server_ingress, match_hpa, new_hpa, on_hpa,
  reconcile_server_hpa,
}

-- An ingress that is enabled is there with the class, unless it still cannot be read.
abbrev pub IsExposed : Bool → Option String → Fetch ServerIngress → Type 0
IsExposed false c f = f ≡ missing
IsExposed true c f =
    ((e : Err) × (f ≡ failed e))
    ⊎ ((x : ServerIngress) × (f ≡ found x) × (x.ingress_class_name ≡ c))

same_pointers : (p q : Option String) → pointers_differ p q ≡ false → p ≡ q
unfolding pointers_differ
same_pointers none none h = refl
same_pointers none (some t) h = ground arith
same_pointers (some s) q h = ground arith

module _ {W : Type 0} (k : ObjectClient W ServerIngress) (cr : ServerSettings) (s : IsStore k) where
  -- What is done with an ingress that is there, or with an empty one in place of it.
  found-Ensures :
      (b : Bool) (c : Option String) (name : String) (i : ServerIngress) (f : Fetch ServerIngress)
      → (i.ingress_class_name ≡ c → IsExposed true c f)
      → Ensures
          (λ w. Anywhere w × (k.get w cr.namespace name ≡ f))
          (if not b
            then call (k.delete cr.namespace name)
            else if pointers_differ i.ingress_class_name c
            then call (k.update cr.namespace name (record i { ingress_class_name = c }))
            else done)
          (λ w. IsExposed b c (k.get w cr.namespace name))
  found-Ensures false c name i f h = delete-Ensures k s cr.namespace name
  found-Ensures true c name i f h =
      if-Ensures (pointers_differ i.ingress_class_name c)
        (λ e.
          conclude (λ w g. inr (record i { ingress_class_name = c }, g, refl))
            (update-Ensures k s cr.namespace name _))
        (λ e. done-Ensures (λ w p. subst (IsExposed true c) (sym p.1) (h (same_pointers _ _ e))))

  new-Ensures :
      (b : Bool) (name : String) (i : ServerIngress)
      → Ensures
          (λ w. Anywhere w × (k.get w cr.namespace name ≡ missing))
          (if not b then done else create_ingress k cr name i)
          (λ w. IsExposed b i.ingress_class_name (k.get w cr.namespace name))
  unfolding create_ingress
  new-Ensures false name i = done-Ensures (λ w p. p.1)
  new-Ensures true name i =
      conclude (λ w g. inr (i, g, refl))
        (then-Ensures (owned-Ensures k i) (create-Ensures k s cr.namespace name i))

  server_ingress-Ensures : Ensures Anywhere (reconcile_argo_server_ingress k cr) (λ w.
      IsExposed cr.ingress.enabled cr.ingress.ingress_class_name
        (k.get w cr.namespace (cr.name <> "-server")))
  unfolding reconcile_argo_server_ingress on_server_ingress is_object_found object_after
      filled_ingress
  server_ingress-Ensures =
      let name : String = cr.name <> "-server" in
      fetch-Ensures k cr.namespace name (on_server_ingress k cr name)
        (λ x.
          found-Ensures cr.ingress.enabled cr.ingress.ingress_class_name name x (found x)
            (λ e. inr (x, refl, e)))
        (new-Ensures cr.ingress.enabled name _)
        (λ e.
          found-Ensures cr.ingress.enabled cr.ingress.ingress_class_name name empty_ingress
            (failed e) (λ q. inl (e, refl)))

-- An autoscaler that is enabled is there, with the specification of the resource if it has one.
abbrev pub IsScaled : {H : Type 0} → Bool → Option H → Fetch H → Type 0
IsScaled false wanted f = f ≡ missing
IsScaled true none f = is_object_found f ≡ true
IsScaled true (some h) f = f ≡ found h

module _ {W H : Type 0} (k : ObjectClient W H) (namespace name : String) (default : H)
    (s : IsStore k) where
  existing-Ensures :
      (b : Bool) (wanted : Option H) (f : Fetch H)
      → is_object_found f ≡ true
      → Ensures
          (λ w. Anywhere w × (k.get w namespace name ≡ f))
          (if not b
            then call (k.delete namespace name)
            else match_hpa k namespace name b wanted default wanted)
          (λ w. IsScaled b wanted (k.get w namespace name))
  existing-Ensures false wanted f h = delete-Ensures k s namespace name
  existing-Ensures true none f h = done-Ensures (λ w p. ap is_object_found p.1 ∙ h)
  existing-Ensures true (some x) f h = update-Ensures k s namespace name x

  absent-Ensures :
      (b : Bool) (wanted : Option H)
      → Ensures
          (λ w. Anywhere w × (k.get w namespace name ≡ missing))
          (if not b
            then done
            else call (k.create namespace name (new_hpa k namespace name b wanted default wanted)))
          (λ w. IsScaled b wanted (k.get w namespace name))
  unfolding is_object_found
  absent-Ensures false wanted = done-Ensures (λ w p. p.1)
  absent-Ensures true none =
      conclude (λ w g. ap is_object_found g) (create-Ensures k s namespace name default)
  absent-Ensures true (some x) = create-Ensures k s namespace name x

  hpa-Ensures :
      (enabled : Bool) (wanted : Option H)
      → Ensures Anywhere
          (reconcile_server_hpa k namespace name enabled wanted default)
          (λ w. IsScaled enabled wanted (k.get w namespace name))
  unfolding reconcile_server_hpa on_hpa is_object_found
  hpa-Ensures enabled wanted =
      fetch-Ensures k namespace name (on_hpa k namespace name enabled wanted default)
        (λ x. existing-Ensures enabled wanted (found x) refl) (absent-Ensures enabled wanted)
        (λ e. existing-Ensures enabled wanted (failed e) refl)

-- When the API server keeps what it accepts and a run returns no error, the ingress of the server
-- is missing afterwards if it is not enabled, and else it is there with the class of the resource,
-- unless it still cannot be read.
pub reconcile_argo_server_ingress-IsExposed :
    {W : Type 0} (k : ObjectClient W ServerIngress) (cr : ServerSettings) (w : W)
    → IsStore k
    → (reconcile_argo_server_ingress k cr w).0 ≡ ok tt
    → IsExposed cr.ingress.enabled cr.ingress.ingress_class_name
        (k.get (reconcile_argo_server_ingress k cr w).1 cr.namespace (cr.name <> "-server"))
reconcile_argo_server_ingress-IsExposed k cr w s h = (server_ingress-Ensures k cr s).after w tt h

-- When the API server keeps what it accepts and a run returns no error, the autoscaler is missing
-- afterwards if it is not enabled; else it has the specification of the resource, or, if that has
-- none, it is there or cannot be read.
pub reconcile_server_hpa-IsScaled :
    {W H : Type 0} (k : ObjectClient W H) (namespace name : String) (enabled : Bool)
    (wanted : Option H) (default : H) (w : W)
    → IsStore k
    → (reconcile_server_hpa k namespace name enabled wanted default w).0 ≡ ok tt
    → IsScaled enabled wanted
        (k.get (reconcile_server_hpa k namespace name enabled wanted default w).1 namespace name)
reconcile_server_hpa-IsScaled k namespace name enabled wanted default w s h =
    (hpa-Ensures k namespace name default s enabled wanted).after w tt h
