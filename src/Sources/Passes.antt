-- ===== src/Sources/Passes.antt =====
-- controllers/argocd/util.go: what a pass over the source namespaces leaves in
-- ManagedSourceNamespaces.
use argocd_vee.Common.{
  choose, if_true, arith, ◌≡◌, refl, sym, ◌∙◌, ap, subst, String, Bool, true, false, not, ◌&&◌,
  ◌||◌, Option, none, some, List, [], ◌∷◌, map, any, ◌==◌, string_eq, if◌then◌else◌, get, remove,
  HasDistinctKeys, eq_iff, get-remove-same, get-remove-other,
}
use argocd_vee.Effect.{Err, Outcome, ok, err, panic, IsReturn, continue-IsReturn, continue_ok, ◌>>◌}
use argocd_vee.Kube.{Fetch, found, missing, failed, items}
use argocd_vee.Status.{returned}
use argocd_vee.Sources.{
  Owner, role_name, SourceClient, Managed, keep_names, clear_label, delete_fetched, delete_roles,
  delete_role_bindings, cleanup_fetched, cleanup_unmanaged_source_namespace_resources, is_managed,
  is_among, get_source_namespaces, matching_names, after_cleanup, visit_decided, visit, visit_all,
  remove_unmanaged_source_namespace_resources,
}

returned-IsReturn : (e : Option Err) → IsReturn (returned e)
unfolding returned
returned-IsReturn none = tt
returned-IsReturn (some e) = tt

module _ {W : Type 0} (k : SourceClient W) (cr : Owner) where
  delete_fetched-IsReturn :
      (what : String) (delete : String → W → W × Option Err) (f : Fetch String) (w : W)
      → IsReturn (delete_fetched k cr what delete f w).0
  unfolding delete_fetched
  delete_fetched-IsReturn what delete missing w = tt
  delete_fetched-IsReturn what delete (failed e) w = tt
  delete_fetched-IsReturn what delete (found name) w =
      choose (λ (r : Outcome (Unit {0}) × W). IsReturn r.0) (not (name == "")) _ _
        (λ e. returned-IsReturn _) tt

  roles-IsReturn :
      (ns : String) (w : W) → IsReturn ((delete_roles k cr ns >> delete_role_bindings k cr ns) w).0
  unfolding delete_roles delete_role_bindings
  roles-IsReturn ns w =
      continue-IsReturn (delete_role_bindings k cr ns) (delete_roles k cr ns w)
        (delete_fetched-IsReturn "failed to fetch the role" (λ name v. k.delete_role v ns name)
          (k.get_role w ns (role_name cr ns)) w)
        (λ u.
          delete_fetched-IsReturn "failed to get the rolebinding"
            (λ name v. k.delete_role_binding v ns name) (k.get_role_binding u ns (role_name cr ns))
            u)

  fetched-IsReturn :
      (ns : String) (w : W) (f : Fetch (List (String × String)))
      → IsReturn (cleanup_fetched k cr ns f w).0
  unfolding cleanup_fetched clear_label
  fetched-IsReturn ns w missing = tt
  fetched-IsReturn ns w (failed e) = tt
  fetched-IsReturn ns w (found labels) = roles-IsReturn ns _

  cleanup-IsReturn :
      (ns : String) (w : W) → IsReturn (cleanup_unmanaged_source_namespace_resources k cr ns w).0
  unfolding cleanup_unmanaged_source_namespace_resources
  cleanup-IsReturn ns w = fetched-IsReturn ns w (k.get_labels w ns)

  after_cleanup-ok :
      (ns : String) (m : List (String × String)) (r : Outcome (Unit {0}) × W)
      → IsReturn r.0
      → (after_cleanup k cr ns m r).0 ≡ ok tt
  unfolding after_cleanup
  after_cleanup-ok ns m (ok u, w) h = refl
  after_cleanup-ok ns m (err e, w) h = refl
  after_cleanup-ok ns m (panic, w) h = elim h [ ]

  decided-ok :
      (ns : String) (o : Outcome Bool) (s : Managed W)
      → o ≡ ok false
      → (visit_decided k cr ns o s).0 ≡ ok tt
  unfolding visit_decided
  decided-ok ns (ok false) s e =
      after_cleanup-ok ns s.managed (cleanup_unmanaged_source_namespace_resources k cr ns s.world)
        (cleanup-IsReturn ns s.world)
  decided-ok ns (ok true) s e = refl
  decided-ok ns (err x) s e = ground arith
  decided-ok ns panic s e = ground arith

  visit_all-ok :
      (keys : List String) (s : Managed W) → cr.is_marked ≡ true → (visit_all k cr keys s).0 ≡ ok tt
  unfolding visit_all visit is_managed
  visit_all-ok [] s m = refl
  visit_all-ok (ns ∷ rest) s m =
      ap (λ x. x.0)
        (continue_ok (visit_all k cr rest) (visit k cr ns s)
          (decided-ok ns (is_managed k cr ns s.world) s (if_true cr.is_marked _ _ m)))
      ∙ visit_all-ok rest (visit k cr ns s).1 m

  -- For an instance that is marked for deletion the pass returns no error, whatever the API server
  -- answers: a clean-up that fails is logged, and the deletion goes on.
  pub remove_unmanaged_marked :
      (s : Managed W)
      → cr.is_marked ≡ true
      → (remove_unmanaged_source_namespace_resources k cr s).0 ≡ ok tt
  unfolding remove_unmanaged_source_namespace_resources
  remove_unmanaged_marked s m = visit_all-ok (map (λ e. e.0) s.managed) s m

  -- Whether the instance still takes applications from the namespace.
  abbrev pub stays : List String → String → Bool
  stays names ns =
      not cr.is_marked && any (λ n. n == ns) (keep_names (k.matches cr.source_namespaces) names)

  -- Every clean-up succeeds, and the namespaces that there are do not change.
  abbrev pub IsCalm : List String → Type 0
  IsCalm names =
      ((ns : String) (w : W) → (cleanup_unmanaged_source_namespace_resources k cr ns w).0 ≡ ok tt)
      × ((w : W) → k.list_namespaces w ≡ items names)

  -- A run that succeeds and leaves the map.
  abbrev pub Leaves : List (String × String) → Outcome (Unit {0}) × Managed W → Type 0
  Leaves m r = (r.0 ≡ ok tt) × (r.1.managed ≡ m)

  after_cleanup-Leaves :
      (ns : String) (m : List (String × String)) (r : Outcome (Unit {0}) × W)
      → r.0 ≡ ok tt
      → Leaves (remove ns m) (after_cleanup k cr ns m r)
  unfolding after_cleanup
  after_cleanup-Leaves ns m (ok u, w) h = (refl, refl)
  after_cleanup-Leaves ns m (err e, w) h = ground arith
  after_cleanup-Leaves ns m (panic, w) h = ground arith

  decided-Leaves :
      (names : List String) (ns : String) (b : Bool) (s : Managed W)
      → IsCalm names
      → Leaves (if b then s.managed else remove ns s.managed) (visit_decided k cr ns (ok b) s)
  unfolding visit_decided
  decided-Leaves names ns true s c = (refl, refl)
  decided-Leaves names ns false s (c, l) = after_cleanup-Leaves ns s.managed _ (c ns s.world)

  managed_word :
      (b : Bool) (ns : String) (names : List String)
      → (if b then ok false else is_among k cr ns (matching_names k cr (items names)))
        ≡ ok (not b && any (λ n. n == ns) (keep_names (k.matches cr.source_namespaces) names))
  unfolding is_among matching_names
  managed_word true ns names = refl
  managed_word false ns names = refl

  pub visit-Leaves :
      (names : List String) (ns : String) (s : Managed W)
      → IsCalm names
      → Leaves (if stays names ns then s.managed else remove ns s.managed) (visit k cr ns s)
  unfolding visit is_managed get_source_namespaces
  visit-Leaves names ns s (c, l) =
      subst
        (λ o.
          Leaves (if stays names ns then s.managed else remove ns s.managed)
            (visit_decided k cr ns o s))
        (sym (
          ap (λ x. if cr.is_marked then ok false else is_among k cr ns (matching_names k cr x))
            (l s.world)
          ∙ managed_word cr.is_marked ns names))
        (decided-Leaves names ns (stays names ns) s (c, l))

pub step_get :
    (ns key : String) (m : List (String × String)) (b b' r : Bool)
    → (ns ≡ key → b ≡ b')
    → HasDistinctKeys m
    → (if r && not b' then none else get key (if b then m else remove ns m))
      ≡ (if (ns == key || r) && not b' then none else get key m)
step_get ns key m true b' r h d = ground (arith, eq_iff ns key)
step_get ns key m false b' r h d =
    ground (arith, eq_iff ns key, get-remove-same ns m d, get-remove-other key ns m)
