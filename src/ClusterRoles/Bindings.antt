-- ===== src/ClusterRoles/Bindings.antt =====
-- controllers/argocd/rolebinding.go: reconcileClusterRoleBinding, the binding of a cluster role to the
-- service account of a component.
use argocd_vee.Common.{
  ◌≡◌, ◌⊎◌, inl, inr, refl, sym, subst, String, Bool, true, false, not, List, [], ◌∷◌, ◌&&◌, ◌==◌,
  string_eq, ◌<>◌, if◌then◌else◌, put, Entries,
}
use argocd_vee.Effect.{
  Err, ok, Step, done, fail, ◌>>◌, Ensures, Anywhere, if-Ensures, done-Ensures, fail-Ensures,
  then-Ensures, conclude,
}
use argocd_vee.Kube.{Fetch, found, missing, failed}
use argocd_vee.Objects.{
  ObjectClient, IsStore, call, owned, owned-Ensures, fetch-Ensures, create-Ensures, update-Ensures,
  delete-Ensures,
}
use argocd_vee.ClusterRoles.Fields.{
  RoleOwner, generate_unique_resource_name, default_labels, annotations_for_cluster,
}
use argocd_vee.ClusterRoles.{is_optional}

-- A service account, by name and namespace.
pub record Subject : Type 0 where
  pub name : String
  pub namespace : String

-- The role that is referred to is a cluster role, by name.
pub record ClusterRoleBinding : Type 0 where
  pub labels : Entries
  pub annotations : Entries
  pub subjects : List Subject
  pub role_ref : String

-- newClusterRoleBindingWithname
unfoldable pub new_cluster_role_binding : String → RoleOwner → ClusterRoleBinding
new_cluster_role_binding component cr = record {
  labels = put "app.kubernetes.io/name" component (default_labels cr.name);
  annotations = annotations_for_cluster cr;
  subjects = [];
  role_ref = "";
}

-- The binding, read or new, with its subject and its role.
unfoldable pub bound : String → RoleOwner → ClusterRoleBinding → ClusterRoleBinding
bound component cr b = record b {
  subjects = record { name = cr.name <> "-" <> component; namespace = cr.namespace } ∷ [];
  role_ref = generate_unique_resource_name component cr;
}

-- `has_role` says whether the step for the cluster role has returned one.
module _ {W : Type 0} (k : ObjectClient W ClusterRoleBinding) (cr : RoleOwner) (component : String)
    (has_role : Bool) where
  abbrev name : String
  name = generate_unique_resource_name component cr

  -- In the custom mode a binding that can be read is deleted; an error of the read is dropped.
  abbrev pub drop_default : Fetch ClusterRoleBinding → Step W
  drop_default (found b) = call (k.delete "" name)
  drop_default missing = done
  drop_default (failed e) = done

  -- The namespace of a cluster role binding is empty.
  abbrev own_binding : ClusterRoleBinding → Step W
  own_binding b = if cr.namespace == "" then owned k b else done

  unfoldable pub on_binding : Fetch ClusterRoleBinding → Step W
  unfolding call owned bound new_cluster_role_binding
  on_binding (failed e) = fail e
  on_binding (found b) =
      if not has_role
      then call (k.delete "" name)
      else own_binding (bound component cr b) >> call (k.update "" name (bound component cr b))
  on_binding missing =
      let b = bound component cr (new_cluster_role_binding component cr) in
      if not has_role then done else own_binding b >> call (k.create "" name b)

  unfoldable pub reconcile_cluster_role_binding : Step W
  unfolding on_binding call is_optional
  reconcile_cluster_role_binding =
      if is_optional component
      then done
      else if cr.default_cluster_scoped_role_disabled && cr.aggregated_cluster_roles
      then done
      else if cr.default_cluster_scoped_role_disabled
      then (λ w. drop_default (k.get w "" name) w)
      else (λ w. on_binding (k.get w "" name) w)

  -- The binding as the mode asks for it: missing in the custom mode, unless it cannot be read; missing
  -- without a role; and else there, with the service account and the role.
  abbrev pub IsBound : Bool → Bool → Fetch ClusterRoleBinding → Type 0
  IsBound true r f = (f ≡ missing) ⊎ ((e : Err) × (f ≡ failed e))
  IsBound false false f = f ≡ missing
  IsBound false true f =
      (b : ClusterRoleBinding) × (f ≡ found b)
      × (b.subjects ≡ record { name = cr.name <> "-" <> component; namespace = cr.namespace } ∷ [])
      × (b.role_ref ≡ name)

  own-Ensures : {P : W → Type 0} (b : ClusterRoleBinding) → Ensures P (own_binding b) P
  own-Ensures b =
      if-Ensures (cr.namespace == "") (λ e. owned-Ensures k b) (λ e. done-Ensures (λ w p. p))

  drop-Ensures :
      (r : Bool)
      → IsStore k
      → Ensures Anywhere
          (λ w. drop_default (k.get w "" name) w)
          (λ w. IsBound true r (k.get w "" name))
  drop-Ensures r s =
      fetch-Ensures k "" name drop_default
        (λ b. conclude (λ w g. inl g) (delete-Ensures k s "" name)) (done-Ensures (λ w p. inl p.1))
        (λ e. done-Ensures (λ w p. inr (e, p.1)))

  on_found-Ensures :
      (r : Bool) (b : ClusterRoleBinding)
      → IsStore k
      → Ensures
          (λ w. Anywhere w × (k.get w "" name ≡ found b))
          (if not r
            then call (k.delete "" name)
            else own_binding (bound component cr b)
              >> call (k.update "" name (bound component cr b)))
          (λ w. IsBound false r (k.get w "" name))
  unfolding bound
  on_found-Ensures false b s = delete-Ensures k s "" name
  on_found-Ensures true b s =
      conclude (λ w g. (bound component cr b, g, refl, refl))
        (then-Ensures (own-Ensures (bound component cr b))
          (update-Ensures k s "" name (bound component cr b)))

  on_missing-Ensures :
      (r : Bool) (b : ClusterRoleBinding)
      → IsStore k
      → Ensures
          (λ w. Anywhere w × (k.get w "" name ≡ missing))
          (if not r
            then done
            else own_binding (bound component cr b)
              >> call (k.create "" name (bound component cr b)))
          (λ w. IsBound false r (k.get w "" name))
  unfolding bound
  on_missing-Ensures false b s = done-Ensures (λ w p. p.1)
  on_missing-Ensures true b s =
      conclude (λ w g. (bound component cr b, g, refl, refl))
        (then-Ensures (own-Ensures (bound component cr b))
          (create-Ensures k s "" name (bound component cr b)))

  by_mode-Ensures :
      (d : Bool)
      → IsStore k
      → Ensures Anywhere
          (if d
            then (λ w. drop_default (k.get w "" name) w)
            else (λ w. on_binding (k.get w "" name) w))
          (λ w. IsBound d has_role (k.get w "" name))
  unfolding on_binding
  by_mode-Ensures true s = drop-Ensures has_role s
  by_mode-Ensures false s =
      fetch-Ensures k "" name on_binding (λ b. on_found-Ensures has_role b s)
        (on_missing-Ensures has_role (new_cluster_role_binding component cr) s)
        (λ e. fail-Ensures e)

  -- When the API server keeps what it accepts, the component is not the role for view or admin, the
  -- custom and the aggregated mode are not both asked for, and a run returns no error: afterwards, in
  -- the custom mode, the binding is missing or cannot be read; in the other modes it is missing
  -- without a role, and else it is there and binds the cluster role to the service account of the
  -- component.
  pub reconcile_cluster_role_binding-IsBound :
      (w : W)
      → IsStore k
      → is_optional component ≡ false
      → (cr.default_cluster_scoped_role_disabled && cr.aggregated_cluster_roles) ≡ false
      → (reconcile_cluster_role_binding w).0 ≡ ok tt
      → IsBound cr.default_cluster_scoped_role_disabled has_role
          (k.get (reconcile_cluster_role_binding w).1 "" name)
  unfolding reconcile_cluster_role_binding
  reconcile_cluster_role_binding-IsBound w s p q =
      subst
        (λ (t : Bool × Bool).
          ((if t.0 then done else if t.1 then done else rest) w).0 ≡ ok tt
          → IsBound cr.default_cluster_scoped_role_disabled has_role
              (k.get ((if t.0 then done else if t.1 then done else rest) w).1 "" name))
        (λ i. (sym p i, sym q i))
        ((by_mode-Ensures cr.default_cluster_scoped_role_disabled s).after w tt)
    where
      rest : Step W
      rest =
          if cr.default_cluster_scoped_role_disabled
          then (λ w. drop_default (k.get w "" name) w)
          else (λ w. on_binding (k.get w "" name) w)
