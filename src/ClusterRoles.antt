-- ===== src/ClusterRoles.antt =====
-- controllers/argocd/role.go: the cluster roles of an instance, in the default, the aggregated and the
-- custom mode. `R` is a policy rule of RBAC, whose lists `same_rules` compares as reflect.DeepEqual
-- does; the hook is a function that another program registers.
pub mod Fields
pub mod Matching
pub mod Modes
pub mod Convergence
pub mod Bindings
mod Tests
use argocd_vee.Common.{
  String, Bool, true, false, not, Option, none, some, List, [], ◌∷◌, ◌&&◌, ◌||◌, ◌==◌, string_eq,
  ◌<>◌, if◌then◌else◌, any, all, Entries, copy_into, split_comma, trim_space, map,
}
use argocd_vee.Effect.{Err, Outcome, ok, err, panic, Step, done, fail, failure, ◌>>◌}
use argocd_vee.Kube.{Fetch, found, missing, failed, Listing, items, list_failed}
use argocd_vee.Objects.{ObjectClient, call}
use argocd_vee.ClusterRoles.Fields.{
  ClusterRole, RoleOwner, new_cluster_role, application_controller, application_controller_view,
  application_controller_admin, generate_unique_resource_name, configure_aggregated_cluster_role,
  Match, match_aggregated_cluster_role_fields, match_default_cluster_role_fields,
}

-- splitList
unfoldable pub split_list : String → List String
split_list s = map trim_space (split_comma s)

-- `namespaces` is the environment variable ARGOCD_CLUSTER_CONFIG_NAMESPACES.
unfoldable pub allowed_namespace : String → String → Bool
unfolding split_list
allowed_namespace current namespaces = go (split_list namespaces)
  where
    go : List String → Bool
    go [] = false
    go (n ∷ rest) = n == "*" || any (λ m. m == current) (n ∷ rest)

unfoldable pub is_optional : String → Bool
is_optional component =
    component == application_controller_view || component == application_controller_admin

module _ {W R : Type 0} (k : ObjectClient W (ClusterRole R)) (same_rules : List R → List R → Bool)
    (hook : ClusterRole R → Outcome (ClusterRole R)) (allowed : Bool) (cr : RoleOwner) where
  -- The object is deleted if it is there; a read that fails is returned.
  abbrev pub remove_fetched : String → Fetch (ClusterRole R) → Step W
  remove_fetched name (found r) = call (k.delete "" name)
  remove_fetched name missing = done
  remove_fetched name (failed e) = fail e

  unfoldable pub remove_if_there : String → Step W
  unfolding call
  remove_if_there component w =
      let name = generate_unique_resource_name component cr in
      remove_fetched name (k.get w "" name) w

  -- What is written to an existing role, if a field of it differs.
  unfoldable pub match_role : String → ClusterRole R → ClusterRole R → Match R
  match_role component expected existing =
      if cr.aggregated_cluster_roles
      then match_aggregated_cluster_role_fields same_rules component expected existing
      else match_default_cluster_role_fields same_rules component expected existing

  abbrev pub write_changed : String → Match R → Step W
  write_changed name m = if m.changed then call (k.update "" name m.role) else done

  unfoldable pub on_existing : String → ClusterRole R → Fetch (ClusterRole R) → Step W
  unfolding match_role call
  on_existing component expected (found r) =
      if not allowed
      then call (k.delete "" (generate_unique_resource_name component cr))
      else write_changed (generate_unique_resource_name component cr)
          (match_role component expected r)
  on_existing component expected missing =
      if not allowed
      then done
      else call (k.create "" (generate_unique_resource_name component cr) expected)
  on_existing component expected (failed e) = fail (failure "failed to reconcile the cluster role")

  unfoldable pub ensure_role : String → ClusterRole R → Step W
  unfolding on_existing
  ensure_role component expected w =
      on_existing component expected (k.get w "" (generate_unique_resource_name component cr)) w

  abbrev pub with_hooked : (ClusterRole R → Step W) → Outcome (ClusterRole R) → Step W
  with_hooked f (ok r) = f r
  with_hooked f (err e) = fail e
  with_hooked f panic = λ w. (panic, w)

  -- verifyInstallationMode
  unfoldable pub is_conflicting : Bool
  is_conflicting =
      allowed && (cr.default_cluster_scoped_role_disabled && cr.aggregated_cluster_roles)

  -- The step for one role; the role that is returned beside the error is left out.
  unfoldable pub reconcile_cluster_role : String → List R → Step W
  unfolding remove_if_there ensure_role is_conflicting is_optional
  reconcile_cluster_role component rules =
      let role = new_cluster_role component rules cr in
      if is_conflicting
      then done
      else if allowed && cr.default_cluster_scoped_role_disabled
      then remove_if_there component
      else if allowed && cr.aggregated_cluster_roles
      then ensure_role component (configure_aggregated_cluster_role cr component role)
      else if is_optional component
      then remove_if_there component
      else with_hooked (ensure_role component) (hook role)

  -- The loop of reconcileRoles over getPolicyRuleClusterRoleList.
  unfoldable pub reconcile_cluster_roles : List (String × List R) → Step W
  unfolding reconcile_cluster_role
  reconcile_cluster_roles [] = done
  reconcile_cluster_roles ((component, rules) ∷ rest) =
      reconcile_cluster_role component rules >> reconcile_cluster_roles rest
