-- ===== src/ClusterRoles/Convergence.antt =====
-- controllers/argocd/role.go: whole runs for one cluster role.
use argocd_vee.Common.{
  ◌≡◌, ap, ◌∙◌, String, Bool, false, none, List, ◌&&◌, string_eq, if◌then◌else◌,
}
use argocd_vee.Effect.{Outcome, ok, Step, done}
use argocd_vee.Objects.{ObjectClient, IsStore}
use argocd_vee.ClusterRoles.Fields.{
  ClusterRole, RoleOwner, new_cluster_role, configure_aggregated_cluster_role,
}
use argocd_vee.ClusterRoles.{
  remove_if_there, ensure_role, with_hooked, is_conflicting, is_optional, reconcile_cluster_role,
}
use argocd_vee.ClusterRoles.Matching.{IsRole, ComparesRules}
use argocd_vee.ClusterRoles.Modes.{
  Reached, wanted, desired, if_still, remove_still, ensure_still, reconcile-Reached,
}

module _ {W R : Type 0} (k : ObjectClient W (ClusterRole R)) (same_rules : List R → List R → Bool)
    (hook : ClusterRole R → Outcome (ClusterRole R)) (allowed : Bool) (cr : RoleOwner)
    (component : String) where
  still :
      (rules : List R) (hooked : ClusterRole R) (w : W)
      → is_conflicting k same_rules hook allowed cr ≡ false
      → hook (new_cluster_role component rules cr) ≡ ok hooked
      → Reached k same_rules hook allowed cr component
          (desired k same_rules hook allowed cr component rules hooked)
          w
      → reconcile_cluster_role k same_rules hook allowed cr component rules w ≡ (ok tt, w)
  unfolding reconcile_cluster_role desired
  still rules hooked w n h g =
      ap (λ b. (if b then done else by_mode) w) n
      ∙ if_still k same_rules hook allowed cr component
          (allowed && cr.default_cluster_scoped_role_disabled) _ _ none _ w
          (remove_still k same_rules hook allowed cr component w)
          (if_still k same_rules hook allowed cr component (allowed && cr.aggregated_cluster_roles)
            _ _ (wanted k same_rules hook allowed cr component configured) _ w
            (ensure_still k same_rules hook allowed cr component configured w)
            (if_still k same_rules hook allowed cr component (is_optional component) _ _ none _ w
              (remove_still k same_rules hook allowed cr component w)
              (λ r.
                ap
                  (λ o.
                    with_hooked k same_rules hook allowed cr
                      (ensure_role k same_rules hook allowed cr component) o w)
                  h
                ∙ ensure_still k same_rules hook allowed cr component hooked w r)))
          g
    where
      configured : ClusterRole R
      configured =
          configure_aggregated_cluster_role cr component (new_cluster_role component rules cr)

      by_mode : Step W
      by_mode =
          if allowed && cr.default_cluster_scoped_role_disabled
          then remove_if_there k same_rules hook allowed cr component
          else if allowed && cr.aggregated_cluster_roles
          then ensure_role k same_rules hook allowed cr component configured
          else if is_optional component
          then remove_if_there k same_rules hook allowed cr component
          else with_hooked k same_rules hook allowed cr
              (ensure_role k same_rules hook allowed cr component)
              (hook (new_cluster_role component rules cr))

  -- When the API server keeps what it accepts, the comparison of rules finds a list equal to itself,
  -- the custom and the aggregated mode are not both asked for, the hook makes a role of the default
  -- one whose fields agree with themselves, and a run returns no error: afterwards the cluster role
  -- is missing where the instance may not have it or its mode has none (no permission, the custom
  -- mode, and the roles for view and admin outside the aggregated mode), and else it is there with
  -- the fields that its mode prescribes; and the next run returns no error and changes nothing.
  pub reconcile_cluster_role_converges :
      (rules : List R) (hooked : ClusterRole R) (w : W)
      → IsStore k
      → ComparesRules same_rules
      → is_conflicting k same_rules hook allowed cr ≡ false
      → hook (new_cluster_role component rules cr) ≡ ok hooked
      → IsRole same_rules hooked
      → (reconcile_cluster_role k same_rules hook allowed cr component rules w).0 ≡ ok tt
      → Reached k same_rules hook allowed cr component
          (desired k same_rules hook allowed cr component rules hooked)
          (reconcile_cluster_role k same_rules hook allowed cr component rules w).1
        × (reconcile_cluster_role k same_rules hook allowed cr component rules
              (reconcile_cluster_role k same_rules hook allowed cr component rules w).1
            ≡ (ok tt, (reconcile_cluster_role k same_rules hook allowed cr component rules w).1))
  reconcile_cluster_role_converges rules hooked w s c n h r e =
      let g =
        (reconcile-Reached k same_rules hook allowed cr component rules hooked s c n h r).after w tt
          e in
      (
        g,
        still rules hooked (reconcile_cluster_role k same_rules hook allowed cr component rules w).1
            n h g,
      )
