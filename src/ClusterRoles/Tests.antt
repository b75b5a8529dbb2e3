-- ===== src/ClusterRoles/Tests.antt =====
-- The cluster roles at small instances.
use argocd_vee.Common.{
  ◌≡◌, refl, String, Bool, true, false, List, [], ◌∷◌, ◌==◌, string_eq, split_comma, trim_space,
  ◌&&◌, arith, eq_iff,
}
use argocd_vee.Effect.{Outcome, ok}
use argocd_vee.Objects.Table.{Table, table_client, table_client-IsStore, empty_table}
use argocd_vee.ClusterRoles.Fields.{
  ClusterRole, RoleOwner, new_cluster_role, application_controller, generate_unique_resource_name,
}
use argocd_vee.ClusterRoles.{allowed_namespace, reconcile_cluster_role, is_optional}
use argocd_vee.ClusterRoles.Matching.{new_cluster_role-IsRole, ComparesRules}
use argocd_vee.ClusterRoles.Bindings.{
  ClusterRoleBinding, IsBound, reconcile_cluster_role_binding,
  reconcile_cluster_role_binding-IsBound,
}
use argocd_vee.ClusterRoles.Modes.{Reached, desired}
use argocd_vee.ClusterRoles.Convergence.{reconcile_cluster_role_converges}

same_texts : List String → List String → Bool
same_texts [] [] = true
same_texts [] (b ∷ bs) = false
same_texts (a ∷ rest) [] = false
same_texts (a ∷ rest) (b ∷ bs) = let r = same_texts rest bs in a == b && r

texts_same : ComparesRules same_texts
unfolding same_texts
texts_same [] = refl
texts_same (a ∷ rest) = ground (arith, eq_iff a a, texts_same rest)

abbrev cr : RoleOwner
cr = record {
  name = "argocd";
  namespace = "ns";
  annotations = [];
  default_cluster_scoped_role_disabled = false;
  aggregated_cluster_roles = true;
}

abbrev no_hook : ClusterRole String → Outcome (ClusterRole String)
no_hook r = ok r

abbrev rules : List String
rules = "get" ∷ []

allowed_listed : allowed_namespace "ns" "other, ns" ≡ true
unfolding allowed_namespace split_comma trim_space
allowed_listed = refl

allowed_other : allowed_namespace "ns" "other" ≡ false
unfolding allowed_namespace split_comma trim_space
allowed_other = refl

abbrev run : Table (ClusterRole String) → Outcome (Unit {0}) × Table (ClusterRole String)
run = reconcile_cluster_role table_client same_texts no_hook true cr application_controller rules

reconcile_cluster_role_converges_example :
    Reached table_client same_texts no_hook true cr application_controller
      (desired table_client same_texts no_hook true cr application_controller rules
        (new_cluster_role application_controller rules cr))
      (run empty_table).1
    × (run (run empty_table).1 ≡ (ok tt, (run empty_table).1))
unfolding reconcile_cluster_role table_client
reconcile_cluster_role_converges_example =
    reconcile_cluster_role_converges table_client same_texts no_hook true cr application_controller
      rules (new_cluster_role application_controller rules cr) empty_table table_client-IsStore
      texts_same refl refl
      (new_cluster_role-IsRole same_texts application_controller rules cr texts_same) refl

abbrev plain : RoleOwner
plain = record cr { aggregated_cluster_roles = false }

reconcile_cluster_role_binding-IsBound_example :
    IsBound {W = Table ClusterRoleBinding} table_client plain application_controller true false true
      ((reconcile_cluster_role_binding table_client plain application_controller true empty_table).1
        "" "argocd-ns-argocd-application-controller")
unfolding reconcile_cluster_role_binding table_client is_optional generate_unique_resource_name
reconcile_cluster_role_binding-IsBound_example =
    reconcile_cluster_role_binding-IsBound table_client plain application_controller true
      empty_table table_client-IsStore refl refl refl
