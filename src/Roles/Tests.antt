-- ===== src/Roles/Tests.antt =====
-- The roles of an instance with one namespace of its own, one of another team and one that goes.
use argocd_vee.Common.{
  inl, inr, ◌≡◌, ◌<>◌, refl, String, Bool, true, false, none, List, [], ◌∷◌, ◌==◌, string_eq, ◌&&◌,
  arith, eq_iff,
}
use argocd_vee.Effect.{Outcome, ok}
use argocd_vee.Kube.{missing, items}
use argocd_vee.Objects.Table.{
  Table, table_client, table_client-IsStore, table_client-KeepsOthers, empty_table, set,
}
use argocd_vee.ClusterRoles.Fields.{application_controller, default_labels}
use argocd_vee.Roles.{
  Role, RoleClient, RoleState, RoleSettings, ManagedNamespace, new_role, reconcile_role,
}
use argocd_vee.Roles.Places.{IsPlaced}
use argocd_vee.Roles.Everywhere.{IsIn, reconcile_role-IsPlaced}

same_texts : List String → List String → Bool
same_texts [] [] = true
same_texts [] (b ∷ bs) = false
same_texts (a ∷ rest) [] = false
same_texts (a ∷ rest) (b ∷ bs) = let r = same_texts rest bs in a == b && r

texts_same : (l : List String) → same_texts l l ≡ true
unfolding same_texts
texts_same [] = refl
texts_same (a ∷ rest) = ground (arith, eq_iff a a, texts_same rest)

abbrev cr : RoleSettings
cr = record {
  name = "argocd";
  namespace = "ns";
  uses_dex = false;
  controller_cluster_role = "";
  server_cluster_role = "";
}

abbrev client : RoleClient (Table (Role String)) (Unit {0}) String
client = record {
  roles = table_client;
  list_argocds = λ w n. items [];
  update_labels = λ n l w. (w, none);
}

-- A hook that gives the role another name.
abbrev renaming : Role String → Outcome (Role String)
renaming r = ok (record r { name = "custom-" <> r.name })

abbrev rules : List String
rules = "get" ∷ []

abbrev renamed : Role String
renamed = record {
  name = "custom-argocd-argocd-application-controller";
  labels = default_labels "argocd";
  rules = rules;
}

abbrev namespaces : List ManagedNamespace
namespaces =
    record { name = "ns"; labels = []; is_terminating = false }
    ∷ record { name = "team"; labels = []; is_terminating = false }
    ∷ record { name = "gone"; labels = []; is_terminating = true }
    ∷ []

abbrev start : RoleState (Table (Role String)) (Unit {0})
start = record { roles = empty_table; others = tt }

abbrev end : Outcome (Unit {0}) × RoleState (Table (Role String)) (Unit {0})
end = reconcile_role client same_texts renaming cr application_controller rules namespaces start

gone_untouched : end.1.roles "gone" "custom-argocd-argocd-application-controller" ≡ missing
unfolding reconcile_role table_client set
gone_untouched = refl

abbrev team : ManagedNamespace
team = record { name = "team"; labels = []; is_terminating = false }

reconcile_role-IsPlaced_example :
    IsPlaced client same_texts renaming cr application_controller renamed
      (end.1.roles "team" renamed.name)
unfolding reconcile_role table_client IsIn new_role
reconcile_role-IsPlaced_example =
    reconcile_role-IsPlaced client same_texts renaming cr application_controller rules renamed
      namespaces start team
      (table_client-IsStore, table_client-KeepsOthers, λ ns n l w. refl, texts_same, refl) refl
      (inr (inl refl)) (refl, refl)
