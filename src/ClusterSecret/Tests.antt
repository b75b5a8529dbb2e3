-- ===== src/ClusterSecret/Tests.antt =====
-- The cluster secret at small lists of namespaces.
use argocd_vee.Common.{
  ◌⊎◌, ◌≡◌, refl, String, true, false, not, none, some, List, [], ◌∷◌, ◌&&◌, ◌==◌, string_eq,
  split_comma, join_with, trim_space, sort_texts,
}
use argocd_vee.Kube.{items}
use argocd_vee.ClusterSecret.{
  ClusterSecret, SecretClient, contains_string, merge_namespaces, drop_namespace,
}
use argocd_vee.ClusterSecret.Names.{is_listed}
use argocd_vee.ClusterSecret.Dropped.{has_other, drop_namespace_cases}

abbrev secret : ClusterSecret
secret = record {
  name = "argocd-default-cluster-config";
  server = "https://kubernetes.default.svc";
  namespaces = some "argocd,old";
}

-- A world that records the last write.
abbrev client : SecretClient (List ClusterSecret)
client = record {
  list_managed = λ w ns. items ("team" ∷ []);
  list_cluster_secrets = λ w ns. items w;
  update = λ ns s w. (s ∷ [], none);
  create = λ ns s w. (s ∷ w, none);
  own = λ s. none;
}

merged : merge_namespaces ("b" ∷ "a" ∷ []) (some "c,a") ≡ "a,b,c"
unfolding merge_namespaces split_comma trim_space sort_texts join_with
merged = refl

-- A secret without the entry gets an empty name beside the others.
merged_missing : merge_namespaces ("argocd" ∷ []) none ≡ ",argocd"
unfolding merge_namespaces split_comma trim_space sort_texts join_with
merged_missing = refl

dropped_only : drop_namespace "team" "team" ≡ "team"
unfolding drop_namespace split_comma trim_space
dropped_only = refl

dropped : drop_namespace "team" "team, b,a" ≡ "a,b"
unfolding drop_namespace split_comma trim_space sort_texts join_with
dropped = refl

drop_namespace_cases_example :
    ((has_other "team" (split_comma "team,b") ≡ true)
      × ((n : String)
          → contains_string (split_comma (drop_namespace "team" "team,b")) n
            ≡ (not (n == "team") && is_listed (split_comma "team,b") n)))
    ⊎ ((has_other "team" (split_comma "team,b") ≡ false)
        × (drop_namespace "team" "team,b" ≡ "team,b"))
drop_namespace_cases_example = drop_namespace_cases "team" "team,b"
