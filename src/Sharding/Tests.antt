-- ===== src/Sharding/Tests.antt =====
-- controllers/argocd/statefulset.go: three clusters, two for each shard.
use argocd_vee.Common.{◌≡◌, refl, List, [], ◌∷◌, String, length, arith, pos, negsuc, ◌*◌, ◌/◌, ◌<◌}
use argocd_vee.Kube.{items}
use argocd_vee.Sharding.{
  ShardSpec, get_application_controller_replica_count, min_shards_of, max_shards_of,
}
use argocd_vee.Sharding.Counts.{◌≤ℤ◌, replica_count_bounded, scaled, replica_count_overloads}

abbrev three : List String
three = "a" ∷ "b" ∷ "c" ∷ []

-- Bounds that need correction.
abbrev odd_spec : ShardSpec
odd_spec = record (scaled 5 3 1) { clusters_per_shard = negsuc 4 }

replica_count_bounded_example :
    (pos 1 ≤ℤ min_shards_of odd_spec)
    × (min_shards_of odd_spec ≤ℤ get_application_controller_replica_count odd_spec (items three))
    × (get_application_controller_replica_count odd_spec (items three) ≤ℤ max_shards_of odd_spec)
replica_count_bounded_example = replica_count_bounded odd_spec three refl

replica_count_overloads_example :
    (get_application_controller_replica_count (scaled 1 10 2) (items three)
      ≡ pos (length three / 2))
    × ((length three / 2) * 2 < length three)
replica_count_overloads_example =
    replica_count_overloads 1 10 2 three (omega arith) (omega arith) (omega arith) (omega arith)
      (omega arith) (omega arith)

-- One shard for three clusters, where each shard may have two.
one_shard : get_application_controller_replica_count (scaled 1 10 2) (items three) ≡ pos 1
unfolding get_application_controller_replica_count
one_shard = refl
