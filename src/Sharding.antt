-- ===== src/Sharding.antt =====
-- controllers/argocd/statefulset.go: how many replicas the application controller gets. The list of
-- the cluster secrets is a parameter, as the client returns it.
pub mod Counts
mod Tests
use argocd_vee.Common.{
  ℕ, Bool, true, false, not, ◌&&◌, Option, none, some, List, length, ℤ, pos, negsuc, int_ltb, quot,
  to_int32,
}
use argocd_vee.Common.{String, if◌then◌else◌}
use argocd_vee.Kube.{Listing, items, list_failed}

-- api/v1beta1/argocd_types.go: ArgoCDApplicationControllerShardSpec
pub record ShardSpec : Type 0 where
  pub enabled : Bool
  pub replicas : ℤ
  pub dynamic_scaling_enabled : Option Bool
  pub min_shards : ℤ
  pub max_shards : ℤ
  pub clusters_per_shard : ℤ

-- common/defaults.go
abbrev pub default_replicas : ℤ
default_replicas = pos 1

-- `if x < bound { x = bound }` and `if x > bound { x = bound }`
abbrev pub at_least : ℤ → ℤ → ℤ
at_least bound x = if int_ltb x bound then bound else x

abbrev pub at_most : ℤ → ℤ → ℤ
at_most bound x = if int_ltb bound x then bound else x

abbrev pub is_dynamic : Option Bool → Bool
is_dynamic none = false
is_dynamic (some b) = b

-- The bounds as they are corrected.
unfoldable pub min_shards_of : ShardSpec → ℤ
min_shards_of spec = at_least (pos 1) spec.min_shards

unfoldable pub max_shards_of : ShardSpec → ℤ
unfolding min_shards_of
max_shards_of spec = at_least (min_shards_of spec) spec.max_shards

unfoldable pub clusters_per_shard_of : ShardSpec → ℤ
clusters_per_shard_of spec = at_least (pos 1) spec.clusters_per_shard

unfoldable pub dynamic_count : ShardSpec → Listing String → ℤ
unfolding min_shards_of max_shards_of clusters_per_shard_of
dynamic_count spec (list_failed e) = default_replicas
dynamic_count spec (items secrets) =
    at_most (max_shards_of spec) (
      at_least (min_shards_of spec) (quot (to_int32 (length secrets)) (clusters_per_shard_of spec)))

-- `Replicas != 0`
abbrev pub is_zero : ℤ → Bool
is_zero x = not (int_ltb x (pos 0)) && not (int_ltb (pos 0) x)

unfoldable pub get_application_controller_replica_count : ShardSpec → Listing String → ℤ
unfolding dynamic_count
get_application_controller_replica_count spec secrets =
    if is_dynamic spec.dynamic_scaling_enabled
    then dynamic_count spec secrets
    else if not (is_zero spec.replicas) && spec.enabled
    then spec.replicas
    else default_replicas
