-- ===== src/Sharding/Counts.antt =====
-- controllers/argocd/statefulset.go: bounds on the number of shards, and how many clusters one has.
use argocd_vee.Common.{
  arith, if_true, subst, sym, some, ℕ, ◌*◌, ◌/◌, ◌%◌, ◌^◌, ◌≤◌, ◌<◌, ◌≡◌, ap, ◌∙◌, true, false,
  String, List, length, ℤ, pos, negsuc, int_ltb, quot, to_int32,
}
use argocd_vee.Kube.{items}
use argocd_vee.Sharding.{
  ShardSpec, at_least, at_most, is_dynamic, min_shards_of, max_shards_of, clusters_per_shard_of,
  dynamic_count, get_application_controller_replica_count,
}

-- The order of the integers, by its test.
infix 20 ◌≤ℤ◌
abbrev pub ◌≤ℤ◌ : ℤ → ℤ → Type 0
a ≤ℤ b = int_ltb b a ≡ false

clamped :
    (lo hi x : ℤ)
    → lo ≤ℤ hi
    → (lo ≤ℤ at_most hi (at_least lo x)) × (at_most hi (at_least lo x) ≤ℤ hi)
clamped (pos a) (pos b) (pos c) h = ground arith
clamped (pos a) (pos b) (negsuc c) h = ground arith
clamped (pos a) (negsuc b) x h = ground arith
clamped (negsuc a) (pos b) (pos c) h = ground arith
clamped (negsuc a) (pos b) (negsuc c) h = ground arith
clamped (negsuc a) (negsuc b) (pos c) h = ground arith
clamped (negsuc a) (negsuc b) (negsuc c) h = ground arith

raised : (lo x : ℤ) → lo ≤ℤ at_least lo x
raised (pos a) (pos b) = ground arith
raised (pos a) (negsuc b) = ground arith
raised (negsuc a) (pos b) = ground arith
raised (negsuc a) (negsuc b) = ground arith

-- With dynamic scaling, and the cluster secrets listed, the number of replicas lies between the
-- corrected bounds, and is at least 1, for any integers in the resource.
pub replica_count_bounded :
    (spec : ShardSpec) (secrets : List String)
    → is_dynamic spec.dynamic_scaling_enabled ≡ true
    → (pos 1 ≤ℤ min_shards_of spec)
      × (min_shards_of spec ≤ℤ get_application_controller_replica_count spec (items secrets))
      × (get_application_controller_replica_count spec (items secrets) ≤ℤ max_shards_of spec)
unfolding get_application_controller_replica_count dynamic_count min_shards_of max_shards_of
replica_count_bounded spec secrets d =
    let lo = at_least (pos 1) spec.min_shards in
    let hi = at_least lo spec.max_shards in
    let x = quot (to_int32 (length secrets)) (clusters_per_shard_of spec) in
    let count =
      if_true (is_dynamic spec.dynamic_scaling_enabled) (dynamic_count spec (items secrets)) _ d in
    let (p, q) = clamped lo hi x (raised lo spec.max_shards) in
    (
      raised (pos 1) spec.min_shards,
      subst (λ y. lo ≤ℤ y) (sym count) p,
      subst (λ y. y ≤ℤ hi) (sym count) q,
    )

to_int32-small : (n : ℕ) → n < 2 ^ 31 → to_int32 n ≡ pos n
to_int32-small n h = ground arith

quotient_below : (n per : ℕ) → 1 ≤ per → 1 ≤ n % per → (n / per) * per < n
quotient_below n per h r = omega arith

-- A resource whose bounds need no correction.
abbrev pub scaled : ℕ → ℕ → ℕ → ShardSpec
scaled lo hi per = record {
  enabled = true;
  replicas = pos 0;
  dynamic_scaling_enabled = some true;
  min_shards = pos lo;
  max_shards = pos hi;
  clusters_per_shard = pos per;
}

at_least_one : (n : ℕ) → 1 ≤ n → at_least (pos 1) (pos n) ≡ pos n
at_least_one n h = ground arith

abbrev bounded : ℕ → ℕ → ℤ → ℤ
bounded lo hi x =
    at_most (at_least (at_least (pos 1) (pos lo)) (pos hi)) (at_least (at_least (pos 1) (pos lo)) x)

clamped_inside : (lo hi q : ℕ) → 1 ≤ lo → lo ≤ q → q ≤ hi → bounded lo hi (pos q) ≡ pos q
clamped_inside lo hi q a b c = ground arith

-- With dynamic scaling, a lower bound and a number of clusters for each shard of at least 1, and fewer
-- than 2^31 clusters, the number of clusters is divided and the quotient is cut off: where the
-- division leaves a rest and the quotient lies within the bounds, the shards together, at that
-- number of clusters for each, have room for fewer clusters than there are.
pub replica_count_overloads :
    (lo hi per : ℕ) (secrets : List String)
    → 1 ≤ lo
    → 1 ≤ per
    → length secrets < 2 ^ 31
    → lo ≤ length secrets / per
    → length secrets / per ≤ hi
    → 1 ≤ length secrets % per
    → (get_application_controller_replica_count (scaled lo hi per) (items secrets)
        ≡ pos (length secrets / per))
      × ((length secrets / per) * per < length secrets)
unfolding get_application_controller_replica_count dynamic_count min_shards_of max_shards_of
    clusters_per_shard_of
replica_count_overloads lo hi per secrets a p n b c r = (
  ap (λ x. bounded lo hi (quot x (clusters_per_shard_of (scaled lo hi per))))
        (to_int32-small (length secrets) n)
      ∙ ap (λ y. bounded lo hi (quot (pos (length secrets)) y)) (at_least_one per p)
      ∙ clamped_inside lo hi (length secrets / per) a b c,
  quotient_below (length secrets) per p r,
)
