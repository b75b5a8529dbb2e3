-- ===== src/Status/Workloads/Classify.antt =====
-- When each word is shown for a workload.
use argocd_vee.Common.{
  ℕ, false, ◌⊎◌, inl, ◌≡◌, ◌≢◌, refl, ◌↔◌, String, true, Option, none, some, nat_eq, string_eq,
  arith, ne_of_beq, sym,
}
use mathlib.Core.Option.{none-ne-some, some-ne-none, some-injective}
use argocd_vee.Kube.{Fetch, found, missing, failed, Workload, DeploymentConfig}
use argocd_vee.Status.Workloads.{
  deployment_word, redis_ha_word, deployment_status, replica_failure, keycloak_template_status,
  redis_ha_status,
}

-- Read and with a replica count, which is the number of ready replicas.
abbrev pub AllReady : Fetch Workload → Type 0
AllReady (found w) = w.replicas ≡ some w.ready_replicas
AllReady missing = ⊥
AllReady (failed e) = ⊥

-- Read and with a replica count, not all ready, and with the condition that creation failed.
abbrev pub HasFailed : Fetch Workload → Type 0
HasFailed (found w) =
    (w.replicas ≢ none)
    × (w.replicas ≢ some w.ready_replicas)
    × (replica_failure w.conditions ≡ true)
HasFailed missing = ⊥
HasFailed (failed e) = ⊥

-- Read, not all ready and not failed; or not read, for an error other than NotFound.
abbrev pub IsWaiting : Fetch Workload → Type 0
IsWaiting (found w) =
    (w.replicas ≢ some w.ready_replicas)
    × ((w.replicas ≡ none) ⊎ (replica_failure w.conditions ≡ false))
IsWaiting missing = ⊥
IsWaiting (failed e) = Unit

failed≢running : ◌≢◌ {A = String} "Failed" "Running"
failed≢running = ne_of_beq _ _ refl

pending≢running : ◌≢◌ {A = String} "Pending" "Running"
pending≢running = ne_of_beq _ _ refl

pending≢failed : ◌≢◌ {A = String} "Pending" "Failed"
pending≢failed = ne_of_beq _ _ refl

unknown≢running : ◌≢◌ {A = String} "Unknown" "Running"
unknown≢running = ne_of_beq _ _ refl

unknown≢failed : ◌≢◌ {A = String} "Unknown" "Failed"
unknown≢failed = ne_of_beq _ _ refl

unknown≢pending : ◌≢◌ {A = String} "Unknown" "Pending"
unknown≢pending = ne_of_beq _ _ refl

ruleset words = (
  failed≢running, pending≢running, pending≢failed, unknown≢running, unknown≢failed, unknown≢pending,
)

word_unknown : (o : Option ℕ) (w : Workload) → deployment_word o w ≢ "Unknown"
unfolding deployment_word
word_unknown none w e = unknown≢pending (sym e)
word_unknown (some n) w e = ground (arith, words)

word_running :
    (o : Option ℕ) (w : Workload) → (deployment_word o w ≡ "Running") ↔ (o ≡ some w.ready_replicas)
unfolding deployment_word
word_running none w = ((λ e. absurd (pending≢running e)), (λ e. cc))
word_running (some n) w = ground (arith, words)

word_failed :
    (o : Option ℕ) (w : Workload)
    → (deployment_word o w ≡ "Failed")
      ↔ ((o ≢ none) × (o ≢ some w.ready_replicas) × (replica_failure w.conditions ≡ true))
unfolding deployment_word
word_failed none w = ((λ e. absurd (pending≢failed e)), (λ h. absurd (h.0 refl)))
word_failed (some n) w = ground (arith, words)

word_pending :
    (o : Option ℕ) (w : Workload)
    → (deployment_word o w ≡ "Pending")
      ↔ ((o ≢ some w.ready_replicas) × ((o ≡ none) ⊎ (replica_failure w.conditions ≡ false)))
unfolding deployment_word
word_pending none w = ((λ e. (none-ne-some _, inl refl)), (λ h. refl))
word_pending (some n) w = ground (arith, words)

-- The status of a deployment is Unknown exactly if it is not found; Running exactly if it was
-- read and its replica count is set and equals the number of ready replicas; Failed exactly
-- if it was read, has another replica count, and has a true condition ReplicaFailure; and Pending
-- exactly if it was read, is not all ready, and has no replica count or no such condition, or if
-- the read failed with another error than NotFound.
pub deployment_status_cases :
    (f : Fetch Workload)
    → ((deployment_status f ≡ "Unknown") ↔ (f ≡ missing))
      × ((deployment_status f ≡ "Running") ↔ AllReady f)
      × ((deployment_status f ≡ "Failed") ↔ HasFailed f)
      × ((deployment_status f ≡ "Pending") ↔ IsWaiting f)
unfolding deployment_status
deployment_status_cases (found w) = (
  (λ e. absurd (word_unknown w.replicas w e), λ e. cc),
  word_running w.replicas w,
  word_failed w.replicas w,
  word_pending w.replicas w,
)
deployment_status_cases missing = (
  (λ e. refl, λ e. refl),
  (λ e. absurd (unknown≢running e), λ h. absurd h),
  (λ e. absurd (unknown≢failed e), λ h. absurd h),
  (λ e. absurd (unknown≢pending e), λ h. absurd h),
)
deployment_status_cases (failed x) = (
  (λ e. absurd (unknown≢pending (sym e)), λ e. cc),
  (λ e. absurd (pending≢running e), λ h. absurd h),
  (λ e. absurd (pending≢failed e), λ h. absurd h),
  (λ e. tt, λ h. refl),
)

-- Read and as many ready replicas as wanted ones; or not read, for an error other than NotFound.
abbrev pub ConfigReady : Fetch DeploymentConfig → Type 0
ConfigReady (found dc) = dc.ready_replicas ≡ dc.replicas
ConfigReady missing = ⊥
ConfigReady (failed e) = Unit

config_running :
    (dc : DeploymentConfig)
    → (keycloak_template_status (found dc) ≡ "Running") ↔ (dc.ready_replicas ≡ dc.replicas)
unfolding keycloak_template_status
config_running dc = ground (arith, words)

config_unknown : (dc : DeploymentConfig) → keycloak_template_status (found dc) ≢ "Unknown"
unfolding keycloak_template_status
config_unknown dc e = ground (arith, words)

-- The status of Keycloak's DeploymentConfig is Unknown exactly if it is not found. It is Running
-- exactly if it was read and has as many ready replicas as it wants, or if the read failed with
-- an error other than NotFound.
pub keycloak_template_status_cases :
    (f : Fetch DeploymentConfig)
    → ((keycloak_template_status f ≡ "Unknown") ↔ (f ≡ missing))
      × ((keycloak_template_status f ≡ "Running") ↔ ConfigReady f)
keycloak_template_status_cases (found dc) =
    ((λ e. absurd (config_unknown dc e), λ e. cc), config_running dc)
keycloak_template_status_cases missing =
    unfold keycloak_template_status in
    ((λ e. refl, λ e. refl), (λ e. absurd (unknown≢running e), λ h. absurd h))
keycloak_template_status_cases (failed x) =
    unfold keycloak_template_status in
    ((λ e. absurd (unknown≢running (sym e)), λ e. cc), (λ e. tt, λ h. refl))

-- Read with a replica count, or not found.
abbrev pub HasCount : Fetch Workload → Type 0
HasCount (found w) = w.replicas ≢ none
HasCount missing = Unit
HasCount (failed e) = ⊥

ha_word_cases :
    (o : Option ℕ) (w : Workload)
    → ((redis_ha_word o w ≢ none) ↔ (o ≢ none))
      × ((redis_ha_word o w ≡ some "Running") ↔ (o ≡ some w.ready_replicas))
unfolding redis_ha_word
ha_word_cases none w = (
  (λ h e. h refl, λ h e. h refl),
  (λ e. absurd (none-ne-some _ e), λ e. absurd (none-ne-some _ e)),
)
ha_word_cases (some n) w =
    ((λ h e. some-ne-none _ e, λ h e. some-ne-none _ e), ground (arith, words))

-- The status code of highly available redis panics exactly if its StatefulSet was read without a
-- replica count, or could not be read for an error other than NotFound. It is Running exactly if
-- the set was read and its replica count is set and equals the number of ready replicas.
pub redis_ha_status_cases :
    (f : Fetch Workload)
    → ((redis_ha_status f ≢ none) ↔ HasCount f)
      × ((redis_ha_status f ≡ some "Running") ↔ AllReady f)
unfolding redis_ha_status
redis_ha_status_cases (found w) = ha_word_cases w.replicas w
redis_ha_status_cases missing = (
  (λ h. tt, λ h e. some-ne-none _ e),
  (λ e. absurd (unknown≢running (some-injective _ _ e)), λ h. absurd h),
)
redis_ha_status_cases (failed x) =
    ((λ h. h refl, λ h. absurd h), (λ e. absurd (none-ne-some _ e), λ h. absurd h))

word-ne-empty : (o : Option ℕ) (w : Workload) → deployment_word o w ≢ ""
unfolding deployment_word
word-ne-empty none w = ne_of_beq "Pending" "" refl
word-ne-empty (some n) w =
    ground
      (arith, ne_of_beq "Pending" "" refl, ne_of_beq "Running" "" refl, ne_of_beq "Failed" "" refl)

-- A status is never the empty text.
pub deployment_status-ne-empty : (f : Fetch Workload) → deployment_status f ≢ ""
unfolding deployment_status
deployment_status-ne-empty (found w) = word-ne-empty w.replicas w
deployment_status-ne-empty missing = ne_of_beq "Unknown" "" refl
deployment_status-ne-empty (failed e) = ne_of_beq "Pending" "" refl
