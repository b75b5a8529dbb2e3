-- ===== src/Status/Workloads.antt =====
-- controllers/argocd/status.go: the word that stands for what a workload is doing.
pub mod Classify
use argocd_vee.Common.{
  ℕ, ◌≡◌, refl, String, Bool, true, false, ◌&&◌, Option, none, some, List, [], any, ◌==◌, nat_eq,
  string_eq, if◌then◌else◌,
}
use argocd_vee.Kube.{
  Fetch, found, missing, failed, is_object_found, object_after, Workload, DeploymentConfig,
  Condition,
}

-- The loop over the conditions: a condition ReplicaFailure that is True.
unfoldable pub replica_failure : List Condition → Bool
replica_failure = any (λ c. c.type == "ReplicaFailure" && c.status == "True")

-- `newDeploymentWithSuffix` and `newStatefulSetWithSuffix` set no replicas and no status.
pub new_workload : Workload
new_workload = record { replicas = none; ready_replicas = 0; conditions = [] }

abbrev running_word : Bool → Bool → String
running_word all_ready failure =
    if all_ready then "Running" else if failure then "Failed" else "Pending"

pub deployment_word : Option ℕ → Workload → String
deployment_word none w = "Pending"
deployment_word (some n) w = running_word (w.ready_replicas == n) (replica_failure w.conditions)

unfoldable pub deployment_status : Fetch Workload → String
unfolding is_object_found object_after new_workload deployment_word
deployment_status f =
    let w = object_after new_workload f in
    if is_object_found f then deployment_word w.replicas w else "Unknown"

pub stateful_set_word : Option ℕ → Workload → String
stateful_set_word none w = "Pending"
stateful_set_word (some n) w = if w.ready_replicas == n then "Running" else "Pending"

-- The application controller: no failure is read from the conditions.
unfoldable pub stateful_set_status : Fetch Workload → String
unfolding is_object_found object_after new_workload stateful_set_word
stateful_set_status f =
    let w = object_after new_workload f in
    if is_object_found f then stateful_set_word w.replicas w else "Unknown"

-- `*ss.Spec.Replicas` with no test for nil: `none` is the panic.
pub redis_ha_word : Option ℕ → Workload → Option String
redis_ha_word none w = none
redis_ha_word (some n) w = some (if w.ready_replicas == n then "Running" else "Pending")

unfoldable pub redis_ha_status : Fetch Workload → Option String
unfolding is_object_found object_after new_workload redis_ha_word
redis_ha_status f =
    let w = object_after new_workload f in
    if is_object_found f then redis_ha_word w.replicas w else some "Unknown"

pub new_deployment_config : DeploymentConfig
new_deployment_config = record { replicas = 0; ready_replicas = 0; conditions = [] }

-- Keycloak installed by a template: replicas are compared as plain numbers.
unfoldable pub keycloak_template_status : Fetch DeploymentConfig → String
unfolding is_object_found object_after new_deployment_config
keycloak_template_status f =
    let dc = object_after new_deployment_config f in
    if is_object_found f
    then running_word (dc.ready_replicas == dc.replicas) (replica_failure dc.conditions)
    else "Unknown"
