-- ===== src/Status/Tests.antt =====
-- The status code on a small cluster: the theorems at concrete inputs, and runs.
use argocd_vee.Common.{
  ◌≡◌, ◌≢◌, refl, ◌↔◌, true, false, Option, none, some, [], ◌∷◌, ◌==◌, string_eq, if◌then◌else◌,
  ◌⊎◌,
}
use argocd_vee.Effect.{Outcome, ok, api, ◌>>◌}
use argocd_vee.Api.{ArgoCd, ArgoCdSpec, ArgoCdStatus, is_enabled}
use argocd_vee.Kube.{
  Fetch, found, missing, failed, Workload, DeploymentConfig, Route, items, StatusClient,
  name_with_suffix, ClusterApis, IsStatusOnly, AcceptsStatus,
}
use argocd_vee.Status.{
  State, reconcile_status, write_status, reconcile_status_notifications, phase_of, host_is,
  route_host,
}
use argocd_vee.Status.Seen.{seen, round, IsReadable, host_phase}
use argocd_vee.Status.Workloads.{
  replica_failure, stateful_set_status, deployment_status, redis_ha_status,
  keycloak_template_status,
}
use argocd_vee.Status.Workloads.Classify.{
  deployment_status_cases, IsWaiting, redis_ha_status_cases, keycloak_template_status_cases,
  ConfigReady, AllReady, HasFailed, HasCount,
}
use argocd_vee.Status.Steps.{Leaves}
use argocd_vee.Status.Round.{reconcile_status-Implements}
use argocd_vee.Status.Settle.{reconcile_status_settles, reconcile_status_phase_lags}
use argocd_vee.Status.Phase.{phase_of_cases, IsReady, HasRemote}
use argocd_vee.Status.Notifications.{reconcile_status_notifications_rewrites}

abbrev one_ready : Workload
one_ready = record { replicas = some 1; ready_replicas = 1; conditions = [] }

abbrev half_ready : Workload
half_ready = record {
  replicas = some 2;
  ready_replicas = 1;
  conditions = record { type = "ReplicaFailure"; status = "True" } ∷ [];
}

abbrev admitted : Route
admitted = record {
  ingress = some (
      record {
        host = "argocd.example";
        conditions = record { type = "Admitted"; status = "True" } ∷ [];
      }
      ∷ []);
}

-- Every deployment is ready but the applicationset controller, and one route is admitted. The
-- world is the resource last written.
abbrev small_cluster : StatusClient (Option ArgoCd)
small_cluster = record {
  get_deployment = λ w ns name.
      if name == "argocd-applicationset-controller" then found half_ready else found one_ready;
  get_stateful_set = λ w ns name. found one_ready;
  get_deployment_config = λ w ns name. missing;
  get_ingress = λ w ns name. missing;
  list_routes = λ w ns name. items (admitted ∷ []);
  update_status = λ w cr. (some cr, none);
}

abbrev openshift : ClusterApis
openshift = record {
  route_api_found = true;
  template_api_found = true;
  deployment_config_api_found = true;
}

small_cluster-IsStatusOnly : IsStatusOnly small_cluster
small_cluster-IsStatusOnly = record {
  same_reads = λ w cr. record {
    deployments = λ ns n. refl;
    stateful_sets = λ ns n. refl;
    deployment_configs = λ ns n. refl;
    ingresses = λ ns n. refl;
    routes = λ ns n. refl;
  };
}

small_cluster-accepts : AcceptsStatus small_cluster
small_cluster-accepts w cr = refl

abbrev example_spec : ArgoCdSpec
example_spec = record {
  controller_enabled = none;
  ha_enabled = false;
  notifications_enabled = false;
  redis = record { enabled = none; remote = none };
  repo_enabled = some true;
  server = record { enabled = none; ingress_enabled = false; route_enabled = true };
  sso = none;
}

abbrev empty_status : ArgoCdStatus
empty_status = record {
  application_controller = "";
  application_set_controller = "";
  sso = "";
  notifications_controller = "";
  phase = "";
  redis = "";
  repo = "";
  server = "";
  host = "";
}

abbrev fresh : State (Option ArgoCd)
fresh = record {
  world = none;
  cr = record { name = "argocd"; namespace = "ns"; spec = example_spec; status = empty_status };
  sso_legal = "Unknown";
}

fresh-IsReadable : IsReadable (seen small_cluster openshift fresh)
unfolding seen route_host
fresh-IsReadable = (λ e. cc, (host_is "argocd.example", refl))

-- After one round everything runs, and the phase is still Pending.
first_round : (reconcile_status small_cluster openshift fresh).1.cr.status ≡ record {
  application_controller = "Running";
  application_set_controller = "Failed";
  sso = "Unknown";
  notifications_controller = "";
  phase = "Pending";
  redis = "Running";
  repo = "Running";
  server = "Running";
  host = "argocd.example";
}
unfolding reconcile_status deployment_status stateful_set_status phase_of replica_failure
    name_with_suffix route_host
first_round = refl

deployment_status_cases_example :
    ((deployment_status (found half_ready) ≡ "Unknown") ↔ (found half_ready ≡ missing))
    × ((deployment_status (found half_ready) ≡ "Running") ↔ AllReady (found half_ready))
    × ((deployment_status (found half_ready) ≡ "Failed") ↔ HasFailed (found half_ready))
    × ((deployment_status (found half_ready) ≡ "Pending") ↔ IsWaiting (found half_ready))
deployment_status_cases_example = deployment_status_cases (found half_ready)

redis_ha_status_cases_example :
    ((redis_ha_status (failed (api "timeout")) ≢ none) ↔ HasCount (failed (api "timeout")))
    × ((redis_ha_status (failed (api "timeout")) ≡ some "Running")
        ↔ AllReady (failed (api "timeout")))
redis_ha_status_cases_example = redis_ha_status_cases (failed (api "timeout"))

keycloak_template_status_cases_example :
    ((keycloak_template_status (failed (api "timeout")) ≡ "Unknown")
      ↔ (◌≡◌ {A = Fetch DeploymentConfig} (failed (api "timeout")) missing))
    × ((keycloak_template_status (failed (api "timeout")) ≡ "Running")
        ↔ ConfigReady (failed (api "timeout")))
keycloak_template_status_cases_example = keycloak_template_status_cases (failed (api "timeout"))

reconcile_status-Implements_example :
    Leaves small_cluster fresh
      (round (seen small_cluster openshift fresh) empty_status)
      (reconcile_status small_cluster openshift fresh)
reconcile_status-Implements_example =
    reconcile_status-Implements small_cluster openshift small_cluster-IsStatusOnly
      small_cluster-accepts fresh fresh-IsReadable

abbrev two_rounds : Outcome (Unit {0}) × State (Option ArgoCd)
two_rounds =
    (reconcile_status small_cluster openshift >> reconcile_status small_cluster openshift) fresh

reconcile_status_settles_example :
    (two_rounds.0 ≡ ok tt)
    × ((reconcile_status small_cluster openshift two_rounds.1).0 ≡ ok tt)
    × ((reconcile_status small_cluster openshift two_rounds.1).1.cr ≡ two_rounds.1.cr)
reconcile_status_settles_example =
    reconcile_status_settles small_cluster openshift small_cluster-IsStatusOnly
      small_cluster-accepts fresh fresh-IsReadable

reconcile_status_phase_lags_example :
    ((reconcile_status small_cluster openshift fresh).1.cr.status.phase
      ≡ host_phase (seen small_cluster openshift fresh).host (
          phase_of example_spec (record empty_status {
            application_controller = (seen small_cluster openshift fresh).application_controller;
          })))
    × (two_rounds.1.cr.status.phase
        ≡ host_phase
            (seen small_cluster openshift fresh).host
            (phase_of example_spec two_rounds.1.cr.status))
reconcile_status_phase_lags_example =
    reconcile_status_phase_lags small_cluster openshift small_cluster-IsStatusOnly
      small_cluster-accepts fresh fresh-IsReadable

phase_of_cases_example :
    ((phase_of example_spec empty_status ≡ "Available") ↔ (
      IsReady none ""
      × (IsReady none "" ⊎ ((is_enabled none ≡ true) × HasRemote none))
      × IsReady (some true) ""
      × IsReady none ""))
    × ((phase_of example_spec empty_status ≢ "Available")
        → phase_of example_spec empty_status ≡ "Pending")
phase_of_cases_example = phase_of_cases example_spec empty_status

reconcile_status_notifications_rewrites_example :
    reconcile_status_notifications small_cluster openshift fresh
    ≡ write_status small_cluster openshift empty_status fresh
reconcile_status_notifications_rewrites_example =
    reconcile_status_notifications_rewrites small_cluster openshift fresh refl refl
