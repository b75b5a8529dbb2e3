-- ===== src/Status.antt =====
-- controllers/argocd/status.go: the operator looks at the workloads of an instance and keeps the
-- status of its custom resource up to date. Each function is a step on the cluster, the resource
-- `cr` that the functions share by pointer, and the global `ssoConfigLegalStatus`.
pub mod Workloads
pub mod Seen
pub mod Steps
pub mod Hosts
pub mod Round
pub mod Settle
pub mod Phase
pub mod Notifications
mod Tests
use argocd_vee.Common.{
  ℕ, ◌≡◌, refl, String, ◌<>◌, Bool, true, false, not, ◌&&◌, ◌||◌, Option, none, some,
}
use argocd_vee.Common.{List, [], ◌∷◌, ◌++◌, ◌==◌, string_eq, if◌then◌else◌, join_with, to_lower}
use argocd_vee.Effect.{Err, Outcome, ok, err, panic, Step, done, fail, ignore, ◌>>=◌, ◌>>◌}
use argocd_vee.Api.{
  ArgoCd, ArgoCdStatus, ArgoCdSpec, is_enabled, provider_is, provider_dex, provider_keycloak,
}
use argocd_vee.Kube.{
  Fetch, found, missing, failed, is_object_found, object_after, name_with_suffix, StatusClient,
  ClusterApis, Route, RouteIngress, Ingress, LoadBalancerIngress, Listing, items, list_failed,
  Condition,
}
use argocd_vee.Status.Workloads.{
  deployment_status, stateful_set_status, redis_ha_status, keycloak_template_status,
}

pub record State (W : Type 0) : Type 0 where
  pub world : W
  pub cr : ArgoCd
  pub sso_legal : String

abbrev pub sso_legal_unknown : String
sso_legal_unknown = "Unknown"

abbrev pub sso_legal_success : String
sso_legal_success = "Success"

abbrev pub sso_legal_failed : String
sso_legal_failed = "Failed"

unfoldable pub returned : Option Err → Outcome (Unit {0})
returned none = ok tt
returned (some e) = err e

-- `cr.Spec.Redis.Remote != nil && *cr.Spec.Redis.Remote != ""`
pub has_remote : Option String → Bool
has_remote none = false
has_remote (some r) = not (r == "")

abbrev pub ready : Option Bool → String → Bool
ready enabled status = (not (is_enabled enabled) && status == "Unknown") || status == "Running"

-- The phase that a status stands for.
unfoldable pub phase_of : ArgoCdSpec → ArgoCdStatus → String
unfolding has_remote
phase_of spec st =
    if ready spec.controller_enabled st.application_controller
      && ((ready spec.redis.enabled st.redis
            || (is_enabled spec.redis.enabled && has_remote spec.redis.remote))
          && (ready spec.repo_enabled st.repo && ready spec.server.enabled st.server))
    then "Available"
    else "Pending"

-- The hosts of a load balancer: the name or the address of each entry that has one.
pub load_balancer_hosts : List LoadBalancerIngress → List String
load_balancer_hosts [] = []
load_balancer_hosts (i ∷ rest) =
    let more = load_balancer_hosts rest in
    if not (i.hostname == "")
    then i.hostname ∷ more
    else if not (i.ip == "")
    then i.ip ∷ more
    else more

-- What a host is found to be: the host, and whether the phase goes to Pending.
pub data HostResult : Type 0 where
  host_is : String → HostResult
  host_pending : String → HostResult

-- The first condition of the first ingress of a route.
pub admitted_host : RouteIngress → List Condition → HostResult
admitted_host i [] = if not (i.host == "") then host_is i.host else host_pending "Unavailable"
admitted_host i (c ∷ rest) =
    if c.type == "Admitted"
    then (if c.status == "True" then host_is i.host else host_pending "")
    else if not (i.host == "")
    then host_is i.host
    else host_pending "Unavailable"

-- `none` is the panic of `route.Status.Ingress[0]` at a slice that is empty and not nil.
pub route_host : Option (List RouteIngress) → Option HostResult
unfolding admitted_host
route_host none = some (host_pending "")
route_host (some []) = none
route_host (some (i ∷ rest)) = some (admitted_host i i.conditions)

pub with_host : HostResult → ArgoCdStatus → ArgoCdStatus
with_host (host_is h) st = record st { host = h }
with_host (host_pending h) st = record st { host = h; phase = "Pending" }

pub with_load_balancer : List LoadBalancerIngress → ArgoCdStatus → ArgoCdStatus
with_load_balancer [] st = st
with_load_balancer (i ∷ rest) st = record st {
  host = join_with ", " (load_balancer_hosts (i ∷ rest));
}

module _ {W : Type 0} where
  -- A change of `cr.Status` that is not written to the cluster.
  unfoldable pub set_status : ArgoCdStatus → State W → State W
  set_status st s = record s { cr = record (s.cr) { status = st } }

module _ {W : Type 0} (k : StatusClient W) (apis : ClusterApis) where
  -- `return r.Client.Status().Update(context.TODO(), cr)` after the change of `cr.Status`.
  unfoldable pub write_status : ArgoCdStatus → Step (State W)
  unfolding set_status returned
  write_status st s =
      let t = set_status st s in
      let (world, e) = k.update_status t.world t.cr in (returned e, record t { world = world })

  abbrev deployment : String → State W → String
  deployment suffix s =
      deployment_status
        (k.get_deployment s.world s.cr.namespace (name_with_suffix suffix s.cr.name))

  pub reconcile_status_application_controller : Step (State W)
  reconcile_status_application_controller s =
      let name = name_with_suffix "application-controller" s.cr.name in
      let status = stateful_set_status (k.get_stateful_set s.world s.cr.namespace name) in
      if s.cr.status.application_controller == status
      then done s
      else write_status (record (s.cr.status) { application_controller = status }) s

  unfoldable pub store_sso : String → Step (State W)
  store_sso status s =
      if s.cr.status.sso == status
      then done s
      else write_status (record (s.cr.status) { sso = status }) s

  pub reconcile_status_dex : Step (State W)
  unfolding store_sso
  reconcile_status_dex s = store_sso (deployment "dex-server" s) s

  -- `CanUseKeycloakWithTemplate`
  pub can_use_keycloak_with_template : Bool
  can_use_keycloak_with_template = apis.template_api_found && apis.deployment_config_api_found

  pub reconcile_status_keycloak : Step (State W)
  unfolding store_sso can_use_keycloak_with_template
  reconcile_status_keycloak s =
      store_sso
        (if can_use_keycloak_with_template
          then keycloak_template_status (k.get_deployment_config s.world s.cr.namespace "keycloak")
          else deployment_status (k.get_deployment s.world s.cr.namespace "keycloak"))
        s

  pub reconcile_status_application_set_controller : Step (State W)
  reconcile_status_application_set_controller s =
      let status = deployment "applicationset-controller" s in
      if s.cr.status.application_set_controller == status
      then done s
      else write_status (record (s.cr.status) { application_set_controller = status }) s

  unfoldable pub reconcile_status_sso : Step (State W)
  unfolding reconcile_status_dex reconcile_status_keycloak
  reconcile_status_sso s =
      if s.sso_legal == sso_legal_success
      then (if provider_is provider_dex s.cr.spec.sso
          then reconcile_status_dex s
          else if provider_is provider_keycloak s.cr.spec.sso
          then reconcile_status_keycloak s
          else done s)
      else store_sso s.sso_legal s

  pub reconcile_status_phase : Step (State W)
  reconcile_status_phase s =
      let phase = phase_of s.cr.spec s.cr.status in
      if s.cr.status.phase == phase
      then done s
      else write_status (record (s.cr.status) { phase = phase }) s

  pub store_redis : Option String → Step (State W)
  store_redis none s = (panic, s)
  store_redis (some status) s =
      if s.cr.status.redis == status
      then done s
      else write_status (record (s.cr.status) { redis = status }) s

  pub reconcile_status_redis : Step (State W)
  unfolding store_redis
  reconcile_status_redis s =
      let name = name_with_suffix "redis-ha-server" s.cr.name in
      store_redis
        (if not s.cr.spec.ha_enabled
          then some (deployment "redis" s)
          else redis_ha_status (k.get_stateful_set s.world s.cr.namespace name))
        s

  pub reconcile_status_repo : Step (State W)
  reconcile_status_repo s =
      let status = deployment "repo-server" s in
      if s.cr.status.repo == status
      then done s
      else write_status (record (s.cr.status) { repo = status }) s

  pub reconcile_status_server : Step (State W)
  reconcile_status_server s =
      let status = deployment "server" s in
      if s.cr.status.server == status
      then done s
      else write_status (record (s.cr.status) { server = status }) s

  pub reconcile_status_notifications : Step (State W)
  reconcile_status_notifications s =
      let status = deployment "notifications-controller" s in
      if s.cr.status.notifications_controller == status
      then done s
      else (let shown = if not s.cr.spec.notifications_enabled then "" else status in
          write_status (record (s.cr.status) { notifications_controller = shown }) s)

  -- The two ends of the route branch: a panic, or the write of the host that was found.
  pub store_route_host : Option HostResult → Step (State W)
  unfolding with_host
  store_route_host none s = (panic, s)
  store_route_host (some r) s = write_status (with_host r s.cr.status) s

  pub host_of_routes : Listing Route → Step (State W)
  unfolding store_route_host route_host
  host_of_routes (list_failed e) s = fail e s
  host_of_routes (items []) s = done s
  host_of_routes (items (route ∷ rest)) s = store_route_host (route_host route.ingress) s

  pub host_of_ingress : Fetch Ingress → Step (State W)
  unfolding set_status with_load_balancer load_balancer_hosts
  host_of_ingress missing s = done (set_status (record (s.cr.status) { phase = "Pending" }) s)
  host_of_ingress (failed e) s = write_status s.cr.status s
  host_of_ingress (found i) s = write_status (with_load_balancer i.load_balancer s.cr.status) s

  -- `cr.Status.Host = ""`, and then one of three branches.
  pub reconcile_status_host : Step (State W)
  unfolding set_status host_of_routes host_of_ingress
  reconcile_status_host before =
      let s = set_status (record (before.cr.status) { host = "" }) before in
      let server = s.cr.spec.server in
      let suffixed = name_with_suffix "server" s.cr.name in
      if (server.route_enabled || server.ingress_enabled) && apis.route_api_found
      then host_of_routes (k.list_routes s.world s.cr.namespace suffixed) s
      else if server.ingress_enabled
      then host_of_ingress (k.get_ingress s.world s.cr.namespace suffixed) s
      else write_status s.cr.status s

  -- One round: the first error ends it, but for that of the SSO step, which is only logged.
  unfoldable pub reconcile_status : Step (State W)
  unfolding write_status reconcile_status_application_controller reconcile_status_sso
      reconcile_status_phase reconcile_status_redis reconcile_status_repo reconcile_status_server
      reconcile_status_host reconcile_status_notifications
      reconcile_status_application_set_controller
  reconcile_status = do
    reconcile_status_application_controller
    ignore reconcile_status_sso
    reconcile_status_phase
    reconcile_status_redis
    reconcile_status_repo
    reconcile_status_server
    reconcile_status_host
    reconcile_status_notifications
    reconcile_status_application_set_controller
