-- ===== src/Status/Seen.antt =====
-- What one round of the status code sees, and what it makes of a status: the specification that
-- has no client, no order of writes and no error.
use argocd_vee.Common.{
  ◌≡◌, ◌≢◌, String, not, ◌&&◌, ◌||◌, Option, none, some, List, [], ◌∷◌, ◌==◌, string_eq,
  if◌then◌else◌, join_with,
}
use argocd_vee.Effect.{Outcome, ok, err, panic}
use argocd_vee.Api.{ArgoCdSpec, ArgoCdStatus, provider_is, provider_dex, provider_keycloak}
use argocd_vee.Kube.{
  Fetch, found, missing, failed, StatusClient, ClusterApis, Listing, items, list_failed, Route,
  Ingress, LoadBalancerIngress, name_with_suffix,
}
use argocd_vee.Status.{
  State, sso_legal_success, phase_of, HostResult, host_is, host_pending, route_host,
  load_balancer_hosts,
}
use argocd_vee.Status.Workloads.{
  deployment_status, stateful_set_status, redis_ha_status, keycloak_template_status,
}

-- The words seen for the components. `sso` is `none` where the code leaves the status alone, and
-- `redis` where it panics.
pub record Seen : Type 0 where
  pub spec : ArgoCdSpec
  pub application_controller : String
  pub sso : Option String
  pub redis : Option String
  pub repo : String
  pub server : String
  pub host : Outcome HostResult
  pub notifications : String
  pub application_set : String

-- Conditions on what is seen: none; redis has a word, so its code does not panic; the routes can be
-- listed and read.
abbrev pub Always : Seen → Type 0
Always o = Unit

abbrev pub HasRedis : Seen → Type 0
HasRedis o = o.redis ≢ none

abbrev pub SeesHost : Outcome HostResult → Type 0
SeesHost o = (r : HostResult) × (o ≡ ok r)

abbrev pub HasHost : Seen → Type 0
HasHost o = SeesHost o.host

-- A round can end without an error or a panic.
abbrev pub IsReadable : Seen → Type 0
IsReadable o = HasRedis o × HasHost o

unfoldable pub host_or_panic : Option HostResult → Outcome HostResult
host_or_panic none = panic
host_or_panic (some r) = ok r

unfoldable pub seen_routes : Listing Route → Outcome HostResult
unfolding host_or_panic
seen_routes (list_failed e) = err e
seen_routes (items []) = ok (host_is "")
seen_routes (items (route ∷ rest)) = host_or_panic (route_host route.ingress)

unfoldable pub seen_load_balancer : List LoadBalancerIngress → HostResult
seen_load_balancer [] = host_is ""
seen_load_balancer (i ∷ rest) = host_is (join_with ", " (load_balancer_hosts (i ∷ rest)))

unfoldable pub seen_ingress : Fetch Ingress → Outcome HostResult
unfolding seen_load_balancer
seen_ingress missing = ok (host_pending "")
seen_ingress (failed e) = ok (host_is "")
seen_ingress (found i) = ok (seen_load_balancer i.load_balancer)

module _ {W : Type 0} (k : StatusClient W) (apis : ClusterApis) where
  abbrev pub seen_deployment : State W → String → String
  seen_deployment s suffix =
      deployment_status
        (k.get_deployment s.world s.cr.namespace (name_with_suffix suffix s.cr.name))

  abbrev pub seen_keycloak : State W → String
  seen_keycloak s =
      if apis.template_api_found && apis.deployment_config_api_found
      then keycloak_template_status (k.get_deployment_config s.world s.cr.namespace "keycloak")
      else deployment_status (k.get_deployment s.world s.cr.namespace "keycloak")

  unfoldable pub seen_sso : State W → Option String
  seen_sso s =
      if s.sso_legal == sso_legal_success
      then (if provider_is provider_dex s.cr.spec.sso
          then some (seen_deployment s "dex-server")
          else if provider_is provider_keycloak s.cr.spec.sso
          then some (seen_keycloak s)
          else none)
      else some s.sso_legal

  unfoldable pub seen_host : State W → Outcome HostResult
  unfolding seen_routes seen_ingress
  seen_host s =
      let server = s.cr.spec.server in
      let suffixed = name_with_suffix "server" s.cr.name in
      if (server.route_enabled || server.ingress_enabled) && apis.route_api_found
      then seen_routes (k.list_routes s.world s.cr.namespace suffixed)
      else if server.ingress_enabled
      then seen_ingress (k.get_ingress s.world s.cr.namespace suffixed)
      else ok (host_is "")

  unfoldable pub seen : State W → Seen
  unfolding seen_sso seen_host
  seen s = record {
    spec = s.cr.spec;
    application_controller = stateful_set_status (
        k.get_stateful_set s.world s.cr.namespace
          (name_with_suffix "application-controller" s.cr.name));
    sso = seen_sso s;
    redis =
        if not s.cr.spec.ha_enabled
        then some (seen_deployment s "redis")
        else redis_ha_status (
            k.get_stateful_set s.world s.cr.namespace
              (name_with_suffix "redis-ha-server" s.cr.name));
    repo = seen_deployment s "repo-server";
    server = seen_deployment s "server";
    host = seen_host s;
    notifications = seen_deployment s "notifications-controller";
    application_set = seen_deployment s "applicationset-controller";
  }

-- What each step makes of a status.
abbrev pub Change : Type 0
Change = Seen → ArgoCdStatus → ArgoCdStatus

abbrev pub change_application_controller : Change
change_application_controller o st = record st { application_controller = o.application_controller }

abbrev pub sso_word : Option String → String → String
sso_word none old = old
sso_word (some word) old = word

abbrev pub change_sso : Change
change_sso o st = record st { sso = sso_word o.sso st.sso }

abbrev pub change_phase : Change
change_phase o st = record st { phase = phase_of o.spec st }

abbrev pub change_redis : Change
change_redis o st = record st { redis = sso_word o.redis st.redis }

abbrev pub change_repo : Change
change_repo o st = record st { repo = o.repo }

abbrev pub change_server : Change
change_server o st = record st { server = o.server }

abbrev pub host_word : Outcome HostResult → String → String
host_word (ok (host_is h)) old = h
host_word (ok (host_pending h)) old = h
host_word (err e) old = old
host_word panic old = old

-- A host that is not available holds the phase down.
abbrev pub host_phase : Outcome HostResult → String → String
host_phase (ok (host_is h)) phase = phase
host_phase (ok (host_pending h)) phase = "Pending"
host_phase (err e) phase = phase
host_phase panic phase = phase

abbrev pub host_change : Outcome HostResult → ArgoCdStatus → ArgoCdStatus
host_change r st = record st { host = host_word r st.host; phase = host_phase r st.phase }

abbrev pub change_host : Change
change_host o st = host_change o.host st

-- A disabled notifications controller shows nothing, unless the status is what is seen already.
abbrev pub change_notifications : Change
change_notifications o st = record st {
  notifications_controller =
      if st.notifications_controller == o.notifications
      then o.notifications
      else if not o.spec.notifications_enabled
      then ""
      else o.notifications;
}

abbrev pub change_application_set : Change
change_application_set o st = record st { application_set_controller = o.application_set }

-- The whole round. The phase is made from the words of redis, repo and server that the status
-- still holds from the round before.
abbrev pub round : Change
round o st = change_application_set o (
    change_notifications o (
      change_host o (
        change_server o (
          change_repo o (
            change_redis o (change_phase o (change_sso o (change_application_controller o st))))))))
