-- ===== src/Status/Hosts.antt =====
-- The step of the status round that finds the host implements its change of the status.
use argocd_vee.Common.{
  ◌≡◌, refl, ap, subst, String, Bool, true, false, ◌&&◌, ◌||◌, Option, none, some, List, [], ◌∷◌,
  string_eq, if◌then◌else◌,
}
use argocd_vee.Effect.{Outcome, ok, err, panic}
use argocd_vee.Api.{ArgoCdStatus}
use argocd_vee.Kube.{
  Fetch, found, missing, failed, StatusClient, ClusterApis, Listing, items, list_failed, Route,
  Ingress, LoadBalancerIngress, name_with_suffix, IsStatusOnly, AcceptsStatus,
}
use argocd_vee.Status.{
  State, write_status, set_status, HostResult, host_is, host_pending, reconcile_status_host,
  host_of_routes, host_of_ingress, store_route_host, route_host, with_load_balancer,
}
use argocd_vee.Status.Seen.{
  SeesHost, HasHost, seen, change_host, host_or_panic, seen_routes, seen_ingress,
  seen_load_balancer, seen_host, host_change,
}
use argocd_vee.Status.Steps.{
  After, Leaves, After-trans, Implements, write-Leaves, write_same-Leaves, done-Leaves,
  set_status-After,
}

abbrev with_host_name : ArgoCdStatus → String → ArgoCdStatus
with_host_name st h = record st { host = h }

abbrev with_pending : ArgoCdStatus → String → ArgoCdStatus
with_pending st h = record st { host = h; phase = "Pending" }

module _ {W : Type 0} (k : StatusClient W) (apis : ClusterApis) (only : IsStatusOnly k)
    (accepts : AcceptsStatus k) where
  route_host-Leaves :
      (s : State W) (o : Option HostResult) {r : HostResult}
      → host_or_panic o ≡ ok r
      → Leaves k s (host_change (host_or_panic o) s.cr.status) (store_route_host k apis o s)
  unfolding store_route_host host_or_panic
  route_host-Leaves s none e = cc
  route_host-Leaves s (some (host_is h)) e = write-Leaves k apis only accepts s _
  route_host-Leaves s (some (host_pending h)) e = write-Leaves k apis only accepts s _

  routes-Leaves :
      (s : State W) (l : Listing Route) {r : HostResult}
      → s.cr.status.host ≡ ""
      → seen_routes l ≡ ok r
      → Leaves k s (host_change (seen_routes l) s.cr.status) (host_of_routes k apis l s)
  unfolding host_of_routes seen_routes
  routes-Leaves s (list_failed x) empty e = cc
  routes-Leaves s (items []) empty e = done-Leaves k s _ (ap (with_host_name s.cr.status) empty)
  routes-Leaves s (items (route ∷ rest)) empty e = route_host-Leaves s (route_host route.ingress) e

  balancer-Leaves :
      (s : State W) (l : List LoadBalancerIngress)
      → s.cr.status.host ≡ ""
      → Leaves k s
          (host_change (ok (seen_load_balancer l)) s.cr.status)
          (write_status k apis (with_load_balancer l s.cr.status) s)
  unfolding seen_load_balancer with_load_balancer
  balancer-Leaves s [] empty =
      write_same-Leaves k apis only accepts s _ (ap (with_host_name s.cr.status) empty)
  balancer-Leaves s (i ∷ rest) empty = write-Leaves k apis only accepts s _

  ingress-Leaves :
      (s : State W) (f : Fetch Ingress)
      → s.cr.status.host ≡ ""
      → Leaves k s (host_change (seen_ingress f) s.cr.status) (host_of_ingress k apis f s)
  unfolding host_of_ingress seen_ingress
  ingress-Leaves s missing empty = (
    refl,
    subst (λ x. After k s x (set_status (with_pending s.cr.status s.cr.status.host) s))
        (ap (with_pending s.cr.status) empty) (set_status-After k s _),
  )
  ingress-Leaves s (failed e) empty =
      write_same-Leaves k apis only accepts s _ (ap (with_host_name s.cr.status) empty)
  ingress-Leaves s (found i) empty = balancer-Leaves s i.load_balancer empty

  host-Leaves :
      (s : State W) (b c : Bool) (l : Listing Route) (f : Fetch Ingress)
      → s.cr.status.host ≡ ""
      → SeesHost (if b then seen_routes l else if c then seen_ingress f else ok (host_is ""))
      → Leaves k s
          (host_change
            (if b then seen_routes l else if c then seen_ingress f else ok (host_is ""))
            s.cr.status)
          (if b
            then host_of_routes k apis l s
            else if c
            then host_of_ingress k apis f s
            else write_status k apis s.cr.status s)
  host-Leaves s true c l f empty (r, e) = routes-Leaves s l empty e
  host-Leaves s false true l f empty h = ingress-Leaves s f empty
  host-Leaves s false false l f empty h =
      write_same-Leaves k apis only accepts s _ (ap (with_host_name s.cr.status) empty)

  host_change_reset :
      (o : Outcome HostResult) (st : ArgoCdStatus)
      → SeesHost o
      → host_change o (record st { host = "" }) ≡ host_change o st
  host_change_reset (ok (host_is h)) st r = refl
  host_change_reset (ok (host_pending h)) st r = refl
  host_change_reset (err e) st (r, h) = cc
  host_change_reset panic st (r, h) = cc

  pub host-Implements : Implements k apis HasHost (reconcile_status_host k apis) change_host
  unfolding reconcile_status_host seen
  host-Implements s h =
      let server = s.cr.spec.server in
      let suffixed = name_with_suffix "server" s.cr.name in
      let reset : ArgoCdStatus = record (s.cr.status) { host = "" } in
      let t = set_status reset s in
      let (done', after) =
        host-Leaves t ((server.route_enabled || server.ingress_enabled) && apis.route_api_found)
          server.ingress_enabled (k.list_routes s.world s.cr.namespace suffixed)
          (k.get_ingress s.world s.cr.namespace suffixed) refl h in
      (
        done',
        subst (λ x. After k s x (reconcile_status_host k apis s).1)
            (host_change_reset (seen_host k apis s) s.cr.status h)
            (After-trans k s t _ reset _ (set_status-After k s reset) after),
      )
