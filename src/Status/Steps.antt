-- ===== src/Status/Steps.antt =====
-- Each step of the status round implements its change of the status.
use argocd_vee.Common.{
  ◌≡◌, ◌≢◌, refl, ◌∙◌, ap, subst, String, Bool, true, false, Option, none, some, ◌==◌, string_eq,
  if◌then◌else◌, eq_iff,
}
use argocd_vee.Effect.{Outcome, ok, Step, done}
use argocd_vee.Api.{ArgoCd, ArgoCdStatus, provider_is, provider_dex, provider_keycloak}
use argocd_vee.Kube.{StatusClient, ClusterApis, SameReads, IsStatusOnly, AcceptsStatus}
use argocd_vee.Status.{
  State, write_status, set_status, returned, reconcile_status_application_controller,
  reconcile_status_repo, reconcile_status_phase, reconcile_status_server,
  reconcile_status_application_set_controller, reconcile_status_notifications,
  reconcile_status_redis, store_redis, reconcile_status_sso, store_sso,
}
use argocd_vee.Status.Seen.{
  Always, HasRedis, Seen, seen, Change, change_application_controller, change_sso, change_phase,
  change_redis, change_repo, change_server, sso_word, seen_deployment, seen_keycloak,
  change_notifications, change_application_set,
}

abbrev with_status : ArgoCd → ArgoCdStatus → ArgoCd
with_status cr st = record cr { status = st }

abbrev with_notifications : ArgoCdStatus → String → ArgoCdStatus
with_notifications st word = record st { notifications_controller = word }

module _ {W : Type 0} (k : StatusClient W) where
  -- `t` is `s` with another status, and a world in which the reads are the same.
  pub record After (s : State W) (st : ArgoCdStatus) (t : State W) : Type 0 where
    pub cr : t.cr ≡ record (s.cr) { status = st }
    pub reads : SameReads k s.world t.world
    pub sso_legal : t.sso_legal ≡ s.sso_legal

  -- A run from `s` that succeeds and leaves the status `st`.
  abbrev pub Leaves : State W → ArgoCdStatus → Outcome (Unit {0}) × State W → Type 0
  Leaves s st (o, t) = (o ≡ ok tt) × After s st t

  SameReads-refl : (w : W) → SameReads k w w
  SameReads-refl w = record {
    deployments = λ ns n. refl;
    stateful_sets = λ ns n. refl;
    deployment_configs = λ ns n. refl;
    ingresses = λ ns n. refl;
    routes = λ ns n. refl;
  }

  SameReads-trans : (u v w : W) → SameReads k u v → SameReads k v w → SameReads k u w
  SameReads-trans u v w p q = record {
    deployments = λ ns n. q.deployments ns n ∙ p.deployments ns n;
    stateful_sets = λ ns n. q.stateful_sets ns n ∙ p.stateful_sets ns n;
    deployment_configs = λ ns n. q.deployment_configs ns n ∙ p.deployment_configs ns n;
    ingresses = λ ns n. q.ingresses ns n ∙ p.ingresses ns n;
    routes = λ ns n. q.routes ns n ∙ p.routes ns n;
  }

  pub After-trans :
      (s t u : State W) (st st' : ArgoCdStatus) → After s st t → After t st' u → After s st' u
  After-trans s t u st st' p q = record {
    cr = q.cr ∙ ap (λ c. with_status c st') p.cr;
    reads = SameReads-trans s.world t.world u.world p.reads q.reads;
    sso_legal = q.sso_legal ∙ p.sso_legal;
  }

  pub done-Leaves : (s : State W) (st : ArgoCdStatus) → s.cr.status ≡ st → Leaves s st (ok tt, s)
  done-Leaves s st e = (
    refl,
    record { cr = ap (with_status s.cr) e; reads = SameReads-refl s.world; sso_legal = refl },
  )

  pub set_status-After : (s : State W) (st : ArgoCdStatus) → After s st (set_status st s)
  unfolding set_status
  set_status-After s st = record { cr = refl; reads = SameReads-refl s.world; sso_legal = refl }

-- A step that implements a change, wherever `Ready` holds of what is seen.
module _ {W : Type 0} (k : StatusClient W) (apis : ClusterApis) where
  abbrev pub Implements : (Seen → Type 0) → Step (State W) → Change → Type 0
  Implements Ready m f =
      (s : State W) → Ready (seen k apis s) → Leaves k s (f (seen k apis s) s.cr.status) (m s)

  -- What is seen does not depend on the status.
  pub seen-After :
      (s t : State W) (st : ArgoCdStatus) → After k s st t → seen k apis t ≡ seen k apis s
  unfolding seen
  seen-After s t st h = ap (seen k apis) same_state ∙ same_seen
    where
      moved : State W
      moved = record { world = t.world; cr = with_status s.cr st; sso_legal = s.sso_legal }

      same_state : t ≡ moved
      same_state = λ i. record { world = t.world; cr = h.cr i; sso_legal = h.sso_legal i }

      same_seen : seen k apis moved ≡ seen k apis s
      same_seen = simp (
        h.reads.deployments, h.reads.stateful_sets, h.reads.deployment_configs, h.reads.ingresses,
        h.reads.routes,
      )

module _ {W : Type 0} (k : StatusClient W) (apis : ClusterApis) (only : IsStatusOnly k)
    (accepts : AcceptsStatus k) where
  pub write-Leaves : (s : State W) (st : ArgoCdStatus) → Leaves k s st (write_status k apis st s)
  unfolding write_status set_status returned
  write-Leaves s st = (
    ap returned (accepts s.world (with_status s.cr st)),
    record { cr = refl; reads = only.same_reads s.world (with_status s.cr st); sso_legal = refl },
  )

  pub write_same-Leaves :
      (s : State W) (st : ArgoCdStatus)
      → s.cr.status ≡ st
      → Leaves k s st (write_status k apis s.cr.status s)
  write_same-Leaves s st e =
      subst (λ x. Leaves k s x (write_status k apis s.cr.status s)) e (write-Leaves s s.cr.status)

  store-Leaves :
      (s : State W) (st : ArgoCdStatus) (b : Bool)
      → (b ≡ true → s.cr.status ≡ st)
      → Leaves k s st (if b then done s else write_status k apis st s)
  store-Leaves s st true h = done-Leaves k s st (h refl)
  store-Leaves s st false h = write-Leaves s st

  set-Leaves :
      (s : State W) (put : String → ArgoCdStatus) (old new : String)
      → s.cr.status ≡ put old
      → Leaves k s (put new) (if old == new then done s else write_status k apis (put new) s)
  set-Leaves s put old new h =
      store-Leaves s (put new) (old == new) (λ e. h ∙ ap put ((eq_iff old new).0 e))

  abbrev Keeps : Step (State W) → Change → Type 0
  Keeps = Implements k apis Always

  pub application_controller-Implements :
      Keeps (reconcile_status_application_controller k apis) change_application_controller
  unfolding reconcile_status_application_controller seen
  application_controller-Implements s o =
      set-Leaves s (λ x. record (s.cr.status) { application_controller = x }) _ _ refl

  pub phase-Implements : Keeps (reconcile_status_phase k apis) change_phase
  unfolding reconcile_status_phase seen
  phase-Implements s o = set-Leaves s (λ x. record (s.cr.status) { phase = x }) _ _ refl

  pub repo-Implements : Keeps (reconcile_status_repo k apis) change_repo
  unfolding reconcile_status_repo seen
  repo-Implements s o = set-Leaves s (λ x. record (s.cr.status) { repo = x }) _ _ refl

  pub server-Implements : Keeps (reconcile_status_server k apis) change_server
  unfolding reconcile_status_server seen
  server-Implements s o = set-Leaves s (λ x. record (s.cr.status) { server = x }) _ _ refl

  pub application_set-Implements :
      Keeps (reconcile_status_application_set_controller k apis) change_application_set
  unfolding reconcile_status_application_set_controller seen
  application_set-Implements s o =
      set-Leaves s (λ x. record (s.cr.status) { application_set_controller = x }) _ _ refl

  notifications-Leaves :
      (s : State W) (new shown : String) (b : Bool)
      → ((s.cr.status.notifications_controller == new) ≡ b)
      → Leaves k s
          (record (s.cr.status) { notifications_controller = if b then new else shown })
          (if b
            then done s
            else write_status k apis (record (s.cr.status) { notifications_controller = shown }) s)
  notifications-Leaves s new shown true e =
      done-Leaves k s _ (ap (λ (x : String). with_notifications s.cr.status x) ((eq_iff _ _).0 e))
  notifications-Leaves s new shown false e = write-Leaves s _

  pub notifications-Implements : Keeps (reconcile_status_notifications k apis) change_notifications
  unfolding reconcile_status_notifications seen
  notifications-Implements s o = notifications-Leaves s _ _ _ refl

  redis-Leaves :
      (s : State W) (word : Option String)
      → word ≢ none
      → Leaves k s
          (record (s.cr.status) { redis = sso_word word s.cr.status.redis })
          (store_redis k apis word s)
  unfolding store_redis
  redis-Leaves s none h = absurd (h refl)
  redis-Leaves s (some w) h = set-Leaves s (λ x. record (s.cr.status) { redis = x }) _ _ refl

  pub redis-Implements : Implements k apis HasRedis (reconcile_status_redis k apis) change_redis
  unfolding reconcile_status_redis seen
  redis-Implements s h = redis-Leaves s _ h

  sso-Leaves :
      (s : State W) (legal dex keycloak : Bool) (d k' l : String)
      → Leaves k s
          (record (s.cr.status) {
            sso =
                sso_word
                  (if legal
                    then (if dex then some d else if keycloak then some k' else none)
                    else some l)
                  s.cr.status.sso;
          })
          (if legal
            then (if dex
                then store_sso k apis d s
                else if keycloak
                then store_sso k apis k' s
                else done s)
            else store_sso k apis l s)
  unfolding store_sso
  sso-Leaves s true true b d k' l = set-Leaves s (λ x. record (s.cr.status) { sso = x }) _ _ refl
  sso-Leaves s true false true d k' l =
      set-Leaves s (λ x. record (s.cr.status) { sso = x }) _ _ refl
  sso-Leaves s true false false d k' l = done-Leaves k s _ refl
  sso-Leaves s false a b d k' l = set-Leaves s (λ x. record (s.cr.status) { sso = x }) _ _ refl

  pub sso-Implements : Keeps (reconcile_status_sso k apis) change_sso
  unfolding reconcile_status_sso seen
  sso-Implements s o =
      sso-Leaves s _ (provider_is provider_dex s.cr.spec.sso)
        (provider_is provider_keycloak s.cr.spec.sso) (seen_deployment k apis s "dex-server")
        (seen_keycloak k apis s) s.sso_legal
