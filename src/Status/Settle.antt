-- ===== src/Status/Settle.antt =====
-- How the status settles over rounds of a cluster that does not change, and what its phase says.
use argocd_vee.Common.{
  ◌≡◌, refl, sym, ◌∙◌, ap, String, Bool, not, Option, none, some, ◌==◌, string_eq, if◌then◌else◌,
  arith, eq_iff,
}
use argocd_vee.Effect.{Outcome, ok, err, panic, ◌>>◌}
use argocd_vee.Api.{ArgoCd, ArgoCdStatus}
use argocd_vee.Kube.{StatusClient, ClusterApis, IsStatusOnly, AcceptsStatus}
use argocd_vee.Status.{State, reconcile_status, phase_of, HostResult, host_is, host_pending}
use argocd_vee.Status.Seen.{Seen, seen, round, sso_word, host_word, host_phase, IsReadable}
use argocd_vee.Status.Steps.{After, Leaves}
use argocd_vee.Status.Round.{reconcile_status-Implements, continue-Leaves, moved-Leaves}

abbrev shown : String → Bool → String → String
shown word enabled old = if old == word then word else if not enabled then "" else word

shown_settles :
    (word old : String) (enabled : Bool)
    → shown word enabled (shown word enabled old) ≡ shown word enabled old
shown_settles word old enabled = ground (arith, eq_iff old word, eq_iff word word, eq_iff "" word)

abbrev with_status : ArgoCd → ArgoCdStatus → ArgoCd
with_status cr st = record cr { status = st }

abbrev phase_in : ArgoCd → String
phase_in cr = cr.status.phase

with_same_status : (c d : ArgoCd) (st : ArgoCdStatus) → c ≡ with_status d st → with_status c st ≡ c
with_same_status c d st e = ap (λ x. with_status x st) e ∙ sym e

abbrev with_notifications : ArgoCdStatus → String → ArgoCdStatus
with_notifications st word = record st { notifications_controller = word }

word_settles :
    (word : Option String) (old : String) → sso_word word (sso_word word old) ≡ sso_word word old
word_settles none old = refl
word_settles (some w) old = refl

host_settles :
    (r : Outcome HostResult) (old : String) → host_word r (host_word r old) ≡ host_word r old
host_settles (ok (host_is h)) old = refl
host_settles (ok (host_pending h)) old = refl
host_settles (err e) old = refl
host_settles panic old = refl

module _ (o : Seen) (st : ArgoCdStatus) where
  pub phase-round :
      (round o st).phase
      ≡ host_phase o.host
          (phase_of o.spec (record st { application_controller = o.application_controller }))
  unfolding phase_of
  phase-round = refl

  -- What a round leaves when the status has the words of what is seen, but for the words whose
  -- place is taken by an argument: redis before and after, the sso, the host, the notifications.
  left : String → String → String → String → String → ArgoCdStatus
  left before redis sso host notifications = record st {
    application_controller = o.application_controller;
    application_set_controller = o.application_set;
    sso = sso;
    notifications_controller = notifications;
    phase = host_phase o.host (
        phase_of o.spec (record st {
          application_controller = o.application_controller;
          redis = before;
          repo = o.repo;
          server = o.server;
        }));
    redis = redis;
    repo = o.repo;
    server = o.server;
    host = host;
  }

  round_settles : round o (round o (round o st)) ≡ round o (round o st)
  unfolding phase_of left
  round_settles = λ i.
      left (word_settles o.redis st.redis i) (word_settles o.redis (sso_word o.redis st.redis) i)
        (word_settles o.sso (sso_word o.sso st.sso) i)
        (host_settles o.host (host_word o.host st.host) i)
        (shown_settles o.notifications
          (shown o.notifications o.spec.notifications_enabled st.notifications_controller)
          o.spec.notifications_enabled i)

  phase_with : String → String
  phase_with redis = host_phase o.host (
      phase_of o.spec (record st {
        application_controller = o.application_controller;
        redis = redis;
        repo = o.repo;
        server = o.server;
      }))

  phase-round_twice :
      (round o (round o st)).phase ≡ host_phase o.host (phase_of o.spec (round o (round o st)))
  unfolding phase_of phase_with
  phase-round_twice = ap phase_with (sym (word_settles o.redis st.redis))

module _ {W : Type 0} (k : StatusClient W) (apis : ClusterApis) (only : IsStatusOnly k)
    (accepts : AcceptsStatus k) where
  abbrev run : State W → Outcome (Unit {0}) × State W
  run = reconcile_status k apis

  abbrev twice : State W → Outcome (Unit {0}) × State W
  twice = reconcile_status k apis >> reconcile_status k apis

  next_round :
      (s t : State W) (st : ArgoCdStatus)
      → IsReadable (seen k apis s)
      → After k s st t
      → Leaves k t (round (seen k apis s) st) (run t)
  next_round s t st =
      moved-Leaves k apis s t st run round (reconcile_status-Implements k apis only accepts)

  twice-Leaves :
      (s : State W)
      → IsReadable (seen k apis s)
      → Leaves k s (round (seen k apis s) (round (seen k apis s) s.cr.status)) (twice s)
  twice-Leaves s ready =
      continue-Leaves k apis s _ _ run (run s)
        (reconcile_status-Implements k apis only accepts s ready) (λ t a. next_round s t _ ready a)

  -- If status writes are accepted and change no other object, and redis and the routes can be
  -- read, then two rounds succeed, and a third one succeeds and leaves the resource as they did.
  pub reconcile_status_settles :
      (s : State W)
      → IsReadable (seen k apis s)
      → ((twice s).0 ≡ ok tt)
        × ((run (twice s).1).0 ≡ ok tt)
        × ((run (twice s).1).1.cr ≡ (twice s).1.cr)
  reconcile_status_settles s ready =
      let (done', a) = twice-Leaves s ready in
      let (again', b) = next_round s (twice s).1 _ ready a in
      let o = seen k apis s in
      (
        done',
        again',
        b.cr
            ∙ ap (with_status (twice s).1.cr) (round_settles o s.cr.status)
            ∙ with_same_status (twice s).1.cr s.cr _ a.cr,
      )

  -- After one round the phase is that of the words that the status held before for redis, repo and
  -- server, and of the word seen now for the application controller, unless the host is not
  -- available, when it is Pending. After two rounds it is that of the words of the status itself.
  pub reconcile_status_phase_lags :
      (s : State W)
      → IsReadable (seen k apis s)
      → ((run s).1.cr.status.phase
          ≡ host_phase (seen k apis s).host (
              phase_of s.cr.spec (record (s.cr.status) {
                application_controller = (seen k apis s).application_controller;
              })))
        × ((twice s).1.cr.status.phase
            ≡ host_phase (seen k apis s).host (phase_of s.cr.spec (twice s).1.cr.status))
  unfolding seen
  reconcile_status_phase_lags s ready =
      let o = seen k apis s in
      let st = s.cr.status in
      let (done', a) = reconcile_status-Implements k apis only accepts s ready in
      let (done'', b) = twice-Leaves s ready in
      (
        ap phase_in a.cr ∙ phase-round o st,
        ap phase_in b.cr
            ∙ phase-round_twice o st
            ∙ ap (λ (c : ArgoCd). host_phase o.host (phase_of s.cr.spec c.status)) (sym b.cr),
      )
