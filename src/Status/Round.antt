-- ===== src/Status/Round.antt =====
-- A whole round of the status code, and how the status settles over rounds.
use argocd_vee.Common.{sym, ap, subst, string_eq, if◌then◌else◌}
use argocd_vee.Effect.{Outcome, ok, err, panic, Step, ignore, continue, drop_error, ◌>>◌}
use argocd_vee.Api.{ArgoCd, ArgoCdStatus}
use argocd_vee.Kube.{StatusClient, ClusterApis, IsStatusOnly, AcceptsStatus}
use argocd_vee.Status.{
  State, reconcile_status, reconcile_status_application_controller, reconcile_status_sso,
  reconcile_status_phase, reconcile_status_redis, reconcile_status_repo, reconcile_status_server,
  reconcile_status_host, reconcile_status_notifications,
  reconcile_status_application_set_controller,
}
use argocd_vee.Status.Seen.{
  change_application_controller, change_sso, change_phase, change_redis, change_repo, change_server,
  change_host, change_notifications, change_application_set, seen, Change, round, Always,
  IsReadable,
}
use argocd_vee.Status.Hosts.{host-Implements}
use argocd_vee.Status.Steps.{
  After, Leaves, Implements, After-trans, seen-After, application_controller-Implements,
  sso-Implements, phase-Implements, redis-Implements, repo-Implements, server-Implements,
  notifications-Implements, application_set-Implements,
}

module _ {W : Type 0} (k : StatusClient W) (apis : ClusterApis) where
  abbrev pub Becomes : Step (State W) → Change → Type 0
  Becomes = Implements k apis IsReadable

  pub moved-Leaves :
      (s t : State W) (st : ArgoCdStatus) (n : Step (State W)) (g : Change)
      → Becomes n g
      → IsReadable (seen k apis s)
      → After k s st t
      → Leaves k t (g (seen k apis s) st) (n t)
  moved-Leaves s t st n g hn ready after =
      let same = seen-After k apis s t st after in
      subst (λ x. Leaves k t (g (seen k apis s) x) (n t)) (ap (λ (c : ArgoCd). c.status) after.cr)
        (subst (λ o. Leaves k t (g o t.cr.status) (n t)) same
          (hn t (subst IsReadable (sym same) ready)))

  pub continue-Leaves :
      (s : State W) (st st' : ArgoCdStatus) (n : Step (State W)) (r : Outcome (Unit {0}) × State W)
      → Leaves k s st r
      → ((t : State W) → After k s st t → Leaves k t st' (n t))
      → Leaves k s st' (continue (λ _. n) r)
  continue-Leaves s st st' n (ok u, t) (e, a) h =
      let (e', a') = h t a in (e', After-trans k s t _ st st' a a')
  continue-Leaves s st st' n (err x, t) (e, a) h = cc
  continue-Leaves s st st' n (panic, t) (e, a) h = cc

  >>-Becomes :
      (m n : Step (State W)) (f g : Change)
      → Becomes m f
      → Becomes n g
      → Becomes (m >> n) (λ o st. g o (f o st))
  >>-Becomes m n f g hm hn s ready =
      continue-Leaves s (f (seen k apis s) s.cr.status) _ n (m s) (hm s ready)
        (λ t a. moved-Leaves s t _ n g hn ready a)

  -- A step with the change that it makes.
  record Sound (m : Step (State W)) (f : Change) : Type 0 where
    becomes : Becomes m f

  sound : (m : Step (State W)) (f : Change) → Becomes m f → Sound m f
  sound m f h = record { becomes = h }

  always : (m : Step (State W)) (f : Change) → Implements k apis Always m f → Sound m f
  always m f h = record { becomes = λ s ready. h s tt }

  drop_error-Leaves :
      (s : State W) (st : ArgoCdStatus) (r : Outcome (Unit {0}) × State W)
      → Leaves k s st r
      → Leaves k s st (drop_error r)
  drop_error-Leaves s st (ok u, t) h = h
  drop_error-Leaves s st (err x, t) (e, a) = cc
  drop_error-Leaves s st (panic, t) (e, a) = cc

infixr 5 ◌then◌
◌then◌ :
    {W : Type 0} {k : StatusClient W} {apis : ClusterApis} {m n : Step (State W)} {f g : Change}
    → Sound k apis m f
    → Sound k apis n g
    → Sound k apis (m >> n) (λ o st. g o (f o st))
◌then◌ {W} {k} {apis} {m} {n} {f} {g} p q = record {
  becomes = >>-Becomes k apis m n f g p.becomes q.becomes;
}

module _ {W : Type 0} (k : StatusClient W) (apis : ClusterApis) (only : IsStatusOnly k)
    (accepts : AcceptsStatus k) where
  -- If status writes are accepted and change no other object, if redis has a word and the routes
  -- can be read, then a round succeeds, and leaves the status that `round` makes of the old one and
  -- of what is seen, with everything else that is read as it was.
  pub reconcile_status-Implements : Implements k apis IsReadable (reconcile_status k apis) round
  unfolding reconcile_status
  reconcile_status-Implements = sound_round.becomes
    where
      sound_round : Sound k apis (reconcile_status k apis) round
      sound_round =
          always k apis (reconcile_status_application_controller k apis)
            change_application_controller (application_controller-Implements k apis only accepts)
          then always k apis (ignore (reconcile_status_sso k apis)) change_sso
              (λ s h. drop_error-Leaves k apis s _ _ (sso-Implements k apis only accepts s h))
          then always k apis (reconcile_status_phase k apis) change_phase
              (phase-Implements k apis only accepts)
          then sound k apis (reconcile_status_redis k apis) change_redis
              (λ s h. redis-Implements k apis only accepts s h.0)
          then always k apis (reconcile_status_repo k apis) change_repo
              (repo-Implements k apis only accepts)
          then always k apis (reconcile_status_server k apis) change_server
              (server-Implements k apis only accepts)
          then sound k apis (reconcile_status_host k apis) change_host
              (λ s h. host-Implements k apis only accepts s h.1)
          then always k apis (reconcile_status_notifications k apis) change_notifications
              (notifications-Implements k apis only accepts)
          then always k apis (reconcile_status_application_set_controller k apis)
              change_application_set (application_set-Implements k apis only accepts)
