-- ===== src/Export/Repeat.antt =====
-- controllers/argocdexport: a run on what a run has left behind changes nothing.
use argocd_vee.Common.{
  ◌≡◌, refl, ap, sym, ◌∙◌, String, true, false, not, Option, ◌&&◌, ◌||◌, ◌==◌, string_eq, arith,
  choose_either, ltb, false≢true,
}
use argocd_vee.Effect.{Outcome, ok, Step, done, continue, ◌>>◌}
use argocd_vee.Kube.{Fetch, is_object_found, object_after}
use argocd_vee.Objects.{IsStore}
use argocd_vee.Export.Pod.{ArgoCdExport, ExportStorage, fetch_storage_secret_name, is_local}
use argocd_vee.Export.{
  ExportClient, ExportState, Secret, storage_step, Job, backup_key, on_secret, new_secret, new_job,
  status_completed, reconcile_export_secret, reconcile_argo_cd_export_resources, validate_export,
  reconcile_storage, reconcile_pvc, reconcile_local_storage, reconcile_jobs, reconcile_job,
  reconcile_export,
}
use argocd_vee.Export.Settle.{Ends, claim_is_known, secret_has_key, job_is_known}
use argocd_vee.Export.Rounds.{IsSettled, IsOnce, MakesKeys, resources-Ensures}

module _ {WS WJ WC WP WE V : Type 0} (k : ExportClient WS WJ WC WP WE V)
    (st : ExportStorage V) where
  settled_validate :
      (s : ExportState WS WJ WC WP WE V) → IsSettled k st s → validate_export k s ≡ (ok tt, s)
  unfolding validate_export
  settled_validate s (v, c, x, j) =
      choose_either (λ (r : Ends k st). r ≡ (ok tt, s)) (s.export.phase == "") _ _
        (λ e. elim (false≢true (sym v.2 ∙ e)) [ ]) (λ e. refl)

  unclaimed :
      (e : ArgoCdExport V) (r : Fetch V)
      → is_local st ≡ true
      → (e.phase == status_completed || is_object_found r) ≡ false
      → claim_is_known k st e r ≡ true
      → ⊥
  unfolding claim_is_known
  unclaimed e r l h c = ground arith

  settled_storage :
      (s : ExportState WS WJ WC WP WE V) → IsSettled k st s → reconcile_storage k s ≡ (ok tt, s)
  unfolding reconcile_storage reconcile_local_storage reconcile_pvc
  settled_storage s (v, c, x, j) =
      ap (λ o. storage_step k o s) v.0
      ∙ choose_either (λ (m : Step (ExportState WS WJ WC WP WE V)). m s ≡ (ok tt, s)) (is_local st)
          (reconcile_pvc k st) done
          (λ l.
            choose_either (λ (r : Ends k st). r ≡ (ok tt, s))
              (s.export.phase == status_completed
                || is_object_found (k.claims.get s.claims s.export.namespace s.export.name))
              _ _ (λ e. refl) (λ e. elim (unclaimed s.export _ l e c) [ ]))
          (λ e. refl)

  unkeyed :
      (r : Fetch Secret)
      → secret_has_key k st r ≡ true
      → (is_object_found r ≡ true) × ((backup_key (object_after new_secret r) == "") ≡ false)
  unfolding secret_has_key
  unkeyed r h = ground arith

  settled_secret :
      (s : ExportState WS WJ WC WP WE V)
      → IsSettled k st s
      → reconcile_export_secret k s ≡ (ok tt, s)
  unfolding reconcile_export_secret on_secret
  settled_secret s (v, c, x, j) =
      let r : Fetch Secret =
        k.secrets.get s.secrets s.export.namespace (fetch_storage_secret_name s.export) in
      let (f, n) = unkeyed r x in
      ap (λ (q : Outcome (Unit {0}) × WS). (q.0, record s { secrets = q.1 }))
        (choose_either (λ (m : Step WS). m s.secrets ≡ (ok tt, s.secrets)) (is_object_found r) _ _
          (λ e.
            choose_either (λ (m : Step WS). m s.secrets ≡ (ok tt, s.secrets))
              (backup_key (object_after new_secret r) == "") _ _
              (λ y. elim (false≢true (sym n ∙ y)) [ ]) (λ y. refl))
          (λ e. elim (false≢true (sym e ∙ f)) [ ]))

  unknown :
      (e : ArgoCdExport V) (r : Fetch Job)
      → job_is_known k st e r ≡ true
      → (is_object_found r ≡ true)
        × ((ltb 0 (object_after new_job r).succeeded && not (e.phase == status_completed)) ≡ false)
  unfolding job_is_known
  unknown e r h = ground arith

  settled_job :
      (s : ExportState WS WJ WC WP WE V)
      → IsSettled k st s
      → reconcile_jobs k s.export.schedule s.export.storage s ≡ (ok tt, s)
  unfolding reconcile_jobs reconcile_job
  settled_job s (v, c, x, j) =
      let r : Fetch Job = k.jobs.get s.jobs s.export.namespace s.export.name in
      let (f, n) = unknown s.export r j in
      ap (λ (q : Option String × Option (ExportStorage V)). reconcile_jobs k q.0 q.1 s)
        (λ i. (v.1 i, v.0 i))
      ∙ choose_either (λ (o : Ends k st). o ≡ (ok tt, s)) (is_object_found r) _ _
          (λ e.
            choose_either (λ (o : Ends k st). o ≡ (ok tt, s))
              (ltb 0 (object_after new_job r).succeeded && not (s.export.phase == status_completed))
              _ _ (λ y. elim (false≢true (sym n ∙ y)) [ ]) (λ y. refl))
          (λ e. elim (false≢true (sym e ∙ f)) [ ])

  settled_resources :
      (s : ExportState WS WJ WC WP WE V)
      → IsSettled k st s
      → reconcile_argo_cd_export_resources k s ≡ (ok tt, s)
  unfolding reconcile_argo_cd_export_resources reconcile_export
  settled_resources s h =
      ap (continue (λ u. reconcile_storage k >> reconcile_export k)) (settled_validate s h)
      ∙ ap (continue (λ u. reconcile_export k)) (settled_storage s h)
      ∙ ap (continue (λ u t. reconcile_jobs k t.export.schedule t.export.storage t))
          (settled_secret s h)
      ∙ settled_job s h

  -- When the API server keeps what it accepts, a generated key is not empty, the resource has storage
  -- and no schedule, and a run returns no error: afterwards the resource has a phase; its secret has a
  -- backup key that is not empty; its job is there, and the phase is the last one if a pod of the job
  -- has succeeded; its claim is there if the storage is local and the phase not the last one, where a
  -- job or a claim whose read fails counts as there. And the next run returns no error and changes
  -- nothing.
  pub reconcile_argo_cd_export_resources_settles :
      (s : ExportState WS WJ WC WP WE V)
      → IsStore k.secrets
      → IsStore k.jobs
      → IsStore k.claims
      → MakesKeys k st
      → IsOnce k st s
      → (reconcile_argo_cd_export_resources k s).0 ≡ ok tt
      → IsSettled k st (reconcile_argo_cd_export_resources k s).1
        × (reconcile_argo_cd_export_resources k (reconcile_argo_cd_export_resources k s).1
            ≡ (ok tt, (reconcile_argo_cd_export_resources k s).1))
  reconcile_argo_cd_export_resources_settles s a b c m o h =
      let i = (resources-Ensures k st a b c m).after s o h in
      (i, settled_resources (reconcile_argo_cd_export_resources k s).1 i)
