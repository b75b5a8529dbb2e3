-- ===== src/Export/Rounds.antt =====
-- controllers/argocdexport: whole runs of the export controller on a resource with storage that is
-- exported once.
use argocd_vee.Common.{
  ◌≡◌, ◌⊎◌, refl, sym, String, true, false, not, Option, none, some, ◌&&◌, ◌==◌, string_eq, arith,
  choose_either, ltb, subst, inl, inr,
}
use argocd_vee.Effect.{Outcome, ok, err, panic, Ensures, then-Ensures, Anywhere, IsOk, ◌>>◌}
use argocd_vee.Kube.{Fetch, found, is_object_found, object_after}
use argocd_vee.Objects.{IsStore, call, owned, create-Ensures, owned-Ensures}
use argocd_vee.Export.Pod.{
  ArgoCdExport, ExportStorage, new_pod_template_spec, fetch_storage_secret_name,
}
use argocd_vee.Export.{
  ExportClient, ExportState, with_name, Job, new_job, status_completed, reconcile_export_secret,
  reconcile_argo_cd_export_resources, reconcile_storage, create_job, one_name, reconcile_jobs,
  reconcile_job, reconcile_export,
}
use argocd_vee.Export.Settle.{
  Ends, IsValidated, HasClaim, HasSecret, HasJob, job_is_known, validate-after, storage-after,
  secret-after, claim_known_done,
}

module _ {WS WJ WC WP WE V : Type 0} (k : ExportClient WS WJ WC WP WE V)
    (st : ExportStorage V) where
  job_known_created :
      (e : ArgoCdExport V) (r : Fetch Job) (j : Job)
      → r ≡ found j
      → j.succeeded ≡ 0
      → job_is_known k st e r ≡ true
  unfolding job_is_known is_object_found object_after
  job_known_created e r j g h = ground arith

  job_known_completed :
      (e : ArgoCdExport V) (r : Fetch Job)
      → is_object_found r ≡ true
      → job_is_known k st (record e { phase = status_completed }) r ≡ true
  unfolding job_is_known
  job_known_completed e r h = ground arith

  job_known_waiting :
      (e : ArgoCdExport V) (r : Fetch Job)
      → is_object_found r ≡ true
      → (ltb 0 (object_after new_job r).succeeded && not (e.phase == status_completed)) ≡ false
      → job_is_known k st e r ≡ true
  unfolding job_is_known
  job_known_waiting e r h x = ground arith

  abbrev job_for : ArgoCdExport V → String → Job
  job_for e n = record { succeeded = 0; template = some (new_pod_template_spec e st n) }

  make_job-Ensures :
      (e : ArgoCdExport V) (n : String)
      → IsStore k.jobs
      → Ensures Anywhere
          (owned k.jobs (job_for e n) >> call (k.jobs.create e.namespace e.name (job_for e n)))
          (λ w. k.jobs.get w e.namespace e.name ≡ found (job_for e n))
  make_job-Ensures e n c =
      then-Ensures (owned-Ensures k.jobs (job_for e n))
        (create-Ensures k.jobs c e.namespace e.name (job_for e n))

  -- What the step for the job changes of the resource: the phase at most, to the last one.
  abbrev IsPhased : ArgoCdExport V → ArgoCdExport V → Type 0
  IsPhased e f = (f ≡ e) ⊎ (f ≡ record e { phase = status_completed })

  abbrev AfterJob : ExportState WS WJ WC WP WE V → Ends k st → Type 0
  AfterJob s r =
      r.0 ≡ ok tt
      → IsPhased s.export r.1.export
        × (r.1.claims ≡ s.claims)
        × (r.1.secrets ≡ s.secrets)
        × HasJob k st r.1.export r.1.jobs

  job-after :
      (s : ExportState WS WJ WC WP WE V) → IsStore k.jobs → AfterJob s (reconcile_job k st s)
  unfolding reconcile_job
  job-after s c =
      choose_either (λ (r : Ends k st). AfterJob s r)
        (is_object_found (k.jobs.get s.jobs s.export.namespace s.export.name)) _ _
        (λ f.
          choose_either (λ (r : Ends k st). AfterJob s r)
            (ltb 0
                (object_after new_job
                  (k.jobs.get s.jobs s.export.namespace s.export.name)).succeeded
              && not (s.export.phase == status_completed))
            _ _ (λ e h. (inr refl, refl, refl, job_known_completed s.export _ f))
            (λ e h. (inl refl, refl, refl, job_known_waiting s.export _ f e)))
        (λ f. created (one_name k (k.list_argocds s.others s.export.namespace)))
    where
      created : (o : Outcome String) → AfterJob s (with_name k o (create_job k st) s)
      created (ok n) h = (
        inl refl,
        refl,
        refl,
        job_known_created s.export _ (job_for s.export n)
            ((make_job-Ensures s.export n c).after s.jobs tt h) refl,
      )
      created (err e) h = elim (subst IsOk (sym h) tt) [ ]
      created panic h = elim (subst IsOk (sym h) tt) [ ]

  -- What a run leaves behind.
  abbrev pub IsSettled : ExportState WS WJ WC WP WE V → Type 0
  IsSettled s =
      IsValidated k st s.export
      × HasClaim k st s.export s.claims
      × HasSecret k st s.export s.secrets
      × HasJob k st s.export s.jobs

  phased-IsValidated :
      (e f : ArgoCdExport V) → IsPhased e f → IsValidated k st e → IsValidated k st f
  phased-IsValidated e f (inl q) v = subst (IsValidated k st) (sym q) v
  phased-IsValidated e f (inr q) (a, b, c) = subst (IsValidated k st) (sym q) (a, b, refl)

  phased-HasClaim :
      (e f : ArgoCdExport V) (w : WP) → IsPhased e f → HasClaim k st e w → HasClaim k st f w
  phased-HasClaim e f w (inl q) h = subst (λ g. HasClaim k st g w) (sym q) h
  phased-HasClaim e f w (inr q) h =
      subst (λ g. HasClaim k st g w) (sym q)
        (claim_known_done k st (record e { phase = status_completed }) _ refl)

  phased-HasSecret :
      (e f : ArgoCdExport V) (w : WS) → IsPhased e f → HasSecret k st e w → HasSecret k st f w
  unfolding fetch_storage_secret_name
  phased-HasSecret e f w (inl q) h = subst (λ g. HasSecret k st g w) (sym q) h
  phased-HasSecret e f w (inr q) h = subst (λ g. HasSecret k st g w) (sym q) h

  abbrev Three : ExportState WS WJ WC WP WE V → Type 0
  Three s =
      IsValidated k st s.export
      × HasClaim k st s.export s.claims
      × HasSecret k st s.export s.secrets

  jobs-Ensures :
      IsStore k.jobs
      → Ensures Three (λ s. reconcile_jobs k s.export.schedule s.export.storage s) IsSettled
  unfolding reconcile_jobs
  jobs-Ensures c = record {
    after = λ s p.
        subst
          (λ (q : Option String × Option (ExportStorage V)).
            (reconcile_jobs k q.0 q.1 s).0 ≡ ok tt → IsSettled (reconcile_jobs k q.0 q.1 s).1)
          (λ i. (sym p.0.1 i, sym p.0.0 i)) (settle s p);
  }
    where
      settle :
          (s : ExportState WS WJ WC WP WE V)
          → Three s
          → (reconcile_job k st s).0 ≡ ok tt
          → IsSettled (reconcile_job k st s).1
      settle s (v, c', x) h =
          let (f, a, b, j) = job-after s c h in
          (
            phased-IsValidated s.export _ f v,
            phased-HasClaim s.export _ _ f (subst (HasClaim k st s.export) (sym a) c'),
            phased-HasSecret s.export _ _ f (subst (HasSecret k st s.export) (sym b) x),
            j,
          )

  abbrev pub IsOnce : ExportState WS WJ WC WP WE V → Type 0
  IsOnce s = (s.export.storage ≡ some st) × (s.export.schedule ≡ none)

  abbrev pub MakesKeys : Type 0
  MakesKeys = (w : WE) (key : String) → k.generate_backup_key w ≡ ok key → (key == "") ≡ false

  pub resources-Ensures :
      IsStore k.secrets
      → IsStore k.jobs
      → IsStore k.claims
      → MakesKeys
      → Ensures IsOnce (reconcile_argo_cd_export_resources k) IsSettled
  unfolding reconcile_argo_cd_export_resources reconcile_export
  resources-Ensures cs cj cp h =
      then-Ensures {Q = λ s. IsValidated k st s.export}
        (record { after = λ s (p, q) e. validate-after k st s p q e })
        (then-Ensures {Q = Two} (record { after = stored })
          (then-Ensures {Q = Three} (record { after = keyed }) (jobs-Ensures cj)))
    where
      Two : ExportState WS WJ WC WP WE V → Type 0
      Two s = IsValidated k st s.export × HasClaim k st s.export s.claims

      stored :
          (s : ExportState WS WJ WC WP WE V)
          → IsValidated k st s.export
          → (reconcile_storage k s).0 ≡ ok tt
          → Two (reconcile_storage k s).1
      stored s v e =
          let (x, c) = storage-after k st s cp v.0 e in
          (
            subst (IsValidated k st) (sym x) v,
            subst (λ g. HasClaim k st g (reconcile_storage k s).1.claims) (sym x) c,
          )

      keyed :
          (s : ExportState WS WJ WC WP WE V)
          → Two s
          → (reconcile_export_secret k s).0 ≡ ok tt
          → Three (reconcile_export_secret k s).1
      keyed s (v, c) e =
          let (x, a, b, d) = secret-after k st s cs h e in
          (
            subst (IsValidated k st) (sym x) v,
            subst (λ g. HasClaim k st g (reconcile_export_secret k s).1.claims) (sym x)
                (subst (HasClaim k st s.export) (sym a) c),
            subst (λ g. HasSecret k st g (reconcile_export_secret k s).1.secrets) (sym x) d,
          )
