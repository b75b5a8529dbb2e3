-- ===== src/Export.antt =====
-- controllers/argocdexport: the controller of ArgoCDExport, which keeps a secret with a backup key, a
-- claim for local storage, and a job or a cron job that exports an Argo CD instance.
pub mod Pod
pub mod Panics
pub mod Settle
pub mod Rounds
pub mod Repeat
mod Tests
use argocd_vee.Common.{
  Entries, ℕ, String, Bool, true, false, not, Option, none, some, List, [], ◌∷◌, ◌&&◌, ◌||◌, ◌==◌,
  string_eq, ◌<>◌, get, put, if◌then◌else◌, to_lower, ltb,
}
use argocd_vee.Effect.{
  Err, Outcome, ok, err, panic, Step, Act, done, fail, ◌>>=◌, ◌>>◌, failure, continue,
}
use argocd_vee.Kube.{
  Fetch, found, missing, failed, Listing, items, list_failed, is_object_found, object_after,
}
use argocd_vee.Status.{returned}
use argocd_vee.Objects.{ObjectClient, call, owned}
use argocd_vee.Export.Pod.{
  ArgoCdExport, ExportStorage, storage_backend_local, PodTemplate, new_pod_template_spec,
  fetch_storage_secret_name, is_local,
}

-- `Data`, a map that may be nil.
pub record Secret : Type 0 where
  pub data_entries : Option Entries

-- `Status.Succeeded`, an int32 that counts pods, and `Spec.Template`.
pub record Job : Type 0 where
  pub succeeded : ℕ
  pub template : Option PodTemplate

pub record CronJob : Type 0 where
  pub schedule : String
  pub template : Option PodTemplate

abbrev pub key_backup_key : String
key_backup_key = "backup.key"

abbrev pub status_completed : String
status_completed = "Completed"

abbrev pub new_secret : Secret
new_secret = record { data_entries = none }

abbrev pub new_job : Job
new_job = record { succeeded = 0; template = none }

abbrev pub new_cron_job : CronJob
new_cron_job = record { schedule = ""; template = none }

-- The client on each kind, with the specification V of a claim, and the generator of passwords. The
-- resource itself, its status, the events and the list of the Argo CD instances are of one part.
pub record ExportClient (WS WJ WC WP WE V : Type 0) : Type 0 where
  pub secrets : ObjectClient WS Secret
  pub jobs : ObjectClient WJ Job
  pub cron_jobs : ObjectClient WC CronJob
  pub claims : ObjectClient WP V
  pub default_claim : V
  pub update_export : ArgoCdExport V → WE → WE × Option Err
  pub update_status : ArgoCdExport V → WE → WE × Option Err
  pub create_event : WE → WE × Option Err
  pub list_argocds : WE → String → Listing String
  pub generate_backup_key : WE → Outcome String

-- The resource that the code has read, and the cluster.
pub record ExportState (WS WJ WC WP WE V : Type 0) : Type 0 where
  pub export : ArgoCdExport V
  pub secrets : WS
  pub jobs : WJ
  pub cron_jobs : WC
  pub claims : WP
  pub others : WE

-- `secret.Data["backup.key"]`, which is empty in a nil map.
pub backup_key : Secret → String
backup_key s = key_in s.data_entries
  where
    value : Option String → String
    value none = ""
    value (some v) = v

    key_in : Option Entries → String
    key_in none = ""
    key_in (some m) = value (get key_backup_key m)

module _ {WS WJ WC WP WE V : Type 0} (k : ExportClient WS WJ WC WP WE V) where
  abbrev pub St : Type 0
  St = ExportState WS WJ WC WP WE V

  -- A step on one part of the cluster.
  abbrev pub on_secrets : Step WS → Step St
  on_secrets m s = let (o, w) = m s.secrets in (o, record s { secrets = w })

  abbrev pub on_jobs : Step WJ → Step St
  on_jobs m s = let (o, w) = m s.jobs in (o, record s { jobs = w })

  abbrev pub on_cron_jobs : Step WC → Step St
  on_cron_jobs m s = let (o, w) = m s.cron_jobs in (o, record s { cron_jobs = w })

  abbrev pub on_claims : Step WP → Step St
  on_claims m s = let (o, w) = m s.claims in (o, record s { claims = w })

  abbrev pub on_others : Step WE → Step St
  on_others m s = let (o, w) = m s.others in (o, record s { others = w })

  -- Writing the key into the map: a nil map panics.
  pub store_backup_key : String → String → String → Secret → Step WS
  unfolding call
  store_backup_key ns name key secret = go secret.data_entries
    where
      go : Option Entries → Step WS
      go none = λ w. (panic, w)
      go (some m) =
          call
            (k.secrets.update ns name (record { data_entries = some (put key_backup_key key m) }))

  pub create_secret : String → String → String → Step WS
  unfolding call owned
  create_secret ns name key =
      let secret : Secret = record { data_entries = some ((key_backup_key, key) ∷ []) } in
      owned k.secrets secret >> call (k.secrets.create ns name secret)

  -- A key is generated, and an error of that is returned.
  abbrev pub with_key : Outcome String → (String → Step WS) → Step WS
  with_key (ok key) f w = f key w
  with_key (err e) f w = (err e, w)
  with_key panic f w = (panic, w)

  pub on_secret : String → String → Outcome String → Fetch Secret → Step WS
  unfolding is_object_found object_after backup_key create_secret store_backup_key
  on_secret ns name generated r =
      if is_object_found r
      then (if backup_key (object_after new_secret r) == ""
          then with_key generated (λ key. store_backup_key ns name key (object_after new_secret r))
          else done)
      else with_key generated (create_secret ns name)

  unfoldable pub reconcile_export_secret : Step St
  unfolding on_secret
  reconcile_export_secret s =
      let name = fetch_storage_secret_name s.export in
      on_secrets
        (on_secret s.export.namespace name (k.generate_backup_key s.others)
          (k.secrets.get s.secrets s.export.namespace name))
        s

  -- validateExport
  unfoldable pub validate_export : Step St
  unfolding call
  validate_export s =
      if s.export.phase == ""
      then (let cr = record s.export { phase = "Pending" } in
          on_others (call (k.update_status cr)) (record s { export = cr }))
      else done s

  pub claim_spec : ExportStorage V → V
  claim_spec st = elim st.pvc [ none ↦ k.default_claim | some v ↦ v ]

  -- The claim has the name of the export, and its creation is an event.
  unfoldable pub reconcile_pvc : ExportStorage V → Step St
  unfolding call owned is_object_found claim_spec
  reconcile_pvc st s =
      if s.export.phase == status_completed
        || is_object_found (k.claims.get s.claims s.export.namespace s.export.name)
      then done s
      else ((on_claims (
              owned k.claims (claim_spec st)
              >> call (k.claims.create s.export.namespace s.export.name (claim_spec st)))
            >> on_others (call k.create_event))
          s)

  unfoldable pub reconcile_local_storage : ExportStorage V → Step St
  unfolding reconcile_pvc
  reconcile_local_storage st = if is_local st then reconcile_pvc st else done

  abbrev pub default_storage : ExportStorage V
  default_storage = record { backend = storage_backend_local; pvc = none; secret_name = "" }

  -- An export without storage gets the local one; its claim waits for the next run.
  unfoldable pub storage_step : Option (ExportStorage V) → Step St
  unfolding call reconcile_local_storage
  storage_step none s =
      let cr = record s.export { storage = some default_storage } in
      on_others (call (k.update_export cr)) (record s { export = cr })
  storage_step (some st) s = reconcile_local_storage st s

  unfoldable pub reconcile_storage : Step St
  unfolding storage_step
  reconcile_storage s = storage_step s.export.storage s

  -- argocdName: the one Argo CD instance of the namespace.
  pub one_name : Listing String → Outcome String
  one_name (items (n ∷ [])) = ok n
  one_name (items ns) = err (failure "No Argo CD instance found in namespace")
  one_name (list_failed e) = err e

  abbrev pub with_name : Outcome String → (String → Step St) → Step St
  with_name (ok n) f = f n
  with_name (err e) f = λ s. (err e, s)
  with_name panic f = λ s. (panic, s)

  unfoldable pub create_cron_job : ExportStorage V → String → String → Step St
  unfolding call owned
  create_cron_job st schedule argocd_name s =
      let cj : CronJob = record {
        schedule = schedule;
        template = some (new_pod_template_spec s.export st argocd_name);
      } in
      on_cron_jobs
        (owned k.cron_jobs cj >> call (k.cron_jobs.create s.export.namespace s.export.name cj)) s

  unfoldable pub reconcile_cron_job : ExportStorage V → String → Step St
  unfolding call is_object_found object_after one_name create_cron_job
  reconcile_cron_job st schedule s =
      let r = k.cron_jobs.get s.cron_jobs s.export.namespace s.export.name in
      let cj = object_after new_cron_job r in
      if is_object_found r
      then (if not (schedule == cj.schedule)
          then on_cron_jobs
              (call (
                k.cron_jobs.update s.export.namespace s.export.name
                  (record cj { schedule = schedule })))
              s
          else done s)
      else with_name (one_name (k.list_argocds s.others s.export.namespace))
          (create_cron_job st schedule) s

  unfoldable pub create_job : ExportStorage V → String → Step St
  unfolding call owned
  create_job st argocd_name s =
      let job : Job = record {
        succeeded = 0;
        template = some (new_pod_template_spec s.export st argocd_name);
      } in
      on_jobs (owned k.jobs job >> call (k.jobs.create s.export.namespace s.export.name job)) s

  unfoldable pub reconcile_job : ExportStorage V → Step St
  unfolding call is_object_found object_after one_name create_job
  reconcile_job st s =
      let r = k.jobs.get s.jobs s.export.namespace s.export.name in
      if is_object_found r
      then (if ltb 0 (object_after new_job r).succeeded && not (s.export.phase == status_completed)
          then (let cr = record s.export { phase = status_completed } in
              on_others (call (k.update_status cr)) (record s { export = cr }))
          else done s)
      else with_name (one_name (k.list_argocds s.others s.export.namespace)) (create_job st) s

  -- `cr.Spec.Schedule != nil && len(*cr.Spec.Schedule) > 0`; without storage neither job is made.
  unfoldable pub reconcile_jobs : Option String → Option (ExportStorage V) → Step St
  unfolding reconcile_job reconcile_cron_job
  reconcile_jobs schedule none = done
  reconcile_jobs none (some st) = reconcile_job st
  reconcile_jobs (some schedule) (some st) =
      if not (schedule == "") then reconcile_cron_job st schedule else reconcile_job st

  unfoldable pub reconcile_export : Step St
  unfolding reconcile_export_secret reconcile_jobs
  reconcile_export =
      reconcile_export_secret >> λ s. reconcile_jobs s.export.schedule s.export.storage s

  unfoldable pub reconcile_argo_cd_export_resources : Step St
  unfolding validate_export reconcile_storage reconcile_export
  reconcile_argo_cd_export_resources = validate_export >> (reconcile_storage >> reconcile_export)

  -- Reconcile: the resource is read, and one that is gone needs nothing.
  unfoldable pub reconcile_argo_cd_export : Fetch (ArgoCdExport V) → Step St
  unfolding reconcile_argo_cd_export_resources
  reconcile_argo_cd_export (found cr) s =
      reconcile_argo_cd_export_resources (record s { export = cr })
  reconcile_argo_cd_export missing s = done s
  reconcile_argo_cd_export (failed e) s = fail e s
