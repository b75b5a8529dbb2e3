-- ===== src/Export/Tests.antt =====
-- The controller of ArgoCDExport at small clusters.
use argocd_vee.Common.{
  ◌≡◌, ◌↔◌, refl, subst, ◌==◌, string_eq, to_lower, String, false, none, some, [], ◌∷◌,
}
use argocd_vee.Effect.{api, Outcome, ok}
use argocd_vee.Kube.{failed, items}
use argocd_vee.Objects.Table.{Table, table_client, table_client-IsStore, empty_table}
use argocd_vee.Export.Pod.{ArgoCdExport, ExportStorage, combine_image_tag, is_local}
use argocd_vee.Export.{
  ExportClient, ExportState, Secret, Job, CronJob, reconcile_argo_cd_export_resources,
  reconcile_export_secret,
}
use argocd_vee.Export.Panics.{IsPanic, HasNilData, reconcile_export_secret_panics}
use argocd_vee.Export.Rounds.{IsSettled, MakesKeys}
use argocd_vee.Export.Repeat.{reconcile_argo_cd_export_resources_settles}

abbrev Server : Type 0
Server = Unit {0}

abbrev client : ExportClient (Table Secret) (Table Job) (Table CronJob) (Table String) Server String
client = record {
  secrets = table_client;
  jobs = table_client;
  cron_jobs = table_client;
  claims = table_client;
  default_claim = "2Gi";
  update_export = λ e w. (w, none);
  update_status = λ e w. (w, none);
  create_event = λ w. (w, none);
  list_argocds = λ w ns. items ("argocd" ∷ []);
  generate_backup_key = λ w. ok "secret";
}

abbrev storage : ExportStorage String
storage = record { backend = "local"; pvc = none; secret_name = "" }

abbrev export : ArgoCdExport String
export = record {
  name = "backup";
  namespace = "ns";
  image = "";
  version = "";
  schedule = none;
  storage = some storage;
  phase = "";
}

abbrev start : ExportState (Table Secret) (Table Job) (Table CronJob) (Table String) Server String
start = record {
  export = export;
  secrets = empty_table;
  jobs = empty_table;
  cron_jobs = empty_table;
  claims = empty_table;
  others = tt;
}

-- The same cluster, where a read of a secret fails with an error of the API.
abbrev flaky : Table Secret
flaky ns n = failed (api "timeout")

image : combine_image_tag "argocd" "v2.9" ≡ "argocd:v2.9"
unfolding combine_image_tag
image = refl

digest : combine_image_tag "argocd" "sha256:12" ≡ "argocd@sha256:12"
unfolding combine_image_tag
digest = refl

IsKey : Outcome String → Type 0
IsKey (ok k) = (k == "") ≡ false
IsKey o = Unit

client-MakesKeys : MakesKeys client storage
unfolding IsKey
client-MakesKeys w key e = subst IsKey e refl

reconcile_export_secret_panics_example :
    IsPanic (reconcile_export_secret client (record start { secrets = flaky })).0
    ↔ HasNilData (failed (api "timeout"))
unfolding table_client
reconcile_export_secret_panics_example =
    reconcile_export_secret_panics client "secret" (record start { secrets = flaky }) refl

reconcile_argo_cd_export_resources_settles_example :
    IsSettled client storage (reconcile_argo_cd_export_resources client start).1
    × (reconcile_argo_cd_export_resources client (reconcile_argo_cd_export_resources client start).1
        ≡ (ok tt, (reconcile_argo_cd_export_resources client start).1))
unfolding reconcile_argo_cd_export_resources is_local to_lower table_client
reconcile_argo_cd_export_resources_settles_example =
    reconcile_argo_cd_export_resources_settles client storage start table_client-IsStore
      table_client-IsStore table_client-IsStore client-MakesKeys (refl, refl) refl
