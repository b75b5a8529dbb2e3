-- ===== src/Export/Pod.antt =====
-- api/v1alpha1/argocdexport_types.go: the resource ArgoCDExport; and controllers/argocdexport/job.go:
-- the pod that runs an export. `V` is the specification of a claim, a type of a library.
use argocd_vee.Common.{
  String, Bool, not, Option, none, some, List, [], ◌∷◌, ◌==◌, string_eq, ◌<>◌, if◌then◌else◌,
  to_lower, has_colon,
}

pub record ExportStorage (V : Type 0) : Type 0 where
  pub backend : String
  pub pvc : Option V
  pub secret_name : String

pub record ArgoCdExport (V : Type 0) : Type 0 where
  pub name : String
  pub namespace : String
  pub image : String
  pub version : String
  pub schedule : Option String
  pub storage : Option (ExportStorage V)
  pub phase : String

abbrev pub storage_backend_local : String
storage_backend_local = "local"

abbrev pub storage_backend_aws : String
storage_backend_aws = "aws"

abbrev pub default_export_job_image : String
default_export_job_image = "quay.io/argoprojlabs/argocd-operator-util"

abbrev pub default_export_job_version : String
default_export_job_version =
    "sha256:463185c62f35e73e287a859c42926fea7c23cecd2db7f94675f4d46629d4b4d8"

-- An environment variable that is taken from a key of a secret.
pub record EnvVar : Type 0 where
  pub name : String
  pub secret : String
  pub key : String

pub data VolumeSource : Type 0 where
  persistent_volume_claim : String → VolumeSource
  empty_dir : VolumeSource
  secret_volume : String → VolumeSource

pub record VolumeMount : Type 0 where
  pub name : String
  pub mount_path : String

-- The parts of the pod that depend on the resource, with its mounts; the security contexts, the pull
-- policy and the restart policy are constants.
pub record PodTemplate : Type 0 where
  pub name : String
  pub namespace : String
  pub command : List String
  pub env : List EnvVar
  pub image : String
  pub mounts : List VolumeMount
  pub service_account : String
  pub volumes : List (String × VolumeSource)

-- controllers/argoutil/resource.go
unfoldable pub combine_image_tag : String → String → String
unfolding has_colon
combine_image_tag img tag =
    if has_colon tag then img <> "@" <> tag else if not (tag == "") then img <> ":" <> tag else img

abbrev pub get_argo_export_volume_mounts : List VolumeMount
get_argo_export_volume_mounts =
    record { name = "backup-storage"; mount_path = "/backups" }
    ∷ record { name = "secret-storage"; mount_path = "/secrets" }
    ∷ []

module _ {V : Type 0} where
  abbrev storage_secret_name : String → Option (ExportStorage V) → String
  storage_secret_name name none = name
  storage_secret_name name (some st) = if not (st.secret_name == "") then st.secret_name else name

  unfoldable pub fetch_storage_secret_name : ArgoCdExport V → String
  fetch_storage_secret_name cr = storage_secret_name (cr.name <> "-export") cr.storage

  unfoldable pub is_local : ExportStorage V → Bool
  is_local st = to_lower st.backend == storage_backend_local

  -- `cr.Spec.Storage.Backend`, of an export whose storage the callers have tested.
  unfoldable pub get_argo_export_command : ExportStorage V → List String
  get_argo_export_command st =
      "uid_entrypoint.sh" ∷ "argocd-operator-util" ∷ "export" ∷ st.backend ∷ []

  unfoldable pub get_argo_export_container_env : ArgoCdExport V → ExportStorage V → List EnvVar
  get_argo_export_container_env cr st =
      if st.backend == storage_backend_aws
      then record {
        name = "AWS_ACCESS_KEY_ID";
        secret = fetch_storage_secret_name cr;
        key = "aws.access.key.id";
      }
        ∷ record {
          name = "AWS_SECRET_ACCESS_KEY";
          secret = fetch_storage_secret_name cr;
          key = "aws.secret.access.key";
        }
        ∷ []
      else []

  unfoldable pub get_argo_export_container_image : ArgoCdExport V → String
  unfolding combine_image_tag
  get_argo_export_container_image cr =
      combine_image_tag (if cr.image == "" then default_export_job_image else cr.image)
        (if cr.version == "" then default_export_job_version else cr.version)

  unfoldable pub get_argo_storage_volume : ArgoCdExport V → Option (ExportStorage V) → VolumeSource
  get_argo_storage_volume cr none = persistent_volume_claim cr.name
  get_argo_storage_volume cr (some st) =
      if is_local st then persistent_volume_claim cr.name else empty_dir

  -- newPodTemplateSpec and newExportPodSpec, for an export with storage.
  unfoldable pub new_pod_template_spec : ArgoCdExport V → ExportStorage V → String → PodTemplate
  new_pod_template_spec cr st argocd_name = record {
    name = cr.name;
    namespace = cr.namespace;
    command = get_argo_export_command st;
    env = get_argo_export_container_env cr st;
    image = get_argo_export_container_image cr;
    mounts = get_argo_export_volume_mounts;
    service_account = argocd_name <> "-argocd-application-controller";
    volumes =
        ("backup-storage", get_argo_storage_volume cr (some st))
        ∷ ("secret-storage", secret_volume (fetch_storage_secret_name cr))
        ∷ [];
  }
