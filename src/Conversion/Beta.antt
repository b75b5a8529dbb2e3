-- ===== src/Conversion/Beta.antt =====
-- api/v1beta1/argocd_types.go: the types that are not the same in both versions.
use argocd_vee.Common.{String, Bool, Option, List, ℤ}
use argocd_vee.Conversion.Shared.{
  Library, ArgoCdStatus, ArgoCdApplicationControllerProcessorsSpec,
  ArgoCdApplicationControllerShardSpec, ArgoCdGrafanaSpec, ArgoCdHaSpec, ArgoCdImportSpec,
  ArgoCdIngressSpec, ArgoCdKeycloakSpec, ArgoCdMonitoringSpec, ArgoCdNodePlacementSpec,
  ArgoCdNotifications, ArgoCdPrometheusSpec, ArgoCdRbacSpec, ArgoCdRouteSpec,
  ArgoCdServerAutoscaleSpec, ArgoCdServerGrpcSpec, ArgoCdServerServiceSpec, ArgoCdTlsSpec, Banner,
  KustomizeVersionSpec, ResourceAction, ResourceHealthCheck, ResourceIgnoreDifference, SshHostsSpec,
  WebhookServerSpec,
}

pub record ArgoCdApplicationControllerSpec (l : Library) : Type 0 where
  pub init_containers : List l.Container
  pub processors : ArgoCdApplicationControllerProcessorsSpec
  pub log_level : String
  pub log_format : String
  pub resources : Option l.ResourceRequirements
  pub parallelism_limit : ℤ
  pub app_sync : Option l.Duration
  pub sharding : ArgoCdApplicationControllerShardSpec
  pub sidecar_containers : List l.Container
  pub env : List l.EnvVar
  pub enabled : Option Bool
  pub extra_command_args : List String
  pub volumes : List l.Volume
  pub volume_mounts : List l.VolumeMount

pub record ArgoCdApplicationSet (l : Library) : Type 0 where
  pub env : List l.EnvVar
  pub extra_command_args : List String
  pub image : String
  pub version : String
  pub resources : Option l.ResourceRequirements
  pub log_level : String
  pub webhook_server : WebhookServerSpec l
  pub scm_root_ca_config_map : String
  pub enabled : Option Bool
  pub source_namespaces : List String
  pub scm_providers : List String

pub record ArgoCdDexSpec (l : Library) : Type 0 where
  pub config : String
  pub groups : List String
  pub image : String
  pub open_shift_o_auth : Bool
  pub resources : Option l.ResourceRequirements
  pub version : String
  pub env : List l.EnvVar

pub record ArgoCdRedisSpec (l : Library) : Type 0 where
  pub image : String
  pub resources : Option l.ResourceRequirements
  pub version : String
  pub disable_tls_verification : Bool
  pub auto_tls : String
  pub enabled : Option Bool
  pub remote : Option String

pub record ArgoCdRepoSpec (l : Library) : Type 0 where
  pub extra_repo_command_args : List String
  pub log_level : String
  pub log_format : String
  pub mount_sa_token : Bool
  pub replicas : Option ℤ
  pub resources : Option l.ResourceRequirements
  pub service_account : String
  pub verify_tls : Bool
  pub auto_tls : String
  pub image : String
  pub version : String
  pub exec_timeout : Option ℤ
  pub env : List l.EnvVar
  pub volumes : List l.Volume
  pub volume_mounts : List l.VolumeMount
  pub init_containers : List l.Container
  pub sidecar_containers : List l.Container
  pub enabled : Option Bool
  pub remote : Option String

pub record ArgoCdServerSpec (l : Library) : Type 0 where
  pub autoscale : ArgoCdServerAutoscaleSpec l
  pub grpc : ArgoCdServerGrpcSpec l
  pub init_containers : List l.Container
  pub host : String
  pub ingress : ArgoCdIngressSpec l
  pub insecure : Bool
  pub log_level : String
  pub log_format : String
  pub replicas : Option ℤ
  pub resources : Option l.ResourceRequirements
  pub route : ArgoCdRouteSpec l
  pub service : ArgoCdServerServiceSpec l
  pub sidecar_containers : List l.Container
  pub env : List l.EnvVar
  pub extra_command_args : List String
  pub enabled : Option Bool
  pub volumes : List l.Volume
  pub volume_mounts : List l.VolumeMount

pub record ArgoCdSsoSpec (l : Library) : Type 0 where
  pub provider : String
  pub dex : Option (ArgoCdDexSpec l)
  pub keycloak : Option (ArgoCdKeycloakSpec l)

pub record ArgoCdSpec (l : Library) : Type 0 where
  pub application_set : Option (ArgoCdApplicationSet l)
  pub application_instance_label_key : String
  pub config_management_plugins : String
  pub controller : ArgoCdApplicationControllerSpec l
  pub disable_admin : Bool
  pub extra_config : List (String × String)
  pub ga_tracking_id : String
  pub ga_anonymize_users : Bool
  pub grafana : ArgoCdGrafanaSpec l
  pub ha : ArgoCdHaSpec l
  pub help_chat_url : String
  pub help_chat_text : String
  pub image : String
  pub import : Option ArgoCdImportSpec
  pub initial_repositories : String
  pub initial_ssh_known_hosts : SshHostsSpec
  pub kustomize_build_options : String
  pub kustomize_versions : List KustomizeVersionSpec
  pub oidc_config : String
  pub monitoring : ArgoCdMonitoringSpec
  pub node_placement : Option (ArgoCdNodePlacementSpec l)
  pub notifications : ArgoCdNotifications l
  pub prometheus : ArgoCdPrometheusSpec l
  pub rbac : ArgoCdRbacSpec
  pub redis : ArgoCdRedisSpec l
  pub repo : ArgoCdRepoSpec l
  pub repository_credentials : String
  pub resource_health_checks : List ResourceHealthCheck
  pub resource_ignore_differences : Option ResourceIgnoreDifference
  pub resource_actions : List ResourceAction
  pub resource_exclusions : String
  pub resource_inclusions : String
  pub resource_tracking_method : String
  pub server : ArgoCdServerSpec l
  pub source_namespaces : List String
  pub sso : Option (ArgoCdSsoSpec l)
  pub status_badge_enabled : Bool
  pub tls : ArgoCdTlsSpec
  pub users_anonymous_enabled : Bool
  pub version : String
  pub banner : Option Banner
  pub default_cluster_scoped_role_disabled : Bool
  pub aggregated_cluster_roles : Bool

pub record ArgoCd (l : Library) : Type 0 where
  pub object_meta : l.ObjectMeta
  pub spec : ArgoCdSpec l
  pub status : ArgoCdStatus
