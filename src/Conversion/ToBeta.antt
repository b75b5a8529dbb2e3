-- ===== src/Conversion/ToBeta.antt =====
-- api/v1alpha1/argocd_conversion.go: the conversion functions for the parts of the resource. A
-- function that gives nil for nil is a function on values here, and `map_option` of it where the
-- pointer may be nil; a loop over a slice is `map` of its body. A field that a function leaves out
-- gets its zero value.
use argocd_vee.Common.{none, [], map, map_option}
use argocd_vee.Conversion.Shared.{
  Library, no_route, ArgoCdGrafanaSpec, ArgoCdHaSpec, ArgoCdPrometheusSpec, ArgoCdServerGrpcSpec,
  ResourceHealthCheck, ResourceIgnoreDifference, ResourceIdentifiers, ResourceAction,
  KustomizeVersionSpec, ArgoCdTlsSpec, WebhookServerSpec,
}
use argocd_vee.Conversion.Alpha
use argocd_vee.Conversion.Beta

unfoldable pub convert_alpha_to_beta_controller :
    {l : Library} → Alpha.ArgoCdApplicationControllerSpec l → Beta.ArgoCdApplicationControllerSpec l
convert_alpha_to_beta_controller src = record {
  init_containers = [];
  processors = src.processors;
  log_level = src.log_level;
  log_format = src.log_format;
  resources = src.resources;
  parallelism_limit = src.parallelism_limit;
  app_sync = src.app_sync;
  sharding = src.sharding;
  sidecar_containers = [];
  env = src.env;
  enabled = none;
  extra_command_args = [];
  volumes = [];
  volume_mounts = [];
}

unfoldable pub convert_alpha_to_beta_redis :
    {l : Library} → Alpha.ArgoCdRedisSpec l → Beta.ArgoCdRedisSpec l
convert_alpha_to_beta_redis src = record {
  image = src.image;
  resources = src.resources;
  version = src.version;
  disable_tls_verification = src.disable_tls_verification;
  auto_tls = src.auto_tls;
  enabled = none;
  remote = none;
}

unfoldable pub convert_alpha_to_beta_repo :
    {l : Library} → Alpha.ArgoCdRepoSpec l → Beta.ArgoCdRepoSpec l
convert_alpha_to_beta_repo src = record {
  extra_repo_command_args = src.extra_repo_command_args;
  log_level = src.log_level;
  log_format = src.log_format;
  mount_sa_token = src.mount_sa_token;
  replicas = src.replicas;
  resources = src.resources;
  service_account = src.service_account;
  verify_tls = src.verify_tls;
  auto_tls = src.auto_tls;
  image = src.image;
  version = src.version;
  exec_timeout = src.exec_timeout;
  env = src.env;
  volumes = src.volumes;
  volume_mounts = src.volume_mounts;
  init_containers = src.init_containers;
  sidecar_containers = src.sidecar_containers;
  enabled = none;
  remote = none;
}

unfoldable pub convert_alpha_to_beta_webhook_server :
    {l : Library} → WebhookServerSpec l → WebhookServerSpec l
convert_alpha_to_beta_webhook_server src = record {
  host = src.host;
  ingress = src.ingress;
  route = src.route;
}

unfoldable pub convert_alpha_to_beta_application_set :
    {l : Library} → Alpha.ArgoCdApplicationSet l → Beta.ArgoCdApplicationSet l
unfolding convert_alpha_to_beta_webhook_server
convert_alpha_to_beta_application_set src = record {
  env = src.env;
  extra_command_args = src.extra_command_args;
  image = src.image;
  version = src.version;
  resources = src.resources;
  log_level = src.log_level;
  webhook_server = convert_alpha_to_beta_webhook_server src.webhook_server;
  scm_root_ca_config_map = "";
  enabled = none;
  source_namespaces = [];
  scm_providers = [];
}

unfoldable pub convert_alpha_to_beta_grafana :
    {l : Library} → ArgoCdGrafanaSpec l → ArgoCdGrafanaSpec l
convert_alpha_to_beta_grafana src = record {
  enabled = src.enabled;
  host = src.host;
  image = src.image;
  ingress = src.ingress;
  resources = none;
  route = no_route;
  size = none;
  version = "";
}

unfoldable pub convert_alpha_to_beta_prometheus :
    {l : Library} → ArgoCdPrometheusSpec l → ArgoCdPrometheusSpec l
convert_alpha_to_beta_prometheus src = record {
  enabled = src.enabled;
  host = src.host;
  ingress = src.ingress;
  route = src.route;
  size = src.size;
}

unfoldable pub convert_alpha_to_beta_dex :
    {l : Library} → Alpha.ArgoCdDexSpec l → Beta.ArgoCdDexSpec l
convert_alpha_to_beta_dex src = record {
  config = src.config;
  groups = src.groups;
  image = src.image;
  open_shift_o_auth = src.open_shift_o_auth;
  resources = src.resources;
  version = src.version;
  env = [];
}

unfoldable pub convert_alpha_to_beta_sso :
    {l : Library} → Alpha.ArgoCdSsoSpec l → Beta.ArgoCdSsoSpec l
unfolding convert_alpha_to_beta_dex
convert_alpha_to_beta_sso src = record {
  provider = src.provider;
  dex = map_option convert_alpha_to_beta_dex src.dex;
  keycloak = src.keycloak;
}

unfoldable pub convert_alpha_to_beta_ha : {l : Library} → ArgoCdHaSpec l → ArgoCdHaSpec l
convert_alpha_to_beta_ha src = record {
  enabled = src.enabled;
  redis_proxy_image = src.redis_proxy_image;
  redis_proxy_version = src.redis_proxy_version;
  resources = src.resources;
}

unfoldable pub convert_alpha_to_beta_tls : ArgoCdTlsSpec → ArgoCdTlsSpec
convert_alpha_to_beta_tls src = record { ca = src.ca; initial_certs = src.initial_certs }

unfoldable pub convert_alpha_to_beta_grpc :
    {l : Library} → ArgoCdServerGrpcSpec l → ArgoCdServerGrpcSpec l
convert_alpha_to_beta_grpc src = record { host = src.host; ingress = src.ingress }

unfoldable pub convert_alpha_to_beta_server :
    {l : Library} → Alpha.ArgoCdServerSpec l → Beta.ArgoCdServerSpec l
unfolding convert_alpha_to_beta_grpc
convert_alpha_to_beta_server src = record {
  autoscale = src.autoscale;
  grpc = convert_alpha_to_beta_grpc src.grpc;
  init_containers = [];
  host = src.host;
  ingress = src.ingress;
  insecure = src.insecure;
  log_level = src.log_level;
  log_format = src.log_format;
  replicas = src.replicas;
  resources = src.resources;
  route = src.route;
  service = src.service;
  sidecar_containers = [];
  env = src.env;
  extra_command_args = src.extra_command_args;
  enabled = none;
  volumes = [];
  volume_mounts = [];
}

unfoldable pub convert_alpha_to_beta_kustomize_versions :
    KustomizeVersionSpec → KustomizeVersionSpec
convert_alpha_to_beta_kustomize_versions src = record { version = src.version; path = src.path }

unfoldable pub convert_alpha_to_beta_resource_identifiers :
    ResourceIdentifiers → ResourceIdentifiers
convert_alpha_to_beta_resource_identifiers src = record {
  group = src.group;
  kind = src.kind;
  customization = src.customization;
}

unfoldable pub convert_alpha_to_beta_resource_ignore_differences :
    ResourceIgnoreDifference → ResourceIgnoreDifference
unfolding convert_alpha_to_beta_resource_identifiers
convert_alpha_to_beta_resource_ignore_differences src = record {
  all = src.all;
  resource_identifiers = map convert_alpha_to_beta_resource_identifiers src.resource_identifiers;
}

unfoldable pub convert_alpha_to_beta_resource_actions : ResourceAction → ResourceAction
convert_alpha_to_beta_resource_actions src = record {
  group = src.group;
  kind = src.kind;
  action = src.action;
}

unfoldable pub convert_alpha_to_beta_resource_health_checks :
    ResourceHealthCheck → ResourceHealthCheck
convert_alpha_to_beta_resource_health_checks src = record {
  group = src.group;
  kind = src.kind;
  check = src.check;
}
