-- ===== src/Conversion/ToAlpha.antt =====
-- api/v1alpha1/argocd_conversion.go: the conversion functions for the parts of the resource. A
-- function that gives nil for nil is a function on values here, and `map_option` of it where the
-- pointer may be nil; a loop over a slice is `map` of its body. A field that a function leaves out
-- gets its zero value.
use argocd_vee.Common.{none, map, map_option}
use argocd_vee.Conversion.Shared.{
  Library, no_route, ArgoCdGrafanaSpec, ArgoCdHaSpec, ArgoCdPrometheusSpec, ArgoCdServerGrpcSpec,
  ResourceHealthCheck, ResourceIgnoreDifference, ResourceIdentifiers, ResourceAction,
  KustomizeVersionSpec, ArgoCdTlsSpec, WebhookServerSpec,
}
use argocd_vee.Conversion.Alpha
use argocd_vee.Conversion.Beta

unfoldable pub convert_beta_to_alpha_controller :
    {l : Library} → Beta.ArgoCdApplicationControllerSpec l → Alpha.ArgoCdApplicationControllerSpec l
convert_beta_to_alpha_controller src = record {
  processors = src.processors;
  log_level = src.log_level;
  log_format = src.log_format;
  resources = src.resources;
  parallelism_limit = src.parallelism_limit;
  app_sync = src.app_sync;
  sharding = src.sharding;
  env = src.env;
}

unfoldable pub convert_beta_to_alpha_webhook_server :
    {l : Library} → WebhookServerSpec l → WebhookServerSpec l
convert_beta_to_alpha_webhook_server src = record {
  host = src.host;
  ingress = src.ingress;
  route = src.route;
}

unfoldable pub convert_beta_to_alpha_application_set :
    {l : Library} → Beta.ArgoCdApplicationSet l → Alpha.ArgoCdApplicationSet l
unfolding convert_beta_to_alpha_webhook_server
convert_beta_to_alpha_application_set src = record {
  env = src.env;
  extra_command_args = src.extra_command_args;
  image = src.image;
  version = src.version;
  resources = src.resources;
  log_level = src.log_level;
  webhook_server = convert_beta_to_alpha_webhook_server src.webhook_server;
}

unfoldable pub convert_beta_to_alpha_grafana :
    {l : Library} → ArgoCdGrafanaSpec l → ArgoCdGrafanaSpec l
convert_beta_to_alpha_grafana src = record {
  enabled = src.enabled;
  host = src.host;
  image = src.image;
  ingress = src.ingress;
  resources = none;
  route = no_route;
  size = none;
  version = "";
}

unfoldable pub convert_beta_to_alpha_prometheus :
    {l : Library} → ArgoCdPrometheusSpec l → ArgoCdPrometheusSpec l
convert_beta_to_alpha_prometheus src = record {
  enabled = src.enabled;
  host = src.host;
  ingress = src.ingress;
  route = src.route;
  size = src.size;
}

unfoldable pub convert_beta_to_alpha_dex :
    {l : Library} → Beta.ArgoCdDexSpec l → Alpha.ArgoCdDexSpec l
convert_beta_to_alpha_dex src = record {
  config = src.config;
  groups = src.groups;
  image = src.image;
  open_shift_o_auth = src.open_shift_o_auth;
  resources = src.resources;
  version = src.version;
}

unfoldable pub convert_beta_to_alpha_sso :
    {l : Library} → Beta.ArgoCdSsoSpec l → Alpha.ArgoCdSsoSpec l
unfolding convert_beta_to_alpha_dex
convert_beta_to_alpha_sso src = record {
  provider = src.provider;
  dex = map_option convert_beta_to_alpha_dex src.dex;
  keycloak = src.keycloak;
  image = "";
  resources = none;
  verify_tls = none;
  version = "";
}

unfoldable pub convert_beta_to_alpha_ha : {l : Library} → ArgoCdHaSpec l → ArgoCdHaSpec l
convert_beta_to_alpha_ha src = record {
  enabled = src.enabled;
  redis_proxy_image = src.redis_proxy_image;
  redis_proxy_version = src.redis_proxy_version;
  resources = src.resources;
}

unfoldable pub convert_beta_to_alpha_tls : ArgoCdTlsSpec → ArgoCdTlsSpec
convert_beta_to_alpha_tls src = record { ca = src.ca; initial_certs = src.initial_certs }

unfoldable pub convert_beta_to_alpha_grpc :
    {l : Library} → ArgoCdServerGrpcSpec l → ArgoCdServerGrpcSpec l
convert_beta_to_alpha_grpc src = record { host = src.host; ingress = src.ingress }

unfoldable pub convert_beta_to_alpha_server :
    {l : Library} → Beta.ArgoCdServerSpec l → Alpha.ArgoCdServerSpec l
unfolding convert_beta_to_alpha_grpc
convert_beta_to_alpha_server src = record {
  autoscale = src.autoscale;
  grpc = convert_beta_to_alpha_grpc src.grpc;
  host = src.host;
  ingress = src.ingress;
  insecure = src.insecure;
  log_level = src.log_level;
  log_format = src.log_format;
  replicas = src.replicas;
  resources = src.resources;
  route = src.route;
  service = src.service;
  env = src.env;
  extra_command_args = src.extra_command_args;
}

unfoldable pub convert_beta_to_alpha_kustomize_versions :
    KustomizeVersionSpec → KustomizeVersionSpec
convert_beta_to_alpha_kustomize_versions src = record { version = src.version; path = src.path }

unfoldable pub convert_beta_to_alpha_resource_identifiers :
    ResourceIdentifiers → ResourceIdentifiers
convert_beta_to_alpha_resource_identifiers src = record {
  group = src.group;
  kind = src.kind;
  customization = src.customization;
}

unfoldable pub convert_beta_to_alpha_resource_ignore_differences :
    ResourceIgnoreDifference → ResourceIgnoreDifference
unfolding convert_beta_to_alpha_resource_identifiers
convert_beta_to_alpha_resource_ignore_differences src = record {
  all = src.all;
  resource_identifiers = map convert_beta_to_alpha_resource_identifiers src.resource_identifiers;
}

unfoldable pub convert_beta_to_alpha_resource_actions : ResourceAction → ResourceAction
convert_beta_to_alpha_resource_actions src = record {
  group = src.group;
  kind = src.kind;
  action = src.action;
}

unfoldable pub convert_beta_to_alpha_resource_health_checks :
    ResourceHealthCheck → ResourceHealthCheck
convert_beta_to_alpha_resource_health_checks src = record {
  group = src.group;
  kind = src.kind;
  check = src.check;
}

unfoldable pub convert_beta_to_alpha_redis :
    {l : Library} → Beta.ArgoCdRedisSpec l → Alpha.ArgoCdRedisSpec l
convert_beta_to_alpha_redis src = record {
  image = src.image;
  resources = src.resources;
  version = src.version;
  disable_tls_verification = src.disable_tls_verification;
  auto_tls = src.auto_tls;
}

unfoldable pub convert_beta_to_alpha_repo :
    {l : Library} → Beta.ArgoCdRepoSpec l → Alpha.ArgoCdRepoSpec l
convert_beta_to_alpha_repo src = record {
  extra_repo_command_args = src.extra_repo_command_args;
  log_level = src.log_level;
  log_format = src.log_format;
  mount_sa_token = src.mount_sa_token;
  replicas = src.replicas;
  resources = src.resources;
  service_account = src.service_account;
  verify_tls = src.verify_tls;
  auto_tls = src.auto_tls;
  image = src.image;
  version = src.version;
  exec_timeout = src.exec_timeout;
  env = src.env;
  volumes = src.volumes;
  volume_mounts = src.volume_mounts;
  init_containers = src.init_containers;
  sidecar_containers = src.sidecar_containers;
}
