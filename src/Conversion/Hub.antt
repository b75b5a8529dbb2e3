-- ===== src/Conversion/Hub.antt =====
-- api/v1alpha1/argocd_conversion.go: the methods ConvertTo and ConvertFrom, which the conversion
-- webhook calls. `TypeMeta` is the webhook's, and no part of the model.
pub mod RoundTrip
pub mod Stable
pub mod SingleSignOn
mod Tests
use argocd_vee.Common.{
  String, Bool, true, false, not, ◌&&◌, ◌||◌, Option, none, some, List, [], map, map_option, ◌==◌,
  string_eq, if◌then◌else◌, is_set, is_empty,
}
use argocd_vee.Api.{provider_dex}
use argocd_vee.Conversion.Shared.{Library, ArgoCdKeycloakSpec}
use argocd_vee.Conversion.Alpha
use argocd_vee.Conversion.Beta
use argocd_vee.Conversion.ToBeta.{
  convert_alpha_to_beta_application_set, convert_alpha_to_beta_controller,
  convert_alpha_to_beta_dex, convert_alpha_to_beta_grafana, convert_alpha_to_beta_ha,
  convert_alpha_to_beta_kustomize_versions, convert_alpha_to_beta_prometheus,
  convert_alpha_to_beta_redis, convert_alpha_to_beta_repo, convert_alpha_to_beta_resource_actions,
  convert_alpha_to_beta_resource_health_checks, convert_alpha_to_beta_resource_ignore_differences,
  convert_alpha_to_beta_server, convert_alpha_to_beta_sso, convert_alpha_to_beta_tls,
}
use argocd_vee.Conversion.ToAlpha.{
  convert_beta_to_alpha_application_set, convert_beta_to_alpha_controller,
  convert_beta_to_alpha_grafana, convert_beta_to_alpha_ha, convert_beta_to_alpha_kustomize_versions,
  convert_beta_to_alpha_prometheus, convert_beta_to_alpha_redis, convert_beta_to_alpha_repo,
  convert_beta_to_alpha_resource_actions, convert_beta_to_alpha_resource_health_checks,
  convert_beta_to_alpha_resource_ignore_differences, convert_beta_to_alpha_server,
  convert_beta_to_alpha_tls, convert_beta_to_alpha_sso,
}

abbrev empty_keycloak : {l : Library} → ArgoCdKeycloakSpec l
empty_keycloak = record {
  image = "";
  resources = none;
  root_ca = "";
  version = "";
  verify_tls = none;
  host = "";
}

abbrev pub keycloak_or_empty : {l : Library} → Option (ArgoCdKeycloakSpec l) → ArgoCdKeycloakSpec l
keycloak_or_empty none = empty_keycloak
keycloak_or_empty (some k) = k

abbrev empty_sso : {l : Library} → Beta.ArgoCdSsoSpec l
empty_sso = record { provider = ""; dex = none; keycloak = none }

abbrev pub sso_or_empty : {l : Library} → Option (Beta.ArgoCdSsoSpec l) → Beta.ArgoCdSsoSpec l
sso_or_empty none = empty_sso
sso_or_empty (some sso) = sso

-- `reflect.DeepEqual(src.Spec.SSO, &ArgoCDSSOSpec{})`
pub is_zero_sso : {l : Library} → Alpha.ArgoCdSsoSpec l → Bool
is_zero_sso src =
    src.provider == ""
    && not (is_set src.dex)
    && not (is_set src.keycloak)
    && src.image == ""
    && not (is_set src.resources)
    && not (is_set src.verify_tls)
    && src.version == ""

-- Whether a deprecated field of Keycloak is in use.
pub has_deprecated_keycloak : {l : Library} → Alpha.ArgoCdSsoSpec l → Bool
has_deprecated_keycloak src =
    not (src.image == "")
    || not (src.version == "")
    || is_set src.verify_tls
    || is_set src.resources

-- The deprecated fields override those of `sso.keycloak`.
pub with_deprecated_keycloak :
    {l : Library} → Alpha.ArgoCdSsoSpec l → Beta.ArgoCdSsoSpec l → Beta.ArgoCdSsoSpec l
with_deprecated_keycloak src sso = record sso {
  keycloak = some (record (keycloak_or_empty sso.keycloak) {
    image = src.image;
    version = src.version;
    verify_tls = src.verify_tls;
    resources = src.resources;
  });
}

unfoldable pub merge_keycloak :
    {l : Library} → Alpha.ArgoCdSsoSpec l → Beta.ArgoCdSsoSpec l → Beta.ArgoCdSsoSpec l
unfolding has_deprecated_keycloak with_deprecated_keycloak is_zero_sso
merge_keycloak src sso =
    if not (is_zero_sso src)
    then (if has_deprecated_keycloak src then with_deprecated_keycloak src sso else sso)
    else sso

-- `reflect.DeepEqual(src.Spec.Dex, &ArgoCDDexSpec{})`
pub is_zero_dex : {l : Library} → Alpha.ArgoCdDexSpec l → Bool
is_zero_dex src =
    src.config == ""
    && is_empty src.groups
    && src.image == ""
    && not src.open_shift_o_auth
    && not (is_set src.resources)
    && src.version == ""

-- The deprecated `.spec.dex` overrides `.spec.sso.dex`, if it is configured.
unfoldable pub merge_dex :
    {l : Library}
    → Option (Alpha.ArgoCdDexSpec l)
    → Option (Beta.ArgoCdSsoSpec l)
    → Option (Beta.ArgoCdSsoSpec l)
unfolding is_zero_dex convert_alpha_to_beta_dex
merge_dex none sso = sso
merge_dex (some src) sso =
    if not (is_zero_dex src) && (not (src.config == "") || src.open_shift_o_auth)
    then some (record (sso_or_empty sso) {
      provider = provider_dex;
      dex = some (convert_alpha_to_beta_dex src);
    })
    else sso

unfoldable pub convert_sso : {l : Library} → Alpha.ArgoCdSpec l → Option (Beta.ArgoCdSsoSpec l)
unfolding merge_keycloak merge_dex convert_alpha_to_beta_sso
convert_sso src =
    merge_dex src.dex (map_option (λ s. merge_keycloak s (convert_alpha_to_beta_sso s)) src.sso)

unfoldable pub convert_spec_to : {l : Library} → Alpha.ArgoCdSpec l → Beta.ArgoCdSpec l
unfolding convert_alpha_to_beta_application_set convert_alpha_to_beta_controller
    convert_alpha_to_beta_grafana convert_alpha_to_beta_ha convert_alpha_to_beta_kustomize_versions
    convert_alpha_to_beta_prometheus convert_alpha_to_beta_redis convert_alpha_to_beta_repo
    convert_alpha_to_beta_resource_actions convert_alpha_to_beta_resource_health_checks
    convert_alpha_to_beta_resource_ignore_differences convert_alpha_to_beta_server
    convert_alpha_to_beta_tls convert_sso
convert_spec_to src = record {
  application_set = map_option convert_alpha_to_beta_application_set src.application_set;
  application_instance_label_key = src.application_instance_label_key;
  config_management_plugins = src.config_management_plugins;
  controller = convert_alpha_to_beta_controller src.controller;
  disable_admin = src.disable_admin;
  extra_config = src.extra_config;
  ga_tracking_id = src.ga_tracking_id;
  ga_anonymize_users = src.ga_anonymize_users;
  grafana = convert_alpha_to_beta_grafana src.grafana;
  ha = convert_alpha_to_beta_ha src.ha;
  help_chat_url = src.help_chat_url;
  help_chat_text = src.help_chat_text;
  image = src.image;
  import = src.import;
  initial_repositories = src.initial_repositories;
  initial_ssh_known_hosts = src.initial_ssh_known_hosts;
  kustomize_build_options = src.kustomize_build_options;
  kustomize_versions = map convert_alpha_to_beta_kustomize_versions src.kustomize_versions;
  oidc_config = src.oidc_config;
  monitoring = src.monitoring;
  node_placement = src.node_placement;
  notifications = src.notifications;
  prometheus = convert_alpha_to_beta_prometheus src.prometheus;
  rbac = src.rbac;
  redis = convert_alpha_to_beta_redis src.redis;
  repo = convert_alpha_to_beta_repo src.repo;
  repository_credentials = src.repository_credentials;
  resource_health_checks =
      map convert_alpha_to_beta_resource_health_checks src.resource_health_checks;
  resource_ignore_differences =
      map_option convert_alpha_to_beta_resource_ignore_differences src.resource_ignore_differences;
  resource_actions = map convert_alpha_to_beta_resource_actions src.resource_actions;
  resource_exclusions = src.resource_exclusions;
  resource_inclusions = src.resource_inclusions;
  resource_tracking_method = src.resource_tracking_method;
  server = convert_alpha_to_beta_server src.server;
  source_namespaces = src.source_namespaces;
  sso = convert_sso src;
  status_badge_enabled = src.status_badge_enabled;
  tls = convert_alpha_to_beta_tls src.tls;
  users_anonymous_enabled = src.users_anonymous_enabled;
  version = src.version;
  banner = src.banner;
  default_cluster_scoped_role_disabled = src.default_cluster_scoped_role_disabled;
  aggregated_cluster_roles = src.aggregated_cluster_roles;
}

-- Every field of the destination is assigned.
unfoldable pub convert_to : {l : Library} → Alpha.ArgoCd l → Beta.ArgoCd l
unfolding convert_spec_to
convert_to src = record {
  object_meta = src.object_meta;
  spec = convert_spec_to src.spec;
  status = src.status;
}

-- The fields that are not assigned keep what the destination has.
unfoldable pub convert_spec_from :
    {l : Library} → Alpha.ArgoCdSpec l → Beta.ArgoCdSpec l → Alpha.ArgoCdSpec l
unfolding convert_beta_to_alpha_application_set convert_beta_to_alpha_controller
    convert_beta_to_alpha_grafana convert_beta_to_alpha_ha convert_beta_to_alpha_kustomize_versions
    convert_beta_to_alpha_prometheus convert_beta_to_alpha_redis convert_beta_to_alpha_repo
    convert_beta_to_alpha_resource_actions convert_beta_to_alpha_resource_health_checks
    convert_beta_to_alpha_resource_ignore_differences convert_beta_to_alpha_server
    convert_beta_to_alpha_tls convert_beta_to_alpha_sso
convert_spec_from dst src = record {
  application_set = map_option convert_beta_to_alpha_application_set src.application_set;
  application_instance_label_key = src.application_instance_label_key;
  config_management_plugins = src.config_management_plugins;
  controller = convert_beta_to_alpha_controller src.controller;
  disable_admin = src.disable_admin;
  extra_config = src.extra_config;
  ga_tracking_id = src.ga_tracking_id;
  ga_anonymize_users = src.ga_anonymize_users;
  grafana = convert_beta_to_alpha_grafana src.grafana;
  ha = convert_beta_to_alpha_ha src.ha;
  help_chat_url = src.help_chat_url;
  help_chat_text = src.help_chat_text;
  image = src.image;
  import = src.import;
  initial_repositories = src.initial_repositories;
  initial_ssh_known_hosts = src.initial_ssh_known_hosts;
  kustomize_build_options = src.kustomize_build_options;
  kustomize_versions = map convert_beta_to_alpha_kustomize_versions src.kustomize_versions;
  oidc_config = src.oidc_config;
  monitoring = src.monitoring;
  node_placement = src.node_placement;
  notifications = src.notifications;
  prometheus = convert_beta_to_alpha_prometheus src.prometheus;
  rbac = src.rbac;
  redis = convert_beta_to_alpha_redis src.redis;
  repo = convert_beta_to_alpha_repo src.repo;
  repository_credentials = src.repository_credentials;
  resource_customizations = dst.resource_customizations;
  resource_health_checks =
      map convert_beta_to_alpha_resource_health_checks src.resource_health_checks;
  resource_ignore_differences =
      map_option convert_beta_to_alpha_resource_ignore_differences src.resource_ignore_differences;
  resource_actions = map convert_beta_to_alpha_resource_actions src.resource_actions;
  resource_exclusions = src.resource_exclusions;
  resource_inclusions = src.resource_inclusions;
  resource_tracking_method = src.resource_tracking_method;
  server = convert_beta_to_alpha_server src.server;
  source_namespaces = src.source_namespaces;
  sso = map_option convert_beta_to_alpha_sso src.sso;
  status_badge_enabled = src.status_badge_enabled;
  tls = convert_beta_to_alpha_tls src.tls;
  users_anonymous_enabled = src.users_anonymous_enabled;
  version = src.version;
  banner = src.banner;
  dex = dst.dex;
  default_cluster_scoped_role_disabled = src.default_cluster_scoped_role_disabled;
  aggregated_cluster_roles = src.aggregated_cluster_roles;
}

unfoldable pub convert_from : {l : Library} → Alpha.ArgoCd l → Beta.ArgoCd l → Alpha.ArgoCd l
unfolding convert_spec_from
convert_from dst src = record {
  object_meta = src.object_meta;
  spec = convert_spec_from dst.spec src.spec;
  status = src.status;
}
