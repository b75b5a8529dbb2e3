-- ===== src/Conversion/Hub/Tests.antt =====
-- api/v1alpha1/argocd_conversion.go: small resources, and the theorems at them.
use argocd_vee.Common.{◌≡◌, refl, ◌↔◌, inr, String, true, false, none, some, [], pos}
use argocd_vee.Kube.{ClusterApis}
use argocd_vee.Conversion.Shared.{Library, ArgoCdStatus}
use argocd_vee.Conversion.Alpha
use argocd_vee.Conversion.Beta
use argocd_vee.Conversion.Hub.{convert_to, convert_from, convert_sso}
use argocd_vee.Conversion.Hub.RoundTrip.{forget_spec, convert_to-convert_from}
use argocd_vee.Conversion.Hub.Stable.{convert_to_stable}
use argocd_vee.Conversion.Hub.SingleSignOn.{IsAccepted, HasNoKeycloak, convert_sso-IsAccepted}

-- A text for every value of a library's type.
abbrev texts : Library
texts = record {
  ResourceRequirements = String;
  EnvVar = String;
  Container = String;
  Volume = String;
  VolumeMount = String;
  Duration = String;
  Toleration = String;
  IngressTls = String;
  TlsConfig = String;
  WildcardPolicyType = String;
  HorizontalPodAutoscalerSpec = String;
  ServiceType = String;
  ObjectMeta = String;
}

abbrev empty_alpha : Alpha.ArgoCdSpec texts
empty_alpha = record {
  application_set = none;
  application_instance_label_key = "";
  config_management_plugins = "";
  controller = record {
    processors = record { operation = pos 0; status = pos 0 };
    log_level = "";
    log_format = "";
    resources = none;
    parallelism_limit = pos 0;
    app_sync = none;
    sharding = record {
      enabled = false;
      replicas = pos 0;
      dynamic_scaling_enabled = none;
      min_shards = pos 0;
      max_shards = pos 0;
      clusters_per_shard = pos 0;
    };
    env = [];
  };
  disable_admin = false;
  extra_config = [];
  ga_tracking_id = "";
  ga_anonymize_users = false;
  grafana = record {
    enabled = false;
    host = "";
    image = "";
    ingress = record {
      annotations = [];
      enabled = false;
      ingress_class_name = none;
      path = "";
      tls = [];
    };
    resources = none;
    route = record {
      annotations = [];
      labels = [];
      enabled = false;
      path = "";
      tls = none;
      wildcard_policy = none;
    };
    size = none;
    version = "";
  };
  ha = record {
    enabled = false;
    redis_proxy_image = "";
    redis_proxy_version = "";
    resources = none;
  };
  help_chat_url = "";
  help_chat_text = "";
  image = "";
  import = none;
  initial_repositories = "";
  initial_ssh_known_hosts = record { exclude_default_hosts = false; keys = "" };
  kustomize_build_options = "";
  kustomize_versions = [];
  oidc_config = "";
  monitoring = record { enabled = false; disable_metrics = none };
  node_placement = none;
  notifications = record {
    replicas = none;
    enabled = false;
    env = [];
    image = "";
    version = "";
    resources = none;
    log_level = "";
  };
  prometheus = record {
    enabled = false;
    host = "";
    ingress = record {
      annotations = [];
      enabled = false;
      ingress_class_name = none;
      path = "";
      tls = [];
    };
    route = record {
      annotations = [];
      labels = [];
      enabled = false;
      path = "";
      tls = none;
      wildcard_policy = none;
    };
    size = none;
  };
  rbac = record { default_policy = none; policy = none; scopes = none; policy_matcher_mode = none };
  redis = record {
    image = "";
    resources = none;
    version = "";
    disable_tls_verification = false;
    auto_tls = "";
  };
  repo = record {
    extra_repo_command_args = [];
    log_level = "";
    log_format = "";
    mount_sa_token = false;
    replicas = none;
    resources = none;
    service_account = "";
    verify_tls = false;
    auto_tls = "";
    image = "";
    version = "";
    exec_timeout = none;
    env = [];
    volumes = [];
    volume_mounts = [];
    init_containers = [];
    sidecar_containers = [];
  };
  repository_credentials = "";
  resource_customizations = "";
  resource_health_checks = [];
  resource_ignore_differences = none;
  resource_actions = [];
  resource_exclusions = "";
  resource_inclusions = "";
  resource_tracking_method = "";
  server = record {
    autoscale = record { enabled = false; hpa = none };
    grpc = record {
      host = "";
      ingress = record {
        annotations = [];
        enabled = false;
        ingress_class_name = none;
        path = "";
        tls = [];
      };
    };
    host = "";
    ingress = record {
      annotations = [];
      enabled = false;
      ingress_class_name = none;
      path = "";
      tls = [];
    };
    insecure = false;
    log_level = "";
    log_format = "";
    replicas = none;
    resources = none;
    route = record {
      annotations = [];
      labels = [];
      enabled = false;
      path = "";
      tls = none;
      wildcard_policy = none;
    };
    service = record { type = "" };
    env = [];
    extra_command_args = [];
  };
  source_namespaces = [];
  sso = none;
  status_badge_enabled = false;
  tls = record { ca = record { config_map_name = ""; secret_name = "" }; initial_certs = [] };
  users_anonymous_enabled = false;
  version = "";
  banner = none;
  dex = none;
  default_cluster_scoped_role_disabled = false;
  aggregated_cluster_roles = false;
}

abbrev empty_beta : Beta.ArgoCdSpec texts
empty_beta = record {
  application_set = none;
  application_instance_label_key = "";
  config_management_plugins = "";
  controller = record {
    init_containers = [];
    processors = record { operation = pos 0; status = pos 0 };
    log_level = "";
    log_format = "";
    resources = none;
    parallelism_limit = pos 0;
    app_sync = none;
    sharding = record {
      enabled = false;
      replicas = pos 0;
      dynamic_scaling_enabled = none;
      min_shards = pos 0;
      max_shards = pos 0;
      clusters_per_shard = pos 0;
    };
    sidecar_containers = [];
    env = [];
    enabled = none;
    extra_command_args = [];
    volumes = [];
    volume_mounts = [];
  };
  disable_admin = false;
  extra_config = [];
  ga_tracking_id = "";
  ga_anonymize_users = false;
  grafana = record {
    enabled = false;
    host = "";
    image = "";
    ingress = record {
      annotations = [];
      enabled = false;
      ingress_class_name = none;
      path = "";
      tls = [];
    };
    resources = none;
    route = record {
      annotations = [];
      labels = [];
      enabled = false;
      path = "";
      tls = none;
      wildcard_policy = none;
    };
    size = none;
    version = "";
  };
  ha = record {
    enabled = false;
    redis_proxy_image = "";
    redis_proxy_version = "";
    resources = none;
  };
  help_chat_url = "";
  help_chat_text = "";
  image = "";
  import = none;
  initial_repositories = "";
  initial_ssh_known_hosts = record { exclude_default_hosts = false; keys = "" };
  kustomize_build_options = "";
  kustomize_versions = [];
  oidc_config = "";
  monitoring = record { enabled = false; disable_metrics = none };
  node_placement = none;
  notifications = record {
    replicas = none;
    enabled = false;
    env = [];
    image = "";
    version = "";
    resources = none;
    log_level = "";
  };
  prometheus = record {
    enabled = false;
    host = "";
    ingress = record {
      annotations = [];
      enabled = false;
      ingress_class_name = none;
      path = "";
      tls = [];
    };
    route = record {
      annotations = [];
      labels = [];
      enabled = false;
      path = "";
      tls = none;
      wildcard_policy = none;
    };
    size = none;
  };
  rbac = record { default_policy = none; policy = none; scopes = none; policy_matcher_mode = none };
  redis = record {
    image = "";
    resources = none;
    version = "";
    disable_tls_verification = false;
    auto_tls = "";
    enabled = none;
    remote = none;
  };
  repo = record {
    extra_repo_command_args = [];
    log_level = "";
    log_format = "";
    mount_sa_token = false;
    replicas = none;
    resources = none;
    service_account = "";
    verify_tls = false;
    auto_tls = "";
    image = "";
    version = "";
    exec_timeout = none;
    env = [];
    volumes = [];
    volume_mounts = [];
    init_containers = [];
    sidecar_containers = [];
    enabled = none;
    remote = none;
  };
  repository_credentials = "";
  resource_health_checks = [];
  resource_ignore_differences = none;
  resource_actions = [];
  resource_exclusions = "";
  resource_inclusions = "";
  resource_tracking_method = "";
  server = record {
    autoscale = record { enabled = false; hpa = none };
    grpc = record {
      host = "";
      ingress = record {
        annotations = [];
        enabled = false;
        ingress_class_name = none;
        path = "";
        tls = [];
      };
    };
    init_containers = [];
    host = "";
    ingress = record {
      annotations = [];
      enabled = false;
      ingress_class_name = none;
      path = "";
      tls = [];
    };
    insecure = false;
    log_level = "";
    log_format = "";
    replicas = none;
    resources = none;
    route = record {
      annotations = [];
      labels = [];
      enabled = false;
      path = "";
      tls = none;
      wildcard_policy = none;
    };
    service = record { type = "" };
    sidecar_containers = [];
    env = [];
    extra_command_args = [];
    enabled = none;
    volumes = [];
    volume_mounts = [];
  };
  source_namespaces = [];
  sso = none;
  status_badge_enabled = false;
  tls = record { ca = record { config_map_name = ""; secret_name = "" }; initial_certs = [] };
  users_anonymous_enabled = false;
  version = "";
  banner = none;
  default_cluster_scoped_role_disabled = false;
  aggregated_cluster_roles = false;
}

abbrev no_status : ArgoCdStatus
no_status = record {
  application_controller = "";
  application_set_controller = "";
  sso = "";
  notifications_controller = "";
  phase = "";
  redis = "";
  repo = "";
  server = "";
  repo_tls_checksum = "";
  redis_tls_checksum = "";
  host = "";
}

abbrev fresh : Alpha.ArgoCd texts
fresh = record { object_meta = ""; spec = empty_alpha; status = no_status }

-- Redis is remote, and the controller is disabled.
abbrev remote_redis : Beta.ArgoCd texts
remote_redis = record {
  object_meta = "argocd";
  spec = record empty_beta {
    redis = record (empty_beta.redis) { enabled = some true; remote = some "redis:6379" };
    controller = record (empty_beta.controller) { enabled = some false };
  };
  status = no_status;
}

abbrev old_dex : Alpha.ArgoCdDexSpec texts
old_dex = record {
  config = "";
  groups = [];
  image = "";
  open_shift_o_auth = true;
  resources = none;
  version = "";
}

abbrev with_old_dex : Alpha.ArgoCdSpec texts
with_old_dex = record empty_alpha {
  dex = some old_dex;
  sso = some (record {
    provider = "keycloak";
    dex = none;
    keycloak = none;
    image = "keycloak:1";
    resources = none;
    verify_tls = none;
    version = "";
  });
}

abbrev plain : ClusterApis
plain = record {
  route_api_found = false;
  template_api_found = false;
  deployment_config_api_found = false;
}

convert_to-convert_from_example :
    convert_to (convert_from fresh remote_redis)
    ≡ record remote_redis { spec = forget_spec remote_redis.spec }
convert_to-convert_from_example = convert_to-convert_from fresh remote_redis refl

convert_to_stable_example :
    convert_to (convert_from fresh (convert_to (record fresh { spec = with_old_dex })))
    ≡ convert_to (record fresh { spec = with_old_dex })
convert_to_stable_example = convert_to_stable fresh (record fresh { spec = with_old_dex }) refl

convert_sso-IsAccepted_example :
    IsAccepted plain (convert_sso with_old_dex) ↔ HasNoKeycloak with_old_dex.sso
convert_sso-IsAccepted_example = convert_sso-IsAccepted plain with_old_dex old_dex refl (inr refl)

-- The address of the remote redis does not survive, and the controller comes back enabled.
remote_is_lost : (convert_to (convert_from fresh remote_redis)).spec.redis.remote ≡ none
unfolding convert_to convert_from
remote_is_lost = refl

controller_is_enabled :
    (convert_to (convert_from fresh remote_redis)).spec.controller.enabled ≡ none
unfolding convert_to convert_from
controller_is_enabled = refl
