-- ===== src/Conversion/Shared.antt =====
-- api/v1alpha1/argocd_types.go and api/v1beta1/argocd_types.go: the types whose fields are the same
-- in both versions; they are one record here. A nil slice and an empty one are the same list.
use argocd_vee.Common.{String, Bool, false, Option, none, List, [], ℤ}

-- The types of libraries that stand in the resource; a conversion only copies their values.
pub record Library : Type 1 where
  pub ResourceRequirements : Type 0
  pub EnvVar : Type 0
  pub Container : Type 0
  pub Volume : Type 0
  pub VolumeMount : Type 0
  pub Duration : Type 0
  pub Toleration : Type 0
  pub IngressTls : Type 0
  pub TlsConfig : Type 0
  pub WildcardPolicyType : Type 0
  pub HorizontalPodAutoscalerSpec : Type 0
  pub ServiceType : Type 0
  pub ObjectMeta : Type 0

pub record ArgoCdApplicationControllerProcessorsSpec : Type 0 where
  pub operation : ℤ
  pub status : ℤ

pub record ArgoCdApplicationControllerShardSpec : Type 0 where
  pub enabled : Bool
  pub replicas : ℤ
  pub dynamic_scaling_enabled : Option Bool
  pub min_shards : ℤ
  pub max_shards : ℤ
  pub clusters_per_shard : ℤ

pub record ArgoCdCaSpec : Type 0 where
  pub config_map_name : String
  pub secret_name : String

pub record ArgoCdIngressSpec (l : Library) : Type 0 where
  pub annotations : List (String × String)
  pub enabled : Bool
  pub ingress_class_name : Option String
  pub path : String
  pub tls : List l.IngressTls

pub record ArgoCdRouteSpec (l : Library) : Type 0 where
  pub annotations : List (String × String)
  pub labels : List (String × String)
  pub enabled : Bool
  pub path : String
  pub tls : Option l.TlsConfig
  pub wildcard_policy : Option l.WildcardPolicyType

pub record ArgoCdGrafanaSpec (l : Library) : Type 0 where
  pub enabled : Bool
  pub host : String
  pub image : String
  pub ingress : ArgoCdIngressSpec l
  pub resources : Option l.ResourceRequirements
  pub route : ArgoCdRouteSpec l
  pub size : Option ℤ
  pub version : String

pub record ArgoCdHaSpec (l : Library) : Type 0 where
  pub enabled : Bool
  pub redis_proxy_image : String
  pub redis_proxy_version : String
  pub resources : Option l.ResourceRequirements

pub record ArgoCdImportSpec : Type 0 where
  pub name : String
  pub namespace : Option String

pub record ArgoCdKeycloakSpec (l : Library) : Type 0 where
  pub image : String
  pub resources : Option l.ResourceRequirements
  pub root_ca : String
  pub version : String
  pub verify_tls : Option Bool
  pub host : String

pub record ArgoCdNotifications (l : Library) : Type 0 where
  pub replicas : Option ℤ
  pub enabled : Bool
  pub env : List l.EnvVar
  pub image : String
  pub version : String
  pub resources : Option l.ResourceRequirements
  pub log_level : String

pub record ArgoCdPrometheusSpec (l : Library) : Type 0 where
  pub enabled : Bool
  pub host : String
  pub ingress : ArgoCdIngressSpec l
  pub route : ArgoCdRouteSpec l
  pub size : Option ℤ

pub record ArgoCdRbacSpec : Type 0 where
  pub default_policy : Option String
  pub policy : Option String
  pub scopes : Option String
  pub policy_matcher_mode : Option String

pub record ArgoCdServerAutoscaleSpec (l : Library) : Type 0 where
  pub enabled : Bool
  pub hpa : Option l.HorizontalPodAutoscalerSpec

pub record ArgoCdServerGrpcSpec (l : Library) : Type 0 where
  pub host : String
  pub ingress : ArgoCdIngressSpec l

pub record ArgoCdServerServiceSpec (l : Library) : Type 0 where
  pub type : l.ServiceType

pub record ResourceHealthCheck : Type 0 where
  pub group : String
  pub kind : String
  pub check : String

pub record IgnoreDifferenceCustomization : Type 0 where
  pub jq_path_expressions : List String
  pub json_pointers : List String
  pub managed_fields_managers : List String

pub record ResourceIdentifiers : Type 0 where
  pub group : String
  pub kind : String
  pub customization : IgnoreDifferenceCustomization

pub record ResourceIgnoreDifference : Type 0 where
  pub all : Option IgnoreDifferenceCustomization
  pub resource_identifiers : List ResourceIdentifiers

pub record ResourceAction : Type 0 where
  pub group : String
  pub kind : String
  pub action : String

pub record KustomizeVersionSpec : Type 0 where
  pub version : String
  pub path : String

pub record ArgoCdMonitoringSpec : Type 0 where
  pub enabled : Bool
  pub disable_metrics : Option Bool

pub record ArgoCdNodePlacementSpec (l : Library) : Type 0 where
  pub node_selector : List (String × String)
  pub tolerations : List l.Toleration

pub record Banner : Type 0 where
  pub content : String
  pub url : String

pub record ArgoCdTlsSpec : Type 0 where
  pub ca : ArgoCdCaSpec
  pub initial_certs : List (String × String)

pub record SshHostsSpec : Type 0 where
  pub exclude_default_hosts : Bool
  pub keys : String

pub record WebhookServerSpec (l : Library) : Type 0 where
  pub host : String
  pub ingress : ArgoCdIngressSpec l
  pub route : ArgoCdRouteSpec l

pub record ArgoCdStatus : Type 0 where
  pub application_controller : String
  pub application_set_controller : String
  pub sso : String
  pub notifications_controller : String
  pub phase : String
  pub redis : String
  pub repo : String
  pub server : String
  pub repo_tls_checksum : String
  pub redis_tls_checksum : String
  pub host : String

-- The zero value of a route.
abbrev pub no_route : {l : Library} → ArgoCdRouteSpec l
no_route = record {
  annotations = [];
  labels = [];
  enabled = false;
  path = "";
  tls = none;
  wildcard_policy = none;
}
