-- ===== src/Api.antt =====
-- api/v1beta1/argocd_types.go: the custom resource ArgoCD, with the fields that the modelled code
-- reads or writes. A pointer is an `Option`.
use argocd_vee.Common.{String, Bool, true, false, Option, none, some, to_lower, ◌==◌, string_eq}

pub record ArgoCdDexSpec : Type 0 where
  pub config : String
  pub open_shift_o_auth : Bool

pub record ArgoCdKeycloakSpec : Type 0 where
  pub image : String
  pub host : String

pub record ArgoCdSsoSpec : Type 0 where
  pub provider : String
  pub dex : Option ArgoCdDexSpec
  pub keycloak : Option ArgoCdKeycloakSpec

-- The part that Controller, Redis, Repo and Server share: `Enabled *bool`.
abbrev pub is_enabled : Option Bool → Bool
is_enabled none = true
is_enabled (some b) = b

pub record ArgoCdRedisSpec : Type 0 where
  pub enabled : Option Bool
  pub remote : Option String

pub record ArgoCdServerSpec : Type 0 where
  pub enabled : Option Bool
  pub ingress_enabled : Bool
  pub route_enabled : Bool

pub record ArgoCdSpec : Type 0 where
  pub controller_enabled : Option Bool
  pub ha_enabled : Bool
  pub notifications_enabled : Bool
  pub redis : ArgoCdRedisSpec
  pub repo_enabled : Option Bool
  pub server : ArgoCdServerSpec
  pub sso : Option ArgoCdSsoSpec

pub record ArgoCdStatus : Type 0 where
  pub application_controller : String
  pub application_set_controller : String
  pub sso : String
  pub notifications_controller : String
  pub phase : String
  pub redis : String
  pub repo : String
  pub server : String
  pub host : String

pub record ArgoCd : Type 0 where
  pub name : String
  pub namespace : String
  pub spec : ArgoCdSpec
  pub status : ArgoCdStatus

abbrev pub provider_dex : String
provider_dex = "dex"

abbrev pub provider_keycloak : String
provider_keycloak = "keycloak"

-- `cr.Spec.SSO != nil && cr.Spec.SSO.Provider.ToLower() == p`
unfoldable pub provider_is : String → Option ArgoCdSsoSpec → Bool
provider_is p none = false
provider_is p (some sso) = to_lower sso.provider == p
