-- ===== src/Sso.antt =====
-- controllers/argocd/sso.go: which single-sign-on configurations are legal, and what is done for
-- the provider that is asked for. The reconcilers of the resources of Dex and Keycloak are
-- parameters.
pub mod Legality
pub mod Outcomes
mod Tests
use mathlib.Core.Option.{or_else}
use argocd_vee.Common.{
  String, Bool, true, false, not, ◌&&◌, ◌||◌, Option, none, some, ◌==◌, string_eq,
}
use argocd_vee.Common.{is_set, if◌then◌else◌, to_lower}
use argocd_vee.Effect.{
  Err, not_found, Outcome, ok, err, panic, Step, done, fail, ignore, ◌>>=◌, ◌>>◌,
}
use argocd_vee.Effect.{failure, continue}
use argocd_vee.Api.{
  ArgoCd, ArgoCdSsoSpec, ArgoCdDexSpec, ArgoCdKeycloakSpec, provider_is, provider_dex,
  provider_keycloak,
}
use argocd_vee.Kube.{StatusClient, ClusterApis}
use argocd_vee.Status.{
  State, sso_legal_unknown, sso_legal_success, sso_legal_failed, reconcile_status_sso,
}

-- The errors of reconcileSSO, one for each message.
pub data Illegal : Type 0 where
  no_dex_config keycloak_beside_dex dex_beside_keycloak : Illegal
  template_without_deployment_config spec_without_provider unsupported_provider : Illegal

abbrev pub message : Illegal → String
message no_dex_config =
    "illegal SSO configuration: must supply valid dex configuration when requested SSO provider is dex"
message keycloak_beside_dex =
    "illegal SSO configuration: cannot supply keycloak configuration in .spec.sso.keycloak when requested SSO provider is dex"
message dex_beside_keycloak =
    "illegal SSO configuration: cannot supply dex configuration when requested SSO provider is keycloak"
message template_without_deployment_config =
    "cannot manage Keycloak using Template since the DeploymentConfig API is not found"
message spec_without_provider =
    "illegal SSO configuration: Cannot specify SSO provider spec without specifying SSO provider type"
message unsupported_provider =
    "illegal SSO configuration: Unsupported SSO provider type. Supported providers are dex and keycloak"

-- `Dex == nil || (Dex != nil && !Dex.OpenShiftOAuth && Dex.Config == "")`
pub lacks_dex_config : Option ArgoCdDexSpec → Bool
lacks_dex_config none = true
lacks_dex_config (some dex) = not dex.open_shift_o_auth && dex.config == ""

-- Cases 2 to 5 of the source, each with its own test of the provider.
pub dex_case : ArgoCdSsoSpec → Option Illegal
unfolding lacks_dex_config
dex_case sso =
    if to_lower sso.provider == provider_dex
    then (if lacks_dex_config sso.dex
        then some no_dex_config
        else if is_set sso.keycloak
        then some keycloak_beside_dex
        else none)
    else none

pub keycloak_case : ClusterApis → ArgoCdSsoSpec → Option Illegal
keycloak_case apis sso =
    if to_lower sso.provider == provider_keycloak
    then (if is_set sso.dex
        then some dex_beside_keycloak
        else if apis.template_api_found && not apis.deployment_config_api_found
        then some template_without_deployment_config
        else none)
    else none

pub no_provider_case : ArgoCdSsoSpec → Option Illegal
no_provider_case sso =
    if to_lower sso.provider == "" && (is_set sso.dex || is_set sso.keycloak)
    then some spec_without_provider
    else none

pub unsupported_case : ArgoCdSsoSpec → Option Illegal
unsupported_case sso =
    if not (to_lower sso.provider == provider_dex)
      && not (to_lower sso.provider == provider_keycloak)
    then some unsupported_provider
    else none

-- The first case that finds a conflict.
pub first_conflict : ClusterApis → ArgoCdSsoSpec → Option Illegal
unfolding dex_case keycloak_case no_provider_case unsupported_case or_else
first_conflict apis sso =
    or_else (dex_case sso)
      (or_else (keycloak_case apis sso) (or_else (no_provider_case sso) (unsupported_case sso)))

-- The reconcilers that reconcileSSO calls for the providers.
pub record SsoResources (W : Type 0) : Type 0 where
  pub reconcile_dex_resources : Step (State W)
  pub delete_dex_resources : Step (State W)
  pub reconcile_keycloak_configuration : Step (State W)
  pub delete_keycloak_configuration : Step (State W)

-- `err != nil && !apiErrors.IsNotFound(err)`
abbrev pub drop_not_found : {S : Type 0} → Outcome (Unit {0}) × S → Outcome (Unit {0}) × S
drop_not_found (err not_found, s) = (ok tt, s)
drop_not_found r = r

abbrev pub allow_not_found : {S : Type 0} → Step S → Step S
allow_not_found m s = drop_not_found (m s)

module _ {W : Type 0} (k : StatusClient W) (apis : ClusterApis) (r : SsoResources W) where
  -- An assignment to the global `ssoConfigLegalStatus`.
  pub set_legal : String → Step (State W)
  set_legal word s = done (record s { sso_legal = word })

  -- How an illegal configuration ends: the status is updated, its error dropped but for the case
  -- of the template, and the error is returned.
  pub refuse : Illegal → Step (State W)
  unfolding set_legal
  refuse template_without_deployment_config = do
    set_legal sso_legal_failed
    reconcile_status_sso k apis
    fail (failure (message template_without_deployment_config))
  refuse x = do
    set_legal sso_legal_failed
    ignore (reconcile_status_sso k apis)
    fail (failure (message x))

  -- The resources of the provider, once the configuration is legal.
  pub provide : ArgoCdSsoSpec → Step (State W)
  provide sso =
      if to_lower sso.provider == provider_keycloak
      then (allow_not_found r.reconcile_dex_resources >> r.reconcile_keycloak_configuration)
      else if to_lower sso.provider == provider_dex
      then (allow_not_found r.delete_keycloak_configuration >> r.reconcile_dex_resources)
      else done

  pub settle : Option Illegal → ArgoCdSsoSpec → Step (State W)
  unfolding refuse provide set_legal
  settle (some x) sso = refuse x
  settle none sso = do
    set_legal sso_legal_success
    provide sso
    ignore (reconcile_status_sso k apis)

  pub configure : Option ArgoCdSsoSpec → Step (State W)
  unfolding settle first_conflict
  configure none = done
  configure (some sso) = settle (first_conflict apis sso) sso

  unfoldable pub reconcile_sso : Step (State W)
  unfolding configure
  reconcile_sso s = (set_legal sso_legal_unknown >> configure s.cr.spec.sso) s

  -- The resources of the provider that the resource had before are taken away.
  unfoldable pub delete_sso_configuration : ArgoCdSsoSpec → Step (State W)
  delete_sso_configuration old = do
    if to_lower old.provider == provider_keycloak
        then r.delete_keycloak_configuration
        else if to_lower old.provider == provider_dex
        then r.delete_dex_resources
        else done
    ignore (reconcile_status_sso k apis)
