-- ===== src/Sso/Legality.antt =====
-- controllers/argocd/sso.go: which configurations the cases of reconcileSSO let pass, as a
-- proposition on the configuration.
use argocd_vee.Common.{
  arith, ◌≡◌, ◌≢◌, refl, ◌↔◌, ◌⊎◌, String, true, Option, none, some, string_eq, to_lower, eq_iff,
  ne_of_beq,
}
use argocd_vee.Api.{
  ArgoCdSsoSpec, ArgoCdDexSpec, ArgoCdKeycloakSpec, provider_dex, provider_keycloak,
}
use argocd_vee.Kube.{ClusterApis}
use argocd_vee.Sso.{
  first_conflict, dex_case, keycloak_case, no_provider_case, unsupported_case, lacks_dex_config,
}
use mathlib.Core.Option.{or_else}

-- Dex with a configuration of its own or with OpenShift's.
abbrev pub IsConfigured : Option ArgoCdDexSpec → Type 0
IsConfigured none = ⊥
IsConfigured (some dex) = (dex.open_shift_o_auth ≡ true) ⊎ (dex.config ≢ "")

-- What may be asked for: Dex configured and no Keycloak, or Keycloak and no Dex, on a cluster that
-- has not one of the two APIs only.
abbrev pub IsLegal : ClusterApis → ArgoCdSsoSpec → Type 0
IsLegal apis sso =
    ((to_lower sso.provider ≡ provider_dex) × IsConfigured sso.dex × (sso.keycloak ≡ none))
    ⊎ ((to_lower sso.provider ≡ provider_keycloak)
        × (sso.dex ≡ none)
        × (apis.template_api_found ≡ true → apis.deployment_config_api_found ≡ true))

words : (provider_dex ≢ provider_keycloak) × (provider_dex ≢ "") × (provider_keycloak ≢ "")
words = (ne_of_beq _ _ refl, ne_of_beq _ _ refl, ne_of_beq _ _ refl)

-- The provider in small letters, and the configuration under it.
conflict_iff :
    (apis : ClusterApis) (p : String) (dex : Option ArgoCdDexSpec) (kc : Option ArgoCdKeycloakSpec)
    → (first_conflict apis (record { provider = p; dex = dex; keycloak = kc }) ≡ none)
      ↔ IsLegal apis (record { provider = p; dex = dex; keycloak = kc })
unfolding first_conflict dex_case keycloak_case no_provider_case unsupported_case lacks_dex_config
    or_else
conflict_iff apis p none none = ground (
  arith,
  words,
  eq_iff (to_lower p) "dex",
  eq_iff (to_lower p) "keycloak",
  eq_iff (to_lower p) "",
)
conflict_iff apis p none (some kc) = ground (
  arith,
  words,
  eq_iff (to_lower p) "dex",
  eq_iff (to_lower p) "keycloak",
  eq_iff (to_lower p) "",
)
conflict_iff apis p (some dex) none = ground (
  arith,
  words,
  eq_iff (to_lower p) "dex",
  eq_iff (to_lower p) "keycloak",
  eq_iff (to_lower p) "",
  eq_iff dex.config "",
)
conflict_iff apis p (some dex) (some kc) = ground (
  arith,
  words,
  eq_iff (to_lower p) "dex",
  eq_iff (to_lower p) "keycloak",
  eq_iff (to_lower p) "",
)

-- No case of reconcileSSO finds a conflict exactly in the legal configurations.
pub first_conflict-IsLegal :
    (apis : ClusterApis) (sso : ArgoCdSsoSpec) → (first_conflict apis sso ≡ none) ↔ IsLegal apis sso
first_conflict-IsLegal apis sso = conflict_iff apis sso.provider sso.dex sso.keycloak
