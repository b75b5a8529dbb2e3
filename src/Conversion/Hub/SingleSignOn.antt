-- ===== src/Conversion/Hub/SingleSignOn.antt =====
-- api/v1alpha1/argocd_conversion.go and controllers/argocd/sso.go: when a resource of v1alpha1 with a
-- configured `.spec.dex` is converted to one whose single sign-on reconcileSSO accepts.
use mathlib.Core.Option.{map-eq-none_iff}
use argocd_vee.Common.{
  arith, ◌≡◌, ◌≢◌, refl, sym, ◌∙◌, ap, subst, inl, inr, ◌⊎◌, ◌↔◌, true, not, ◌&&◌, ◌||◌, Option,
  none, some, map_option, ◌==◌, string_eq, eq_iff, to_lower, if_true, ne_of_beq,
}
use argocd_vee.Api.{ArgoCdSsoSpec, ArgoCdDexSpec, ArgoCdKeycloakSpec, provider_dex}
use argocd_vee.Kube.{ClusterApis}
use argocd_vee.Sso.Legality.{IsLegal}
use argocd_vee.Conversion.Shared
use argocd_vee.Conversion.Shared.{Library}
use argocd_vee.Conversion.Alpha
use argocd_vee.Conversion.Beta
use argocd_vee.Conversion.ToBeta.{convert_alpha_to_beta_dex, convert_alpha_to_beta_sso}
use argocd_vee.Conversion.Hub.{
  convert_sso, merge_keycloak, merge_dex, is_zero_sso, is_zero_dex, has_deprecated_keycloak,
  with_deprecated_keycloak, sso_or_empty,
}

swap : {A B : Type 0} → A ⊎ B → B ⊎ A
swap (inl a) = inr a
swap (inr b) = inl b

module _ {l : Library} where
  -- The part of the resource that reconcileSSO reads.
  abbrev pub seen_dex : Beta.ArgoCdDexSpec l → ArgoCdDexSpec
  seen_dex d = record { config = d.config; open_shift_o_auth = d.open_shift_o_auth }

  abbrev pub seen_keycloak : Shared.ArgoCdKeycloakSpec l → ArgoCdKeycloakSpec
  seen_keycloak k = record { image = k.image; host = k.host }

  abbrev pub seen_sso : Beta.ArgoCdSsoSpec l → ArgoCdSsoSpec
  seen_sso s = record {
    provider = s.provider;
    dex = map_option seen_dex s.dex;
    keycloak = map_option seen_keycloak s.keycloak;
  }

  abbrev pub IsAccepted : ClusterApis → Option (Beta.ArgoCdSsoSpec l) → Type 0
  IsAccepted apis none = ⊥
  IsAccepted apis (some s) = IsLegal apis (seen_sso s)

  -- `.spec.sso` says nothing of Keycloak, neither in `keycloak` nor in a deprecated field.
  abbrev pub HasNoKeycloak : Option (Alpha.ArgoCdSsoSpec l) → Type 0
  HasNoKeycloak none = Unit
  HasNoKeycloak (some s) =
      (s.keycloak ≡ none)
      × (s.image ≡ "")
      × (s.version ≡ "")
      × (s.verify_tls ≡ none)
      × (s.resources ≡ none)

  abbrev merged : Option (Alpha.ArgoCdSsoSpec l) → Beta.ArgoCdSsoSpec l
  merged o = sso_or_empty (map_option (λ s. merge_keycloak s (convert_alpha_to_beta_sso s)) o)

  merged-keycloak :
      (o : Option (Alpha.ArgoCdSsoSpec l)) → ((merged o).keycloak ≡ none) ↔ HasNoKeycloak o
  unfolding merge_keycloak convert_alpha_to_beta_sso is_zero_sso has_deprecated_keycloak
      with_deprecated_keycloak
  merged-keycloak none = (λ e. tt, λ e. refl)
  merged-keycloak (some s) =
      ground (arith, eq_iff s.image "", eq_iff s.version "", eq_iff s.provider "")

  -- A configured `.spec.dex` wins.
  merge_dex-configured :
      (d : Alpha.ArgoCdDexSpec l) (o : Option (Beta.ArgoCdSsoSpec l))
      → (d.config ≢ "") ⊎ (d.open_shift_o_auth ≡ true)
      → merge_dex (some d) o
        ≡ some (record (sso_or_empty o) {
          provider = provider_dex;
          dex = some (convert_alpha_to_beta_dex d);
        })
  unfolding merge_dex is_zero_dex
  merge_dex-configured d o h =
      if_true (not (is_zero_dex d) && (not (d.config == "") || d.open_shift_o_auth)) _ _
        (ground (arith, eq_iff d.config ""))

  dex-IsAccepted :
      (apis : ClusterApis) (d : Alpha.ArgoCdDexSpec l) (k : Option (Shared.ArgoCdKeycloakSpec l))
      → (d.config ≢ "") ⊎ (d.open_shift_o_auth ≡ true)
      → IsAccepted apis (
          some (record {
            provider = provider_dex;
            dex = some (convert_alpha_to_beta_dex d);
            keycloak = k;
          }))
        ↔ (k ≡ none)
  unfolding convert_alpha_to_beta_dex to_lower
  dex-IsAccepted apis d k h =
      (legal, λ e. inl (refl, swap h, ap (λ x. map_option seen_keycloak x) e))
    where
      legal :
          IsAccepted apis (
            some (record {
              provider = provider_dex;
              dex = some (convert_alpha_to_beta_dex d);
              keycloak = k;
            }))
          → k ≡ none
      legal (inl (p, c, e)) = (map-eq-none_iff seen_keycloak k).0 e
      legal (inr (p, c, e)) = elim (ne_of_beq _ _ refl p) [ ]

  -- Where `.spec.dex` of a resource of v1alpha1 is configured, by a text or by OpenShift's login, the
  -- single sign-on that it is converted to is legal exactly if `.spec.sso` says nothing of Keycloak.
  pub convert_sso-IsAccepted :
      (apis : ClusterApis) (src : Alpha.ArgoCdSpec l) (d : Alpha.ArgoCdDexSpec l)
      → src.dex ≡ some d
      → (d.config ≢ "") ⊎ (d.open_shift_o_auth ≡ true)
      → IsAccepted apis (convert_sso src) ↔ HasNoKeycloak src.sso
  unfolding convert_sso
  convert_sso-IsAccepted apis src d e h =
      subst (λ o. IsAccepted apis o ↔ HasNoKeycloak src.sso)
        (sym (ap (λ x. merge_dex x mapped) e ∙ merge_dex-configured d mapped h))
        (
          λ a.
              (merged-keycloak src.sso).0 ((dex-IsAccepted apis d (merged src.sso).keycloak h).0 a),
          λ n.
              (dex-IsAccepted apis d (merged src.sso).keycloak h).1 ((merged-keycloak src.sso).1 n),
        )
    where
      mapped : Option (Beta.ArgoCdSsoSpec l)
      mapped = map_option (λ s. merge_keycloak s (convert_alpha_to_beta_sso s)) src.sso
