-- ===== src/Conversion/Hub/Stable.antt =====
-- api/v1alpha1/argocd_conversion.go: what v1alpha1 can say survives, once it is in v1beta1.
use argocd_vee.Common.{
  choose, ◌≡◌, refl, ◌∙◌, ap, not, ◌&&◌, ◌||◌, Option, none, some, map_option, ◌==◌, string_eq,
}
use argocd_vee.Conversion.Shared.{Library}
use argocd_vee.Conversion.Alpha
use argocd_vee.Conversion.Beta
use argocd_vee.Conversion.ToBeta.{
  convert_alpha_to_beta_application_set, convert_alpha_to_beta_dex, convert_alpha_to_beta_sso,
}
use argocd_vee.Conversion.Hub.{
  convert_to, convert_from, convert_spec_to, convert_sso, merge_keycloak, merge_dex, is_zero_sso,
  is_zero_dex, has_deprecated_keycloak, with_deprecated_keycloak,
}
use argocd_vee.Conversion.Hub.RoundTrip.{
  forget_spec, forget_sso, forget_dex, forget_application_set, convert_to-convert_from,
}

module _ {l : Library} where
  abbrev Kept : Option (Beta.ArgoCdSsoSpec l) → Type 0
  Kept o = map_option forget_sso o ≡ o

  dex-kept :
      (o : Option (Alpha.ArgoCdDexSpec l))
      → map_option forget_dex (map_option convert_alpha_to_beta_dex o)
        ≡ map_option convert_alpha_to_beta_dex o
  unfolding convert_alpha_to_beta_dex
  dex-kept none = refl
  dex-kept (some d) = refl

  keycloak-Kept :
      (o : Option (Alpha.ArgoCdSsoSpec l))
      → Kept (map_option (λ s. merge_keycloak s (convert_alpha_to_beta_sso s)) o)
  unfolding merge_keycloak convert_alpha_to_beta_sso
  keycloak-Kept none = refl
  keycloak-Kept (some s) =
      choose (λ t. Kept (some t)) (not (is_zero_sso s)) _ _
        (λ e.
          choose (λ t. Kept (some t)) (has_deprecated_keycloak s) _ _
            (λ f.
              ap
                (λ d.
                  some
                    (record (with_deprecated_keycloak s (convert_alpha_to_beta_sso s)) { dex = d }))
                (dex-kept s.dex))
            plain)
        plain
    where
      plain : Kept (some (convert_alpha_to_beta_sso s))
      plain = ap (λ d. some (record (convert_alpha_to_beta_sso s) { dex = d })) (dex-kept s.dex)

  merge_dex-Kept :
      (d : Option (Alpha.ArgoCdDexSpec l)) (o : Option (Beta.ArgoCdSsoSpec l))
      → Kept o
      → Kept (merge_dex d o)
  unfolding merge_dex convert_alpha_to_beta_dex
  merge_dex-Kept none o h = h
  merge_dex-Kept (some d) o h =
      choose Kept (not (is_zero_dex d) && (not (d.config == "") || d.open_shift_o_auth)) _ _
        (λ e. refl) h

  application_set-kept :
      (o : Option (Alpha.ArgoCdApplicationSet l))
      → map_option forget_application_set (map_option convert_alpha_to_beta_application_set o)
        ≡ map_option convert_alpha_to_beta_application_set o
  unfolding convert_alpha_to_beta_application_set
  application_set-kept none = refl
  application_set-kept (some a) = refl

  spec-kept : (s : Alpha.ArgoCdSpec l) → forget_spec (convert_spec_to s) ≡ convert_spec_to s
  unfolding convert_spec_to convert_sso
  spec-kept s = λ i. record (convert_spec_to s) {
    application_set = application_set-kept s.application_set i;
    sso =
        merge_dex-Kept s.dex
          (map_option (λ a. merge_keycloak a (convert_alpha_to_beta_sso a)) s.sso)
          (keycloak-Kept s.sso) i;
  }

  -- A resource of v1alpha1 that was converted to v1beta1 is not changed by a further conversion to
  -- v1alpha1 and back, if the destination has no `.spec.dex` of its own: the first conversion moves
  -- the deprecated fields, and nothing is lost after that.
  pub convert_to_stable :
      (dst a : Alpha.ArgoCd l)
      → dst.spec.dex ≡ none
      → convert_to (convert_from dst (convert_to a)) ≡ convert_to a
  unfolding convert_to
  convert_to_stable dst a e =
      convert_to-convert_from dst (convert_to a) e
      ∙ ap (λ s. record (convert_to a) { spec = s }) (spec-kept a.spec)
