-- ===== src/Conversion/Hub/RoundTrip.antt =====
-- api/v1alpha1/argocd_conversion.go: what is left of a resource of v1beta1 that is stored as one of
-- v1alpha1 and read back.
use argocd_vee.Common.{
  choose, ◌≡◌, refl, ◌∙◌, ap, not, Option, none, some, List, [], ◌∷◌, map, map_option,
}
use argocd_vee.Conversion.Shared.{Library, no_route, ArgoCdGrafanaSpec, ResourceIgnoreDifference}
use argocd_vee.Conversion.Alpha
use argocd_vee.Conversion.Beta
use argocd_vee.Conversion.ToBeta.{
  convert_alpha_to_beta_application_set, convert_alpha_to_beta_dex,
  convert_alpha_to_beta_resource_ignore_differences, convert_alpha_to_beta_sso,
  convert_alpha_to_beta_kustomize_versions,
}
use argocd_vee.Conversion.ToAlpha.{
  convert_beta_to_alpha_application_set, convert_beta_to_alpha_dex,
  convert_beta_to_alpha_resource_ignore_differences, convert_beta_to_alpha_sso,
  convert_beta_to_alpha_kustomize_versions,
}
use argocd_vee.Conversion.Hub.{
  convert_to, convert_from, convert_spec_to, convert_spec_from, convert_sso, merge_keycloak,
  merge_dex, is_zero_sso,
}

-- Copying the items of a list one by one.
map-copied : {A : Type 0} (xs : List A) → map (λ (x : A). x) xs ≡ xs
map-copied [] = refl
map-copied (x ∷ xs) = ap (λ t. x ∷ t) (map-copied xs)

twice-copied : {A : Type 0} (xs : List A) → map (λ (x : A). x) (map (λ (x : A). x) xs) ≡ xs
twice-copied xs = map-copied (map (λ x. x) xs) ∙ map-copied xs

ignore_differences-copied :
    (o : Option ResourceIgnoreDifference)
    → map_option convert_alpha_to_beta_resource_ignore_differences
        (map_option convert_beta_to_alpha_resource_ignore_differences o)
      ≡ o
unfolding convert_alpha_to_beta_resource_ignore_differences
    convert_beta_to_alpha_resource_ignore_differences
ignore_differences-copied none = refl
ignore_differences-copied (some r) =
    ap (λ ids. some (record r { resource_identifiers = ids })) (twice-copied r.resource_identifiers)

module _ {l : Library} where
  -- What v1alpha1 has no field for, or what the conversion leaves out.
  abbrev pub forget_controller :
      Beta.ArgoCdApplicationControllerSpec l → Beta.ArgoCdApplicationControllerSpec l
  forget_controller c = record c {
    init_containers = [];
    sidecar_containers = [];
    enabled = none;
    extra_command_args = [];
    volumes = [];
    volume_mounts = [];
  }

  abbrev pub forget_application_set : Beta.ArgoCdApplicationSet l → Beta.ArgoCdApplicationSet l
  forget_application_set a = record a {
    scm_root_ca_config_map = "";
    enabled = none;
    source_namespaces = [];
    scm_providers = [];
  }

  abbrev pub forget_grafana : ArgoCdGrafanaSpec l → ArgoCdGrafanaSpec l
  forget_grafana g = record g { resources = none; route = no_route; size = none; version = "" }

  abbrev pub forget_server : Beta.ArgoCdServerSpec l → Beta.ArgoCdServerSpec l
  forget_server s = record s {
    init_containers = [];
    sidecar_containers = [];
    enabled = none;
    volumes = [];
    volume_mounts = [];
  }

  abbrev pub forget_dex : Beta.ArgoCdDexSpec l → Beta.ArgoCdDexSpec l
  forget_dex d = record d { env = [] }

  abbrev pub forget_sso : Beta.ArgoCdSsoSpec l → Beta.ArgoCdSsoSpec l
  forget_sso s = record s { dex = map_option forget_dex s.dex }

  abbrev pub forget_spec : Beta.ArgoCdSpec l → Beta.ArgoCdSpec l
  forget_spec s = record s {
    application_set = map_option forget_application_set s.application_set;
    controller = forget_controller s.controller;
    grafana = forget_grafana s.grafana;
    redis = record (s.redis) { enabled = none; remote = none };
    repo = record (s.repo) { enabled = none; remote = none };
    server = forget_server s.server;
    sso = map_option forget_sso s.sso;
  }

  application_set-forget :
      (o : Option (Beta.ArgoCdApplicationSet l))
      → map_option convert_alpha_to_beta_application_set
          (map_option convert_beta_to_alpha_application_set o)
        ≡ map_option forget_application_set o
  unfolding convert_alpha_to_beta_application_set convert_beta_to_alpha_application_set
  application_set-forget none = refl
  application_set-forget (some a) = refl

  dex-forget :
      (o : Option (Beta.ArgoCdDexSpec l))
      → map_option convert_alpha_to_beta_dex (map_option convert_beta_to_alpha_dex o)
        ≡ map_option forget_dex o
  unfolding convert_alpha_to_beta_dex convert_beta_to_alpha_dex
  dex-forget none = refl
  dex-forget (some d) = refl

  -- No field of v1beta1 becomes a deprecated one.
  sso-forget :
      (o : Option (Beta.ArgoCdSsoSpec l))
      → map_option
          (λ s. merge_keycloak s (convert_alpha_to_beta_sso s))
          (map_option convert_beta_to_alpha_sso o)
        ≡ map_option forget_sso o
  unfolding merge_keycloak convert_alpha_to_beta_sso convert_beta_to_alpha_sso
  sso-forget none = refl
  sso-forget (some s) =
      choose (λ t. some t ≡ some (forget_sso s)) (not (is_zero_sso (convert_beta_to_alpha_sso s))) _
        _ (λ e. same) same
    where
      same : some (convert_alpha_to_beta_sso (convert_beta_to_alpha_sso s)) ≡ some (forget_sso s)
      same = ap (λ d. some (record s { dex = d })) (dex-forget s.dex)

  spec-forget :
      (d : Alpha.ArgoCdSpec l) (s : Beta.ArgoCdSpec l)
      → d.dex ≡ none
      → convert_spec_to (convert_spec_from d s) ≡ forget_spec s
  unfolding convert_spec_to convert_spec_from convert_sso merge_dex
      convert_alpha_to_beta_kustomize_versions convert_beta_to_alpha_kustomize_versions
  spec-forget d s e = λ i. record (forget_spec s) {
    application_set = application_set-forget s.application_set i;
    kustomize_versions = twice-copied s.kustomize_versions i;
    resource_actions = twice-copied s.resource_actions i;
    resource_health_checks = twice-copied s.resource_health_checks i;
    resource_ignore_differences = ignore_differences-copied s.resource_ignore_differences i;
    sso = sso_path i;
  }
    where
      sso_path : convert_sso (convert_spec_from d s) ≡ map_option forget_sso s.sso
      sso_path =
          ap
            (λ x. merge_dex x (
              map_option (λ a. merge_keycloak a (convert_alpha_to_beta_sso a))
                (map_option convert_beta_to_alpha_sso s.sso)))
            e
          ∙ sso-forget s.sso

  -- A resource of v1beta1 that is converted to v1alpha1 and back is the same but for these fields,
  -- which are cleared: of the controller and the server the containers, volumes and whether they are
  -- enabled, and the controller's extra arguments; whether redis and the repo server are enabled and
  -- remote; of the ApplicationSet controller the CA, whether it is enabled, its source namespaces and
  -- its providers; Dex's environment; Grafana's resources, route, size and version. The destination
  -- of the conversion must have no `.spec.dex` of its own.
  pub convert_to-convert_from :
      (dst : Alpha.ArgoCd l) (b : Beta.ArgoCd l)
      → dst.spec.dex ≡ none
      → convert_to (convert_from dst b) ≡ record b { spec = forget_spec b.spec }
  unfolding convert_to convert_from
  convert_to-convert_from dst b e = ap (λ s. record b { spec = s }) (spec-forget dst.spec b.spec e)
