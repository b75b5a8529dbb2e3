-- ===== src/Sso/Tests.antt =====
-- controllers/argocd/sso.go: the theorems at a small cluster.
use argocd_vee.Common.{◌≡◌, refl, ◌↔◌, false, Option, none, some, [], inl, inr, ne_of_beq, to_lower}
use argocd_vee.Effect.{done}
use argocd_vee.Api.{ArgoCd, ArgoCdSsoSpec}
use argocd_vee.Kube.{missing, items, StatusClient, ClusterApis}
use argocd_vee.Status.{State}
use argocd_vee.Sso.{SsoResources, first_conflict, reconcile_sso}
use argocd_vee.Sso.Legality.{IsLegal, first_conflict-IsLegal}
use argocd_vee.Sso.Outcomes.{
  RefusesUntouched, reconcile_sso_refuses, reconcile_sso-verdict, verdict,
}

-- Nothing is there, and every status write is accepted and kept.
abbrev empty_cluster : StatusClient (Option ArgoCd)
empty_cluster = record {
  get_deployment = λ w ns name. missing;
  get_stateful_set = λ w ns name. missing;
  get_deployment_config = λ w ns name. missing;
  get_ingress = λ w ns name. missing;
  list_routes = λ w ns name. items [];
  update_status = λ w cr. (some cr, none);
}

abbrev plain : ClusterApis
plain = record {
  route_api_found = false;
  template_api_found = false;
  deployment_config_api_found = false;
}

abbrev idle : SsoResources (Option ArgoCd)
idle = record {
  reconcile_dex_resources = done;
  delete_dex_resources = done;
  reconcile_keycloak_configuration = done;
  delete_keycloak_configuration = done;
}

abbrev dex_without_config : ArgoCdSsoSpec
dex_without_config = record { provider = "Dex"; dex = none; keycloak = none }

abbrev dex_with_config : ArgoCdSsoSpec
dex_with_config = record {
  provider = "DEX";
  dex = some (record { config = "connectors: []"; open_shift_o_auth = false });
  keycloak = none;
}

abbrev asking : ArgoCdSsoSpec → State (Option ArgoCd)
asking sso = record {
  world = none;
  cr = record {
    name = "argocd";
    namespace = "ns";
    spec = record {
      controller_enabled = none;
      ha_enabled = false;
      notifications_enabled = false;
      redis = record { enabled = none; remote = none };
      repo_enabled = none;
      server = record { enabled = none; ingress_enabled = false; route_enabled = false };
      sso = some sso;
    };
    status = record {
      application_controller = "";
      application_set_controller = "";
      sso = "Running";
      notifications_controller = "";
      phase = "";
      redis = "";
      repo = "";
      server = "";
      host = "";
    };
  };
  sso_legal = "Success";
}

dex_without_config_illegal : IsLegal plain dex_without_config → ⊥
unfolding to_lower
dex_without_config_illegal (inl (p, c, q)) = c
dex_without_config_illegal (inr (p, q, h)) = ne_of_beq _ _ refl p

first_conflict-IsLegal_example :
    (first_conflict plain dex_with_config ≡ none) ↔ IsLegal plain dex_with_config
first_conflict-IsLegal_example = first_conflict-IsLegal plain dex_with_config

reconcile_sso_refuses_example :
    RefusesUntouched empty_cluster plain idle (asking dex_without_config)
reconcile_sso_refuses_example =
    reconcile_sso_refuses empty_cluster plain idle (asking dex_without_config) dex_without_config
      refl dex_without_config_illegal

reconcile_sso-verdict_example :
    (reconcile_sso empty_cluster plain idle (asking dex_with_config)).1.sso_legal
    ≡ verdict empty_cluster plain idle (some dex_with_config)
reconcile_sso-verdict_example =
    reconcile_sso-verdict empty_cluster plain idle (asking dex_with_config)
      ((λ s. refl), (λ s. refl), (λ s. refl))
