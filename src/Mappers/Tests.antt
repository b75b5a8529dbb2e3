-- ===== src/Mappers/Tests.antt =====
-- controllers/argocd/custommapper.go: the theorems at a few objects.
use argocd_vee.Common.{
  ◌≡◌, refl, sym, ap, ◌↔◌, String, true, false, [], ◌∷◌, get, HasDistinctKeys, has_suffix,
  string_eq,
}
use mathlib.Core.List.{Memᴰ}
use argocd_vee.Kube.{Fetch, found, items}
use argocd_vee.Mappers.{
  Watched, Listed, Reader, annotation_name, annotation_namespace, cluster_resource_mapper,
  tls_secret_mapper, is_secret_of_interest, namespace_resource_mapper,
}
use argocd_vee.Mappers.Annotations.{request_of, cluster_resource_mapper-eq-request_of}
use argocd_vee.Mappers.Secrets.{AtMost, Reason, tls_secret_mapper-AtMost}
use argocd_vee.Mappers.Namespaces.{Matching, namespace_resource_mapper-Matching}

abbrev tls_secret : Watched
tls_secret = record {
  namespace = "ns";
  name = "argocd-operator-redis-tls";
  labels = [];
  annotations = (annotation_namespace, "ns") ∷ (annotation_name, "argocd") ∷ [];
  owners = record { kind = "Service"; name = "argocd-redis" } ∷ [];
  is_secret = true;
}

abbrev example : Listed
example = record { namespace = "ns"; name = "argocd"; source_namespaces = "team" ∷ [] }

abbrev reader : Reader
reader = record {
  get_service = λ ns name. found (record {
    namespace = ns;
    name = name;
    labels = [];
    annotations = [];
    owners = record { kind = "ArgoCD"; name = "argocd" } ∷ [];
    is_secret = false;
  });
  list_in = λ ns. items (example ∷ []);
  list_all = items (example ∷ []);
  matches = λ globs name. true;
}

abbrev namespace_read : Fetch Watched → String
namespace_read (found o) = o.namespace
namespace_read _ = ""

tls_secret-HasDistinctKeys : HasDistinctKeys tls_secret.annotations
unfolding HasDistinctKeys get
tls_secret-HasDistinctKeys = (refl, (refl, tt))

cluster_resource_mapper-eq-request_of_example :
    cluster_resource_mapper tls_secret
    ≡ request_of
        (get annotation_name tls_secret.annotations)
        (get annotation_namespace tls_secret.annotations)
cluster_resource_mapper-eq-request_of_example =
    cluster_resource_mapper-eq-request_of tls_secret tls_secret-HasDistinctKeys

tls_secret_mapper-AtMost_example :
    AtMost
      (λ q. (is_secret_of_interest tls_secret ≡ true) × Reason reader tls_secret q)
      (tls_secret_mapper reader tls_secret)
tls_secret_mapper-AtMost_example =
    tls_secret_mapper-AtMost reader (λ ns name svc e. sym (ap namespace_read e)) tls_secret

namespace_resource_mapper-Matching_example :
    Memᴰ
      (record { namespace = "ns"; name = "argocd" })
      (namespace_resource_mapper reader tls_secret)
    ↔ Matching reader tls_secret.name (example ∷ []) (record { namespace = "ns"; name = "argocd" })
unfolding get
namespace_resource_mapper-Matching_example =
    namespace_resource_mapper-Matching reader tls_secret (example ∷ [])
      (record { namespace = "ns"; name = "argocd" }) refl refl

-- The secret leads to the instance through the service that owns it.
finds_instance :
    tls_secret_mapper reader tls_secret ≡ record { namespace = "ns"; name = "argocd" } ∷ []
unfolding tls_secret_mapper has_suffix
finds_instance = refl
