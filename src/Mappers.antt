-- ===== src/Mappers.antt =====
-- controllers/argocd/custommapper.go: which ArgoCD is reconciled when an object that it depends on
-- changes. The reads of the client and the matching of globs are parameters.
pub mod Annotations
pub mod Secrets
pub mod Namespaces
mod Tests
use argocd_vee.Common.{
  String, Bool, true, false, not, ◌&&◌, ◌||◌, Option, none, some, List, [], ◌∷◌, ◌==◌, string_eq,
}
use argocd_vee.Common.{if◌then◌else◌, get, has_suffix}
use argocd_vee.Kube.{Fetch, found, missing, failed, Listing, items, list_failed}
use argocd_vee.Reconcile.{Request}

-- common/annotations.go, common/keys.go, common/values.go
abbrev pub annotation_name : String
annotation_name = "argocds.argoproj.io/name"

abbrev pub annotation_namespace : String
annotation_namespace = "argocds.argoproj.io/namespace"

abbrev pub managed_by_label : String
managed_by_label = "argocd.argoproj.io/managed-by"

abbrev pub secret_type_label : String
secret_type_label = "argocd.argoproj.io/secret-type"

abbrev pub redis_server_tls_secret_name : String
redis_server_tls_secret_name = "argocd-operator-redis-tls"

abbrev pub app_set_gitlab_scm_tls_certs_config_map_name : String
app_set_gitlab_scm_tls_certs_config_map_name = "argocd-appset-gitlab-scm-tls-certs-cm"

pub record OwnerReference : Type 0 where
  pub kind : String
  pub name : String

-- An object that is watched, or the owner of one. `is_secret` is the result of the type assertion.
pub record Watched : Type 0 where
  pub namespace : String
  pub name : String
  pub labels : List (String × String)
  pub annotations : List (String × String)
  pub owners : List OwnerReference
  pub is_secret : Bool

-- An ArgoCD as the mappers list it.
pub record Listed : Type 0 where
  pub namespace : String
  pub name : String
  pub source_namespaces : List String

-- The reads of the client, and `glob.MatchStringInList`.
pub record Reader : Type 0 where
  pub get_service : String → String → Fetch Watched
  pub list_in : String → Listing Listed
  pub list_all : Listing Listed
  pub matches : List String → String → Bool

-- The loop over the annotations, with the key found so far.
pub read_annotations : List (String × String) → Request → Request
read_annotations [] key = key
read_annotations ((k, v) ∷ rest) key = read_annotations rest (
    if k == annotation_name
    then record key { name = v }
    else if k == annotation_namespace
    then record key { namespace = v }
    else key)

pub request_of_key : Request → List Request
request_of_key key = if not (key.name == "") && not (key.namespace == "") then key ∷ [] else []

unfoldable pub cluster_resource_mapper : Watched → List Request
unfolding read_annotations request_of_key
cluster_resource_mapper o =
    request_of_key (read_annotations o.annotations (record { namespace = ""; name = "" }))

pub is_secret_of_interest : Watched → Bool
is_secret_of_interest o =
    if has_suffix "-repo-server-tls" o.name
    then true
    else if o.name == redis_server_tls_secret_name
    then true
    else false

pub is_owner_of_interest : OwnerReference → Bool
is_owner_of_interest owner =
    if not (owner.kind == "Service")
    then false
    else if has_suffix "-repo-server" owner.name
    then true
    else if has_suffix "-redis" owner.name
    then true
    else false

-- The first owner of the kind ArgoCD.
pub argocd_owner : List OwnerReference → Option String
argocd_owner [] = none
argocd_owner (owner ∷ rest) =
    let more = argocd_owner rest in if owner.kind == "ArgoCD" then some owner.name else more

pub request_of_owner : String → Option String → Option (List Request)
request_of_owner ns none = none
request_of_owner ns (some name) = some (record { namespace = ns; name = name } ∷ [])

-- What a service that was read leads to; `none` goes on with the next owner of the secret.
pub request_of_service : Fetch Watched → Option (List Request)
unfolding argocd_owner request_of_owner
request_of_service (found svc) = request_of_owner svc.namespace (argocd_owner svc.owners)
request_of_service missing = some []
request_of_service (failed e) = some []

abbrev pub or_go_on : {A : Type 0} → Option (List A) → List A → List A
or_go_on none rest = rest
or_go_on (some result) rest = result

module _ (r : Reader) where
  -- The loop over the owners of a secret of the namespace.
  pub request_of_owners : String → List OwnerReference → List Request
  unfolding is_owner_of_interest request_of_service
  request_of_owners ns [] = []
  request_of_owners ns (owner ∷ rest) =
      let more = request_of_owners ns rest in
      if is_owner_of_interest owner
      then or_go_on (request_of_service (r.get_service ns owner.name)) more
      else more

  -- A secret without owners names its instance in an annotation.
  pub request_of_annotation : Watched → Option String → List Request
  request_of_annotation o none = []
  request_of_annotation o (some owner) = record { namespace = o.namespace; name = owner } ∷ []

  pub request_of_secret : Watched → List OwnerReference → List Request
  unfolding request_of_owners request_of_annotation
  request_of_secret o [] =
      if not o.is_secret then [] else request_of_annotation o (get annotation_name o.annotations)
  request_of_secret o (owner ∷ rest) = request_of_owners o.namespace (owner ∷ rest)

  unfoldable pub tls_secret_mapper : Watched → List Request
  unfolding is_secret_of_interest request_of_secret
  tls_secret_mapper o = if not (is_secret_of_interest o) then [] else request_of_secret o o.owners

  pub request_of_listed : Listed → Request
  request_of_listed a = record { namespace = a.namespace; name = a.name }

  -- `len(argocds.Items) != 1`
  pub only_request : Listing Listed → List Request
  unfolding request_of_listed
  only_request (items (a ∷ [])) = request_of_listed a ∷ []
  only_request (items []) = []
  only_request (items (a ∷ (b ∷ rest))) = []
  only_request (list_failed e) = []

  pub matching_requests : String → List Listed → List Request
  unfolding request_of_listed
  matching_requests name [] = []
  matching_requests name (a ∷ rest) =
      let result = matching_requests name rest in
      if r.matches a.source_namespaces name then request_of_listed a ∷ result else result

  pub request_of_sources : String → Listing Listed → List Request
  unfolding matching_requests
  request_of_sources name (items listed) = matching_requests name listed
  request_of_sources name (list_failed e) = []

  pub namespace_requests : Option String → String → List Request
  unfolding only_request request_of_sources
  namespace_requests (some v) name = only_request (r.list_in v)
  namespace_requests none name = request_of_sources name r.list_all

  unfoldable pub namespace_resource_mapper : Watched → List Request
  unfolding namespace_requests
  namespace_resource_mapper o = namespace_requests (get managed_by_label o.labels) o.name

  pub cluster_secret_requests : Option String → String → List Request
  unfolding only_request
  cluster_secret_requests (some v) ns = if v == "cluster" then only_request (r.list_in ns) else []
  cluster_secret_requests none ns = []

  unfoldable pub cluster_secret_resource_mapper : Watched → List Request
  unfolding cluster_secret_requests
  cluster_secret_resource_mapper o =
      cluster_secret_requests (get secret_type_label o.labels) o.namespace

  unfoldable pub application_set_scm_tls_config_map_mapper : Watched → List Request
  unfolding only_request
  application_set_scm_tls_config_map_mapper o =
      if o.name == app_set_gitlab_scm_tls_certs_config_map_name
      then only_request (r.list_in o.namespace)
      else []
