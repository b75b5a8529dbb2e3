-- ===== src/Mappers/Annotations.antt =====
-- controllers/argocd/custommapper.go: the request for a cluster resource does not depend on the
-- order in which Go walks over its annotations.
use argocd_vee.Common.{
  arith, ◌≡◌, ◌≢◌, refl, sym, ◌∙◌, ap, String, ◌||◌, Option, none, some, List, [], ◌∷◌, ◌==◌,
  string_eq, if◌then◌else◌, get, HasDistinctKeys, eq_iff, ne_of_beq,
}
use argocd_vee.Reconcile.{Request}
use argocd_vee.Mappers.{
  Watched, annotation_name, annotation_namespace, read_annotations, request_of_key,
  cluster_resource_mapper,
}

abbrev pub text_or : String → Option String → String
text_or t none = t
text_or t (some u) = u

abbrev step : String → String → Request → Request
step k v key =
    if k == annotation_name
    then record key { name = v }
    else if k == annotation_namespace
    then record key { namespace = v }
    else key

name≢namespace : ◌≢◌ {A = String} annotation_name annotation_namespace
name≢namespace = ne_of_beq _ _ refl

moved : (k key : String) (m : List (String × String)) → k ≡ key → get k m ≡ none → get key m ≡ none
moved k key m e n = ap (λ x. get x m) (sym e) ∙ n

read_name :
    (m : List (String × String)) (key : Request)
    → HasDistinctKeys m
    → (read_annotations m key).name ≡ text_or key.name (get annotation_name m)
unfolding read_annotations get HasDistinctKeys
read_name [] key h = refl
read_name ((k, v) ∷ rest) key (n, h) =
    read_name rest (step k v key) h
    ∙ ground (
      arith,
      name≢namespace,
      eq_iff k annotation_name,
      eq_iff k annotation_namespace,
      moved k annotation_name rest,
    )

read_namespace :
    (m : List (String × String)) (key : Request)
    → HasDistinctKeys m
    → (read_annotations m key).namespace ≡ text_or key.namespace (get annotation_namespace m)
unfolding read_annotations get HasDistinctKeys
read_namespace [] key h = refl
read_namespace ((k, v) ∷ rest) key (n, h) =
    read_namespace rest (step k v key) h
    ∙ ground (
      arith,
      name≢namespace,
      eq_iff k annotation_name,
      eq_iff k annotation_namespace,
      moved k annotation_namespace rest,
    )

-- The request that the two annotations make.
abbrev pub request_of : Option String → Option String → List Request
request_of (some name) (some namespace) =
    if name == "" || namespace == "" then [] else record { namespace = namespace; name = name } ∷ []
request_of _ _ = []

request_of_texts :
    (name namespace : Option String)
    → request_of_key (record { namespace = text_or "" namespace; name = text_or "" name })
      ≡ request_of name namespace
unfolding request_of_key
request_of_texts none namespace = ground arith
request_of_texts (some x) none = ground arith
request_of_texts (some x) (some y) = ground arith

-- A resource whose annotations have distinct keys leads to one request if it names an instance and
-- a namespace, neither the empty text, and to none otherwise; no order of the annotations matters,
-- since only the values under the two keys do.
pub cluster_resource_mapper-eq-request_of :
    (o : Watched)
    → HasDistinctKeys o.annotations
    → cluster_resource_mapper o
      ≡ request_of (get annotation_name o.annotations) (get annotation_namespace o.annotations)
unfolding cluster_resource_mapper
cluster_resource_mapper-eq-request_of o h =
    (λ i. request_of_key (record {
      namespace = read_namespace o.annotations start h i;
      name = read_name o.annotations start h i;
    }))
    ∙ request_of_texts (get annotation_name o.annotations) (get annotation_namespace o.annotations)
  where
    start : Request
    start = record { namespace = ""; name = "" }
