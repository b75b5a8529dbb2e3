-- ===== src/Mappers/Secrets.antt =====
-- controllers/argocd/custommapper.go: why a TLS secret leads to a request.
use argocd_vee.Common.{
  choose, choose_either, arith, subst, ◌≡◌, refl, sym, ◌⊎◌, inl, inr, String, true, not, Option,
  none, some, List, [], ◌∷◌, string_eq, get,
}
use mathlib.Core.List.{Memᴰ}
use argocd_vee.Kube.{Fetch, found, missing, failed}
use argocd_vee.Reconcile.{Request}
use argocd_vee.Mappers.{
  Watched, OwnerReference, Reader, annotation_name, is_secret_of_interest, is_owner_of_interest,
  argocd_owner, request_of_owner, request_of_service, or_go_on, request_of_owners,
  request_of_annotation, request_of_secret, tls_secret_mapper,
}

-- A service of interest owns the secret, can be read, and is owned by the ArgoCD of the request.
abbrev pub ByService : Reader → String → List OwnerReference → Request → Type 0
ByService r ns owners q =
    (owner : OwnerReference) × Memᴰ owner owners
    × (is_owner_of_interest owner ≡ true)
    × (svc : Watched) × (r.get_service ns owner.name ≡ found svc)
    × (argocd_owner svc.owners ≡ some q.name)
    × (q.namespace ≡ ns)

-- The secret has no owner, and its annotation names the ArgoCD.
abbrev pub ByAnnotation : Watched → Request → Type 0
ByAnnotation o q =
    (o.owners ≡ [])
    × (o.is_secret ≡ true)
    × (get annotation_name o.annotations ≡ some q.name)
    × (q.namespace ≡ o.namespace)

-- At most one request, for which the reason holds.
abbrev pub AtMost : (Request → Type 0) → List Request → Type 0
AtMost Reason [] = Unit
AtMost Reason (q ∷ []) = Reason q
AtMost Reason (q ∷ (p ∷ rest)) = ⊥

AtMost-map :
    (P Q : Request → Type 0) (result : List Request)
    → ((q : Request) → P q → Q q)
    → AtMost P result
    → AtMost Q result
AtMost-map P Q [] f h = tt
AtMost-map P Q (q ∷ []) f h = f q h
AtMost-map P Q (q ∷ (p ∷ rest)) f h = h

module _ (r : Reader) where
  -- The API server returns an object of the namespace that was asked for.
  abbrev pub ServiceStays : Type 0
  ServiceStays =
      (ns name : String) (svc : Watched) → r.get_service ns name ≡ found svc → svc.namespace ≡ ns

  service_reasons :
      (stays : ServiceStays) (ns : String) (owner : OwnerReference) (rest : List OwnerReference)
      → is_owner_of_interest owner ≡ true
      → (more : List Request) → AtMost (ByService r ns (owner ∷ rest)) more
      → (f : Fetch Watched) → r.get_service ns owner.name ≡ f
      → AtMost (ByService r ns (owner ∷ rest)) (or_go_on (request_of_service f) more)
  unfolding request_of_service request_of_owner
  service_reasons stays ns owner rest i more h missing e = tt
  service_reasons stays ns owner rest i more h (failed x) e = tt
  service_reasons stays ns owner rest i more h (found svc) e = named (argocd_owner svc.owners) refl
    where
      named :
          (o : Option String)
          → argocd_owner svc.owners ≡ o
          → AtMost
              (ByService r ns (owner ∷ rest))
              (or_go_on (request_of_owner svc.namespace o) more)
      named none n = h
      named (some name) n = (owner, Memᴰ.head refl, i, svc, e, n, stays ns owner.name svc e)

  later :
      (ns : String) (owner : OwnerReference) (rest : List OwnerReference) (result : List Request)
      → AtMost (ByService r ns rest) result
      → AtMost (ByService r ns (owner ∷ rest)) result
  later ns owner rest result =
      AtMost-map (ByService r ns rest) (ByService r ns (owner ∷ rest)) result
        (λ q (o, m, i, s, e, n, l). (o, Memᴰ.tail m, i, s, e, n, l))

  owners_reasons :
      ServiceStays
      → (ns : String) (owners : List OwnerReference)
      → AtMost (ByService r ns owners) (request_of_owners r ns owners)
  unfolding request_of_owners
  owners_reasons stays ns [] = tt
  owners_reasons stays ns (owner ∷ rest) =
      choose (AtMost (ByService r ns (owner ∷ rest))) (is_owner_of_interest owner) _ _
        (λ i.
          service_reasons stays ns owner rest i (request_of_owners r ns rest)
            (later ns owner rest (request_of_owners r ns rest) (owners_reasons stays ns rest))
            (r.get_service ns owner.name) refl)
        (later ns owner rest (request_of_owners r ns rest) (owners_reasons stays ns rest))

  annotation_reasons :
      (o : Watched) (a : Option String)
      → o.owners ≡ []
      → o.is_secret ≡ true
      → get annotation_name o.annotations ≡ a
      → AtMost (ByAnnotation o) (request_of_annotation r o a)
  unfolding request_of_annotation
  annotation_reasons o none e s a = tt
  annotation_reasons o (some owner) e s a = (e, s, a, refl)

  abbrev pub Reason : Watched → Request → Type 0
  Reason o q = ByService r o.namespace o.owners q ⊎ ByAnnotation o q

  secret_reasons :
      (stays : ServiceStays) (o : Watched) (owners : List OwnerReference)
      → o.owners ≡ owners
      → AtMost (Reason o) (request_of_secret r o owners)
  unfolding request_of_secret
  secret_reasons stays o [] e =
      choose_either (AtMost (Reason o)) (not o.is_secret) _ _ (λ x. tt)
        (λ x.
          AtMost-map (ByAnnotation o) (Reason o)
            (request_of_annotation r o (get annotation_name o.annotations)) (λ q y. inr y)
            (annotation_reasons o (get annotation_name o.annotations) e (ground arith) refl))
  secret_reasons stays o (owner ∷ rest) e =
      AtMost-map (ByService r o.namespace (owner ∷ rest)) (Reason o)
        (request_of_owners r o.namespace (owner ∷ rest))
        (λ q x. inl (subst (λ owners. ByService r o.namespace owners q) (sym e) x))
        (owners_reasons stays o.namespace (owner ∷ rest))

  -- A secret leads to at most one request. There is a reason for it: a service of interest that owns
  -- the secret was read and is owned by an ArgoCD of that name; or the secret has no owner and its
  -- annotation has the name. The request is in the namespace of the secret, if the API server
  -- returns services of the namespace that was asked for, and the name of the secret is of interest.
  pub tls_secret_mapper-AtMost :
      ServiceStays
      → (o : Watched)
      → AtMost (λ q. (is_secret_of_interest o ≡ true) × Reason o q) (tls_secret_mapper r o)
  unfolding tls_secret_mapper
  tls_secret_mapper-AtMost stays o =
      choose_either (AtMost (λ q. (is_secret_of_interest o ≡ true) × Reason o q))
        (not (is_secret_of_interest o)) _ _ (λ x. tt)
        (λ x.
          AtMost-map (Reason o) (λ q. (is_secret_of_interest o ≡ true) × Reason o q)
            (request_of_secret r o o.owners) (λ q y. (ground arith, y))
            (secret_reasons stays o o.owners refl))
