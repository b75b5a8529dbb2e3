-- ===== src/Mappers/Namespaces.antt =====
-- controllers/argocd/custommapper.go: the instances that are asked to reconcile for a namespace.
use argocd_vee.Common.{
  arith, subst, ◌≡◌, refl, sym, ◌∙◌, ap, ◌⊎◌, inl, inr, ◌↔◌, String, Bool, true, false, none, List,
  [], ◌∷◌, if◌then◌else◌, get,
}
use mathlib.Core.List.{Memᴰ}
use argocd_vee.Kube.{items}
use argocd_vee.Reconcile.{Request}
use argocd_vee.Mappers.{
  Watched, Listed, Reader, managed_by_label, request_of_listed, matching_requests,
  request_of_sources, namespace_requests, namespace_resource_mapper,
}

module _ (r : Reader) where
  -- An instance of the list whose source namespaces match the name.
  abbrev pub Matching : String → List Listed → Request → Type 0
  Matching name listed q =
      (a : Listed) × Memᴰ a listed
      × (r.matches a.source_namespaces name ≡ true)
      × (q ≡ request_of_listed r a)

  later :
      (name : String) (b : Listed) (rest : List Listed) (q : Request)
      → Matching name rest q
      → Matching name (b ∷ rest) q
  later name b rest q (a, m, x, e) = (a, Memᴰ.tail m, x, e)

  Memᴰ-if :
      (q p : Request) (rest : List Request) (b : Bool)
      → Memᴰ q (if b then p ∷ rest else rest)
      → ((b ≡ true) × (q ≡ p)) ⊎ Memᴰ q rest
  Memᴰ-if q p rest true (Memᴰ.head e) = inl (refl, e)
  Memᴰ-if q p rest true (Memᴰ.tail m) = inr m
  Memᴰ-if q p rest false m = inr m

  if-Memᴰ-later :
      (q p : Request) (rest : List Request) (b : Bool)
      → Memᴰ q rest
      → Memᴰ q (if b then p ∷ rest else rest)
  if-Memᴰ-later q p rest true m = Memᴰ.tail m
  if-Memᴰ-later q p rest false m = m

  if-Memᴰ-here :
      (q p : Request) (rest : List Request) (b : Bool)
      → b ≡ true
      → q ≡ p
      → Memᴰ q (if b then p ∷ rest else rest)
  if-Memᴰ-here q p rest true h e = Memᴰ.head e
  if-Memᴰ-here q p rest false h e = ground arith

  requests_sound :
      (name : String) (listed : List Listed) (q : Request)
      → Memᴰ q (matching_requests r name listed)
      → Matching name listed q
  unfolding matching_requests
  requests_sound name [] q m = elim m [ ]
  requests_sound name (b ∷ rest) q m =
      elim (Memᴰ-if q (request_of_listed r b) (matching_requests r name rest)
        (r.matches b.source_namespaces name) m) [
          | inl (x, e) ↦ (b, Memᴰ.head refl, x, e)
          | inr t ↦ later name b rest q (requests_sound name rest q t)
        ]

  requests_complete :
      (name : String) (listed : List Listed) (q : Request)
      → Matching name listed q
      → Memᴰ q (matching_requests r name listed)
  unfolding matching_requests
  requests_complete name [] q (a, m, x, e) = elim m [ ]
  requests_complete name (b ∷ rest) q (a, Memᴰ.tail m, x, e) =
      if-Memᴰ-later q (request_of_listed r b) (matching_requests r name rest)
        (r.matches b.source_namespaces name) (requests_complete name rest q (a, m, x, e))
  requests_complete name (b ∷ rest) q (a, Memᴰ.head h, x, e) =
      if-Memᴰ-here q (request_of_listed r b) (matching_requests r name rest)
        (r.matches b.source_namespaces name)
        (ap (λ y. r.matches y.source_namespaces name) (sym h) ∙ x) (e ∙ ap (request_of_listed r) h)

  -- A namespace without the managed-by label, where the instances can be listed, leads to a request
  -- for exactly those instances whose source namespaces match its name.
  pub namespace_resource_mapper-Matching :
      (o : Watched) (listed : List Listed) (q : Request)
      → get managed_by_label o.labels ≡ none
      → r.list_all ≡ items listed
      → Memᴰ q (namespace_resource_mapper r o) ↔ Matching o.name listed q
  unfolding namespace_resource_mapper namespace_requests request_of_sources
  namespace_resource_mapper-Matching o listed q l e =
      subst (λ x. Memᴰ q (namespace_requests r x o.name) ↔ Matching o.name listed q) (sym l)
        (subst (λ x. Memᴰ q (request_of_sources r o.name x) ↔ Matching o.name listed q) (sym e)
          (requests_sound o.name listed q, requests_complete o.name listed q))
