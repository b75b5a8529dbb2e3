-- ===== src/Sources/Entries.antt =====
-- controllers/argocd/util.go: which entries of ManagedSourceNamespaces a pass keeps.
use argocd_vee.Common.{
  choose, arith, ◌≡◌, refl, sym, ◌∙◌, ap, String, Bool, false, not, ◌&&◌, Option, none, List, [],
  ◌∷◌, map, any, ◌==◌, string_eq, if◌then◌else◌, get, remove, HasDistinctKeys,
  remove-HasDistinctKeys, subst,
}
use argocd_vee.Effect.{Outcome, ok, continue_ok}
use argocd_vee.Sources.{
  Owner, SourceClient, Managed, visit, visit_all, remove_unmanaged_source_namespace_resources,
}
use argocd_vee.Sources.Passes.{stays, IsCalm, visit-Leaves, step_get}

get_unlisted :
    (key : String) (m : List (String × String))
    → any (λ x. x == key) (map (λ e. e.0) m) ≡ false
    → get key m ≡ none
unfolding get
get_unlisted key [] h = refl
get_unlisted key ((k, v) ∷ rest) h = ground (arith, get_unlisted key rest)

only_listed :
    (key : String) (m : List (String × String)) (b : Bool)
    → (if any (λ x. x == key) (map (λ e. e.0) m) && not b then none else get key m)
      ≡ (if b then get key m else none)
only_listed key m b = ground (arith, get_unlisted key m)

module _ {W : Type 0} (k : SourceClient W) (cr : Owner) (names : List String) where
  -- A run that succeeds and whose map has at every key what `f` says.
  abbrev pub Holds : (String → Option String) → Outcome (Unit {0}) × Managed W → Type 0
  Holds f r = (r.0 ≡ ok tt) × ((key : String) → get key r.1.managed ≡ f key)

  abbrev swept : List String → List (String × String) → String → Option String
  swept keys m key =
      if any (λ x. x == key) keys && not (stays k cr names key) then none else get key m

  visit_all-Holds :
      (keys : List String) (s : Managed W)
      → IsCalm k cr names
      → HasDistinctKeys s.managed
      → Holds (swept keys s.managed) (visit_all k cr keys s)
  unfolding visit_all
  visit_all-Holds [] s c d = (refl, λ key. refl)
  visit_all-Holds (ns ∷ rest) s c d =
      let v = visit-Leaves k cr names ns s c in
      let later = visit_all-Holds rest (visit k cr ns s).1 c (
        subst HasDistinctKeys (sym v.1) (
          choose HasDistinctKeys (stays k cr names ns) s.managed (remove ns s.managed) (λ e. d)
            (remove-HasDistinctKeys ns s.managed d))) in
      subst (Holds (swept (ns ∷ rest) s.managed))
        (sym (continue_ok (visit_all k cr rest) (visit k cr ns s) v.0))
        (
          later.0,
          λ key.
              later.1 key
              ∙ ap (λ m. swept rest m key) v.1
              ∙ step_get ns key s.managed (stays k cr names ns) (stays k cr names key)
                  (any (λ x. x == key) rest) (λ e. ap (stays k cr names) e) d,
        )

  abbrev pub kept : List (String × String) → String → Option String
  kept m key = if stays k cr names key then get key m else none

  -- Where every clean-up succeeds, the namespaces that there are do not change and the map has one
  -- entry for each key, the pass succeeds,
  -- and of the namespaces that were managed exactly those are left that the instance still takes
  -- applications from: none if it is marked for deletion, and otherwise those that exist and match.
  pub remove_unmanaged-Holds :
      (s : Managed W)
      → IsCalm k cr names
      → HasDistinctKeys s.managed
      → Holds (kept s.managed) (remove_unmanaged_source_namespace_resources k cr s)
  unfolding remove_unmanaged_source_namespace_resources
  remove_unmanaged-Holds s c d =
      let h = visit_all-Holds (map (λ e. e.0) s.managed) s c d in
      (h.0, λ key. h.1 key ∙ only_listed key s.managed (stays k cr names key))
