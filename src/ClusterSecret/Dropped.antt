-- ===== src/ClusterSecret/Dropped.antt =====
-- controllers/argocd/util.go: what deleteManagedNamespaceFromClusterSecret leaves of the namespaces of a
-- cluster secret.
use argocd_vee.Common.{
  Bool-cases, ◌⊎◌, inl, inr, ◌≡◌, refl, ap, ◌∙◌, String, Bool, true, false, not, List, [], ◌∷◌,
  ◌++◌, ◌&&◌, ◌||◌, ◌==◌, string_eq, any, all, is_empty, join_with, split_comma, trim_space,
  sort_texts, is_plain, any-sort_texts, all-sort_texts, plain-split_comma, plain-trim_space, arith,
  eq_iff, choose_either, false≢true,
}
use argocd_vee.ClusterSecret.{contains_string, drop_loop, drop_namespace}
use argocd_vee.ClusterSecret.Names.{
  any-append, all-append, split-join, is_listed, is_empty-sort_texts,
}

-- Another namespace than the source is listed.
pub has_other : String → List String → Bool
has_other source l = any (λ m. not (trim_space m == source)) l

kept : String → String → List String → Bool
kept source n l = not (n == source) && is_listed l n

loop-unchanged :
    (source t : String) (l result : List String)
    → has_other source l ≡ false
    → drop_loop source l result t ≡ t
unfolding drop_loop has_other
loop-unchanged source t [] result h = refl
loop-unchanged source t (n ∷ rest) result h = ground (arith, loop-unchanged source t rest result)

snoc_full : (l : List String) (s : String) → is_empty (l ++ (s ∷ [])) ≡ false
snoc_full [] s = refl
snoc_full (t ∷ rest) s = refl

grown : List String → String → List String
grown result x = sort_texts (result ++ (x ∷ []))

plain-grown :
    (result : List String) (x : String)
    → all is_plain result ≡ true
    → is_plain x ≡ true
    → all is_plain (grown result x) ≡ true
unfolding grown
plain-grown result x p q = all-sort_texts is_plain _ ∙ all-append is_plain result x ∙ ground arith

is_empty-grown : (result : List String) (x : String) → is_empty (grown result x) ≡ false
unfolding grown
is_empty-grown result x = is_empty-sort_texts (result ++ (x ∷ [])) (snoc_full result x)

split-grown :
    (result : List String) (x : String)
    → all is_plain result ≡ true
    → is_plain x ≡ true
    → split_comma (join_with "," (grown result x)) ≡ grown result x
split-grown result x p q =
    split-join (grown result x) (is_empty-grown result x) (plain-grown result x p q)

contains-grown :
    (result : List String) (x n : String)
    → contains_string (grown result x) n ≡ (contains_string result n || x == n)
unfolding grown contains_string
contains-grown result x n = any-sort_texts (λ a. a == n) _ ∙ any-append (λ a. a == n) result x

dropped_case :
    (a : Bool) (source x n : String) (l : List String)
    → (trim_space x == source) ≡ true
    → (a || kept source n l) ≡ (a || kept source n (x ∷ l))
unfolding kept is_listed
dropped_case a source x n l h =
    ground (arith, eq_iff (trim_space x) source, eq_iff (trim_space x) n, eq_iff n source)

kept_case :
    (a : Bool) (source x n : String) (l : List String)
    → (trim_space x == source) ≡ false
    → ((a || trim_space x == n) || kept source n l) ≡ (a || kept source n (x ∷ l))
unfolding kept is_listed
kept_case a source x n l h =
    ground (arith, eq_iff (trim_space x) source, eq_iff (trim_space x) n, eq_iff n source)

nothing_kept : (a : Bool) (source n : String) → a ≡ (a || kept source n [])
unfolding kept is_listed
nothing_kept a source n = ground arith

-- From a text that is the result so far.
loop-contains :
    (source t n : String) (l result : List String)
    → all is_plain l ≡ true
    → all is_plain result ≡ true
    → split_comma t ≡ result
    → contains_string (split_comma (drop_loop source l result t)) n
      ≡ (contains_string result n || kept source n l)
unfolding drop_loop grown
loop-contains source t n [] result p q e =
    ap (λ l. contains_string l n) e ∙ nothing_kept (contains_string result n) source n
loop-contains source t n (x ∷ rest) result p q e =
    choose_either
      (λ r.
        contains_string (split_comma r) n ≡ (contains_string result n || kept source n (x ∷ rest)))
      (trim_space x == source) (drop_loop source rest result t)
      (drop_loop source rest (grown result (trim_space x))
        (join_with "," (grown result (trim_space x))))
      (λ h.
        loop-contains source t n rest result (ground arith) q e
        ∙ dropped_case (contains_string result n) source x n rest h)
      (λ h.
        let y : is_plain (trim_space x) ≡ true = plain-trim_space x (ground arith) in
        loop-contains source (join_with "," (grown result (trim_space x))) n rest
          (grown result (trim_space x)) (ground arith) (plain-grown result (trim_space x) q y)
          (split-grown result (trim_space x) q y)
        ∙ ap (λ b. b || kept source n rest) (contains-grown result (trim_space x) n)
        ∙ kept_case (contains_string result n) source x n rest h)

-- From no result, when something is kept.
loop-kept :
    (source t n : String) (l : List String)
    → all is_plain l ≡ true
    → has_other source l ≡ true
    → contains_string (split_comma (drop_loop source l [] t)) n ≡ kept source n l
unfolding drop_loop has_other grown contains_string
loop-kept source t n [] p h = elim (false≢true h) [ ]
loop-kept source t n (x ∷ rest) p h =
    choose_either (λ r. contains_string (split_comma r) n ≡ kept source n (x ∷ rest))
      (trim_space x == source) (drop_loop source rest [] t)
      (drop_loop source rest (grown [] (trim_space x)) (join_with "," (grown [] (trim_space x))))
      (λ e.
        loop-kept source t n rest (ground arith) (ground arith)
        ∙ dropped_case false source x n rest e)
      (λ e.
        let y : is_plain (trim_space x) ≡ true = plain-trim_space x (ground arith) in
        loop-contains source (join_with "," (grown [] (trim_space x))) n rest
          (grown [] (trim_space x)) (ground arith) (plain-grown [] (trim_space x) refl y)
          (split-grown [] (trim_space x) refl y)
        ∙ ap (λ b. b || kept source n rest) (contains-grown [] (trim_space x) n)
        ∙ kept_case false source x n rest e)

-- Either another namespace than the source is listed, and the entries afterwards are the trimmed ones
-- but the source; or none is, and the data is left as it was, with the source in it.
pub drop_namespace_cases :
    (source t : String)
    → ((has_other source (split_comma t) ≡ true)
        × ((n : String)
            → contains_string (split_comma (drop_namespace source t)) n
              ≡ (not (n == source) && is_listed (split_comma t) n)))
      ⊎ ((has_other source (split_comma t) ≡ false) × (drop_namespace source t ≡ t))
unfolding drop_namespace kept
drop_namespace_cases source t = elim (Bool-cases (has_other source (split_comma t))) [
  | inl h ↦ inl (h, λ n. loop-kept source t n (split_comma t) (plain-split_comma t) h)
  | inr h ↦ inr (h, loop-unchanged source t (split_comma t) [] h)
]
