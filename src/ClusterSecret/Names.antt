-- ===== src/ClusterSecret/Names.antt =====
-- controllers/argocd/secret.go: which namespaces the cluster secret lists after a run.
use argocd_vee.Common.{
  ◌≡◌, refl, sym, String, Bool, true, false, List, [], ◌∷◌, ◌++◌, ◌&&◌, ◌||◌, ◌==◌, string_eq, any,
  all, is_empty, join_with, split_comma, trim_space, sort_texts, is_plain, split_comma-join_with,
  any-sort_texts, arith, false≢true,
}
use argocd_vee.ClusterSecret.{ClusterSecret}

pub any-append :
    (p : String → Bool) (l : List String) (s : String) → any p (l ++ (s ∷ [])) ≡ (any p l || p s)
any-append p [] s = ground arith
any-append p (t ∷ rest) s = ground (arith, any-append p rest s)

pub all-append :
    (p : String → Bool) (l : List String) (s : String) → all p (l ++ (s ∷ [])) ≡ (all p l && p s)
all-append p [] s = ground arith
all-append p (t ∷ rest) s = ground (arith, all-append p rest s)

-- A list of texts without commas that is not empty comes back when it is joined and split.
pub split-join :
    (l : List String)
    → is_empty l ≡ false
    → all is_plain l ≡ true
    → split_comma (join_with "," l) ≡ l
split-join [] h p = elim (false≢true (sym h)) [ ]
split-join (s ∷ rest) h p = split_comma-join_with s rest p

-- An entry of a trimmed list.
unfoldable pub is_listed : List String → String → Bool
is_listed names n = any (λ m. trim_space m == n) names

any_self : (p : String → Bool) (l : List String) → any p l ≡ true → is_empty l ≡ false
any_self p [] h = ground arith
any_self p (s ∷ rest) h = refl

pub is_empty-sort_texts : (l : List String) → is_empty l ≡ false → is_empty (sort_texts l) ≡ false
is_empty-sort_texts [] h = elim (false≢true (sym h)) [ ]
is_empty-sort_texts (s ∷ rest) h =
    any_self (λ t. true) (sort_texts (s ∷ rest)) (any-sort_texts (λ t. true) (s ∷ rest))
