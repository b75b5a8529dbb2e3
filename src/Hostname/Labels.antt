-- ===== src/Hostname/Labels.antt =====
-- `strings.Split(s, ".")` and `strings.Join(labels, ".")` over bytes.
use argocd_vee.Common.{ℕ, ◌+◌, ◌≡◌, refl, List, [], ◌∷◌, ◌++◌, arith, ◌==◌, nat_eq}
use argocd_vee.Common.{if◌then◌else◌, length, length-append, ap, ◌∙◌}

abbrev pub dot : ℕ
dot = b'.'

pub push_label : ℕ → List ℕ × List (List ℕ) → List ℕ × List (List ℕ)
push_label c (first, rest) = if c == dot then ([], first ∷ rest) else (c ∷ first, rest)

-- The first label and the others.
unfoldable pub split : List ℕ → List ℕ × List (List ℕ)
unfolding push_label
split [] = ([], [])
split (c ∷ s) = push_label c (split s)

-- The bytes behind the first label: each other label behind its dot.
unfoldable pub join_rest : List (List ℕ) → List ℕ
join_rest [] = []
join_rest (label ∷ rest) = dot ∷ (label ++ join_rest rest)

unfoldable pub join : List ℕ → List (List ℕ) → List ℕ
unfolding join_rest
join first rest = first ++ join_rest rest

join-push_label :
    (c : ℕ) (p : List ℕ × List (List ℕ))
    → (let (first, rest) = push_label c p in join first rest) ≡ c ∷ join p.0 p.1
unfolding push_label join
join-push_label c (first, rest) = ground arith

-- Joining what a text was split into gives the text back.
pub join-split : (s : List ℕ) → join (split s).0 (split s).1 ≡ s
unfolding split
join-split [] = unfold join in refl
join-split (c ∷ s) = join-push_label c (split s) ∙ ap (λ t. c ∷ t) (join-split s)

pub length-join :
    (first : List ℕ) (rest : List (List ℕ))
    → length (join first rest) ≡ length first + length (join_rest rest)
unfolding join
length-join first rest = length-append first (join_rest rest)
