-- ===== src/Hostname/Spec.antt =====
-- What shortenHostname promises, against a closed form without a loop.
use argocd_vee.Common.{
  ℕ, suc, ◌+◌, ◌-◌, ◌≤◌, ◌<◌, max, min, ◌≡◌, refl, ap, ◌∙◌, sym, arith, inl, inr,
}
use argocd_vee.Common.{
  List, [], ◌∷◌, length, take, any, length-take, take-length, take-take, if◌then◌else◌, leb, ltb,
  Bool, false, Bool-cases, ◌==◌, nat_eq,
}
use argocd_vee.Hostname.{
  shorten_hostname, shorten_labels, finish, clip_first, shorten_loop, Shortened, ok, err,
  label_too_long, first_label_too_short, max_label_length,
}
use argocd_vee.Hostname.Labels.{split, join, join_rest, length-join}
use argocd_vee.Hostname.Bounds.{kept, kept-le, shorten_loop-eq-take}

-- A label that the code does not cut, and that DNS does not allow.
abbrev pub some_label_too_long : List (List ℕ) → Bool
some_label_too_long = any (λ label. ltb max_label_length (length label))

-- The closed form: `n` bytes of the first label after its clipping to 63, and `t` behind it.
abbrev pub closed_form_labels : List ℕ → List (List ℕ) → Shortened
closed_form_labels first rest =
    let n = min 63 (length first) in
    let t = length (join_rest rest) in
    if some_label_too_long rest
    then err label_too_long
    else if leb (n + t) 253
    then ok (join (take n first) rest)
    else if ltb n 20
    then err first_label_too_short
    else ok (join (take (max 20 (253 - t)) first) rest)

abbrev pub closed_form : List ℕ → Shortened
closed_form hostname =
    if leb (length hostname) 253
    then ok hostname
    else closed_form_labels (split hostname).0 (split hostname).1

min_left : (m n : ℕ) → m ≤ n → min m n ≡ m
min_left m n h = omega arith

-- `min` in the form of the code's test.
min-63 : (n : ℕ) → min 63 n ≡ (if ltb 63 n then 63 else n)
min-63 n = ground arith

clip_first-eq-take : (first : List ℕ) → clip_first first ≡ take (min 63 (length first)) first
unfolding clip_first
clip_first-eq-take first = elim (Bool-cases (ltb 63 (length first))) [
  | inl long ↦ rw (min-63, long) refl
  | inr short ↦ rw (min-63, short) (sym (take-length (length first) first (omega arith)))
]

length-clip_first : (first : List ℕ) → length (clip_first first) ≡ min 63 (length first)
length-clip_first first =
    ap length (clip_first-eq-take first) ∙ length-take (min 63 (length first)) first ∙ (omega arith)

finish-shorten_loop :
    (first : List ℕ) (rest : List (List ℕ)) (t : ℕ)
    → length (join_rest rest) ≡ t
    → finish (shorten_loop (suc (length first)) first rest) rest ≡ (
        if ltb (kept (length first) t) 20
        then err first_label_too_short
        else ok (join (take (kept (length first) t) first) rest))
unfolding finish
finish-shorten_loop first rest t e =
    rw (shorten_loop-eq-take rest (suc (length first)) first (omega arith), length-take, e)
      (rw (min_left (kept (length first) t) (length first) (kept-le (length first) t)))

-- What stands behind the check of the other labels, for a first label already clipped.
fitted : List ℕ → List (List ℕ) → Shortened
fitted first rest =
    if ltb 253 (length (join first rest))
    then finish (shorten_loop (suc (length first)) first rest) rest
    else ok (join first rest)

module _ (first : List ℕ) (rest : List (List ℕ)) where
  fitted-short :
      length first + length (join_rest rest) ≤ 253 → fitted first rest ≡ ok (join first rest)
  unfolding fitted
  fitted-short h = ground (arith, length-join first rest)

  fitted-long :
      253 < length first + length (join_rest rest)
      → fitted first rest ≡ finish (shorten_loop (suc (length first)) first rest) rest
  unfolding fitted
  fitted-long h = ground (arith, length-join first rest)

  kept-wide : (n t : ℕ) → 253 < n + t → 20 ≤ n → kept n t ≡ max 20 (253 - t)
  kept-wide n t h k = ground arith

  kept-narrow : (n t : ℕ) → n < 20 → kept n t ≡ n
  kept-narrow n t h = ground arith

  not_below-max : (n : ℕ) → ltb (max 20 n) 20 ≡ false
  not_below-max n = ground arith

  fitted-eq : fitted first rest ≡ (
      if leb (length first + length (join_rest rest)) 253
      then ok (join first rest)
      else if ltb (length first) 20
      then err first_label_too_short
      else ok (join (take (max 20 (253 - length (join_rest rest))) first) rest))
  fitted-eq = elim (Bool-cases (leb (length first + length (join_rest rest)) 253)) [
    | inl fits ↦ rw fits (fitted-short (ground arith))
    | inr long ↦
        rw (long, fitted-long (ground arith), finish-shorten_loop first rest _ refl)
          (elim (Bool-cases (ltb (length first) 20)) [
            | inl narrow ↦
                rw (kept-narrow (length first) (length (join_rest rest)) (ground arith), narrow)
            | inr wide ↦ rw (
              wide,
              kept-wide (length first) (length (join_rest rest)) (ground arith) (ground arith),
              not_below-max (253 - length (join_rest rest)),
            )
          ])
  ]

shorten_labels-fitted :
    (first : List ℕ) (rest : List (List ℕ))
    → shorten_labels first rest
      ≡ (if some_label_too_long rest then err label_too_long else fitted first rest)
unfolding shorten_labels fitted
shorten_labels-fitted first rest = refl

cut_below : (n t : ℕ) → leb (n + t) 253 ≡ false → ltb n 20 ≡ false → max 20 (253 - t) ≤ n
cut_below n t long wide = ground arith

fitted-clip_first :
    (first : List ℕ) (rest : List (List ℕ)) (n t : ℕ)
    → min 63 (length first) ≡ n
    → length (join_rest rest) ≡ t
    → fitted (clip_first first) rest ≡ (
        if leb (n + t) 253
        then ok (join (take n first) rest)
        else if ltb n 20
        then err first_label_too_short
        else ok (join (take (max 20 (253 - t)) first) rest))
fitted-clip_first first rest n t en et =
    rw (fitted-eq, length-clip_first, clip_first-eq-take, en, et)
      (elim (Bool-cases (leb (n + t) 253)) [
        | inl fits ↦ rw fits
        | inr long ↦ rw long (elim (Bool-cases (ltb n 20)) [
          | inl narrow ↦ rw narrow
          | inr wide ↦ rw wide (
              ap (λ l. ok (join l rest))
                (take-take (max 20 (253 - t)) n first (cut_below n t long wide)))
        ])
      ])

closed_form_labels-eq :
    (first : List ℕ) (rest : List (List ℕ))
    → shorten_labels (clip_first first) rest ≡ closed_form_labels first rest
closed_form_labels-eq first rest =
    rw (shorten_labels-fitted, fitted-clip_first first rest _ _ refl refl) refl

nonempty : (n : ℕ) → (suc n == 0) ≡ false
nonempty n = ground arith

-- For every host name the code computes the closed form: a name of at most 253 bytes is left as
-- it is; a longer one is refused if a label after the first has more than 63 bytes; otherwise
-- its first label is cut to 63 bytes and, if the whole is still too long, to 253 bytes less those
-- behind it but not below 20, and it is refused if the label has fewer than 20 bytes already.
pub shorten_hostname-eq-closed_form :
    (hostname : List ℕ) → shorten_hostname hostname ≡ closed_form hostname
unfolding shorten_hostname
shorten_hostname-eq-closed_form [] = refl
shorten_hostname-eq-closed_form (c ∷ s) =
    rw (closed_form_labels-eq (split (c ∷ s)).0 (split (c ∷ s)).1, nonempty) refl
