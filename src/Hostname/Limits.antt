-- ===== src/Hostname/Limits.antt =====
-- The length of what shortenHostname returns.
use argocd_vee.Common.{
  ℕ, ◌+◌, ◌-◌, ◌≤◌, ◌<◌, max, min, ◌≡◌, refl, sym, ap, ◌∙◌, arith, List, length, take, length-take,
}
use argocd_vee.Common.{false, leb, ltb, Bool-cases, inl, inr}
use argocd_vee.Hostname.{shorten_hostname, ok}
use argocd_vee.Hostname.Labels.{split, join, join_rest, length-join, join-split}
use argocd_vee.Hostname.Spec.{
  closed_form, closed_form_labels, some_label_too_long, shorten_hostname-eq-closed_form,
}

length-cut :
    (n : ℕ) (first : List ℕ) (rest : List (List ℕ))
    → length (join (take n first) rest) ≡ min n (length first) + length (join_rest rest)
length-cut n first rest =
    length-join (take n first) rest ∙ ap (λ k. k + length (join_rest rest)) (length-take n first)

closed_form_labels_bounded :
    (first : List ℕ) (rest : List (List ℕ)) {r : List ℕ}
    → length (join_rest rest) ≤ 233
    → closed_form_labels first rest ≡ ok r
    → length r ≤ 253
closed_form_labels_bounded first rest h e = ground (
  arith,
  length-cut (min 63 (length first)) first rest,
  length-cut (max 20 (253 - length (join_rest rest))) first rest,
)

-- If at most 233 bytes stand behind the first label, then a host name that is returned has at
-- most 253 bytes.
pub shorten_hostname_bounded :
    (hostname : List ℕ) {r : List ℕ}
    → length (join_rest (split hostname).1) ≤ 233
    → shorten_hostname hostname ≡ ok r
    → length r ≤ 253
shorten_hostname_bounded hostname {r} h e =
    let closed : closed_form hostname ≡ ok r = sym (shorten_hostname-eq-closed_form hostname) ∙ e in
    elim (Bool-cases (leb (length hostname) 253)) [
      | inl fits ↦ ground arith
      | inr long ↦
          closed_form_labels_bounded (split hostname).0 (split hostname).1 h (rw long at closed)
    ]

length-split : (s : List ℕ) → length s ≡ length (split s).0 + length (join_rest (split s).1)
length-split s = ap length (sym (join-split s)) ∙ length-join (split s).0 (split s).1

closed_form_overlong :
    (s : List ℕ)
    → length s ≡ length (split s).0 + length (join_rest (split s).1)
    → some_label_too_long (split s).1 ≡ false
    → 20 ≤ length (split s).0
    → 233 < length (join_rest (split s).1)
    → closed_form s ≡ ok (join (take 20 (split s).0) (split s).1)
closed_form_overlong s e labels first rest = rw (long, labels, wide, narrow, cut) refl
  where
    long : leb (length s) 253 ≡ false
    long = ground arith

    wide : leb (min 63 (length (split s).0) + length (join_rest (split s).1)) 253 ≡ false
    wide = ground arith

    narrow : ltb (min 63 (length (split s).0)) 20 ≡ false
    narrow = ground arith

    cut : max 20 (253 - length (join_rest (split s).1)) ≡ 20
    cut = omega arith

-- If all labels after the first have at most 63 bytes, the first has 20 or more, and more than
-- 233 bytes stand behind it, then a host name of more than 253 bytes is returned without error
-- and still has more than 253 bytes.
pub shorten_hostname_overlong :
    (hostname : List ℕ)
    → some_label_too_long (split hostname).1 ≡ false
    → 20 ≤ length (split hostname).0
    → 233 < length (join_rest (split hostname).1)
    → (r : List ℕ) × (shorten_hostname hostname ≡ ok r) × (253 < length r)
shorten_hostname_overlong hostname labels first rest = (
  join (take 20 (split hostname).0) (split hostname).1,
  shorten_hostname-eq-closed_form hostname
      ∙ closed_form_overlong hostname (length-split hostname) labels first rest,
  omega (arith, length-cut 20 (split hostname).0 (split hostname).1),
)
