-- ===== src/Hostname/Bounds.antt =====
-- The loop of shortenHostname: how much it leaves of the first label, and that its fuel suffices.
use argocd_vee.Common.{ℕ, zero, suc, ◌+◌, ◌-◌, ◌≤◌, ◌<◌, max, ◌≡◌, ◌∙◌, ap, sym, arith, some}
use argocd_vee.Common.{List, length, take, length-take, take-take, take-length, if◌then◌else◌}
use argocd_vee.Common.{leb, ltb, ◌&&◌, true, false, Bool-cases, inl, inr}
use argocd_vee.Hostname.Labels.{join, join_rest, length-join}
use argocd_vee.Hostname.{shorten_loop}

-- The bytes left of a first label of `n` bytes, when the rest has `t` bytes.
abbrev pub kept : ℕ → ℕ → ℕ
kept n t = if leb (n + t) 253 then n else if leb n 20 then n else max 20 (253 - t)

pub kept-le : (n t : ℕ) → kept n t ≤ n
kept-le n t = ground arith

kept-pred : (n t : ℕ) → 253 < n + t → 20 < n → kept (n - 1) t ≡ kept n t
kept-pred n t h k = ground arith

module _ (rest : List (List ℕ)) where
  abbrev rest_length : ℕ
  rest_length = length (join_rest rest)

  kept-take :
      (first : List ℕ)
      → 253 < length first + rest_length
      → 20 < length first
      → kept (length (take (length first - 1) first)) rest_length ≡ kept (length first) rest_length
  kept-take first h k = rw length-take (ground arith)

  -- The continuing and the ending round of the loop.
  round_again :
      (first : List ℕ)
      → (ltb 253 (length (join first rest)) && ltb 20 (length first)) ≡ true
      → (253 < length first + rest_length) × (20 < length first)
  round_again first h = ground (arith, length-join first rest)

  round_last :
      (first : List ℕ)
      → (ltb 253 (length (join first rest)) && ltb 20 (length first)) ≡ false
      → length first ≤ kept (length first) rest_length
  round_last first h = ground (arith, length-join first rest)

  -- Enough fuel gives a result: the first label cut to `kept` bytes.
  pub shorten_loop-eq-take :
      (fuel : ℕ) (first : List ℕ)
      → length first < fuel
      → shorten_loop fuel first rest ≡ some (take (kept (length first) rest_length) first)
  unfolding shorten_loop
  shorten_loop-eq-take zero first h = elim h [ ]
  shorten_loop-eq-take (suc fuel) first h = elim (Bool-cases _) [
    | inl more ↦
        let (long, wide) = round_again first more in
        let shorter = take (length first - 1) first in
        rw (more, shorten_loop)
          (shorten_loop-eq-take fuel shorter (omega (arith, length-take (length first - 1) first))
            ∙ ap some (
                ap (λ k. take k shorter) (kept-take first long wide)
                ∙ take-take _ _ first (ground arith)))
    | inr done ↦
        rw (done, shorten_loop) (ap some (sym (take-length _ first (round_last first done))))
  ]
