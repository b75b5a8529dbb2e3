-- ===== src/Hostname.antt =====
-- controllers/argocd/route.go, shortenHostname: a host for a Route, cut down to the limits of DNS.
-- A Go string is the list of its bytes, since the code measures and slices bytes. `strings.Split`
-- never returns an empty slice, so its result is the first label and the list of the others.
pub mod Labels
pub mod Bounds
pub mod Spec
pub mod Limits
mod Tests
use argocd_vee.Common.{ℕ, zero, suc, ◌-◌, Bool, true, false, ◌&&◌, Option, none, some}
use argocd_vee.Common.{List, [], ◌∷◌, ltb, leb, length, take, any, ◌==◌, nat_eq, if◌then◌else◌}
use argocd_vee.Hostname.Labels.{split, join}

abbrev pub max_label_length : ℕ
max_label_length = 63

abbrev pub max_hostname_length : ℕ
max_hostname_length = 253

abbrev pub min_first_label_size : ℕ
min_first_label_size = 20

pub data Error : Type 0 where
  label_too_long first_label_too_short : Error

-- `diverges` stands for a loop that has run through its fuel.
pub data Shortened : Type 0 where
  ok : List ℕ → Shortened
  err : Error → Shortened
  diverges : Shortened

-- The `for` loop: one byte less of the first label while the whole is too long and the label is
-- longer than 20 bytes. The result is the last first label.
pub shorten_loop : ℕ → List ℕ → List (List ℕ) → Option (List ℕ)
shorten_loop zero first rest = none
shorten_loop (suc fuel) first rest =
    elim (ltb max_hostname_length (length (join first rest)) && ltb 20 (length first)) [
      | true ↦ shorten_loop fuel (take (length first - 1) first) rest
      | false ↦ some first
    ]

-- The check after the loop.
pub finish : Option (List ℕ) → List (List ℕ) → Shortened
finish none rest = diverges
finish (some first) rest =
    if ltb (length first) min_first_label_size
    then err first_label_too_short
    else ok (join first rest)

-- From the point where the first label has at most 63 bytes.
pub shorten_labels : List ℕ → List (List ℕ) → Shortened
unfolding finish
shorten_labels first rest =
    if any (λ label. ltb max_label_length (length label)) rest
    then err label_too_long
    else if ltb max_hostname_length (length (join first rest))
    then finish (shorten_loop (suc (length first)) first rest) rest
    else ok (join first rest)

pub clip_first : List ℕ → List ℕ
clip_first first =
    if ltb max_label_length (length first) then take max_label_length first else first

unfoldable pub shorten_hostname : List ℕ → Shortened
unfolding shorten_labels clip_first shorten_loop
shorten_hostname hostname =
    if length hostname == 0
    then ok []
    else if leb (length hostname) max_hostname_length
    then ok hostname
    else (let (first, rest) = split hostname in shorten_labels (clip_first first) rest)
