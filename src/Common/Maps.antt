-- ===== src/Common/Maps.antt =====
-- Go's maps from texts, as lists with one entry for each key.
use Prim.Native.String.{String}
use mathlib.Core.Path.{◌≡◌, refl, sym, ◌∙◌, ap, subst}
use mathlib.Core.Logic.{inl, inr}
use mathlib.Core.Bool.{false}
use mathlib.Core.Option.{Option, none, some}
use mathlib.Core.List.{List, [], ◌∷◌}
use native.Mathlib.Omega.{arith}
use text.Mathlib.TextEquality.{eq_iff}
use argocd_vee.Common.Tests.{◌==◌, string_eq, if◌then◌else◌, Bool-cases}

swapped : (k key : String) → (k == key) ≡ false → (key == k) ≡ false
swapped k key h = ground (arith, eq_iff k key, eq_iff key k)

module _ {ℓ} {V : Type ℓ} where
  unfoldable pub get : String → List (String × V) → Option V
  get key [] = none
  get key ((k, v) ∷ rest) = if k == key then some v else get key rest

  -- `m[key] = value`
  unfoldable pub put : String → V → List (String × V) → List (String × V)
  put key value [] = (key, value) ∷ []
  put key value ((k, v) ∷ rest) =
      let more = put key value rest in if k == key then (k, value) ∷ rest else (k, v) ∷ more

  -- `delete(m, key)`
  unfoldable pub remove : String → List (String × V) → List (String × V)
  remove key [] = []
  remove key ((k, v) ∷ rest) =
      let more = remove key rest in if k == key then rest else (k, v) ∷ more

  -- No key has two entries.
  unfoldable pub HasDistinctKeys : List (String × V) → Type ℓ
  HasDistinctKeys [] = Unit
  HasDistinctKeys ((k, v) ∷ rest) = (get k rest ≡ none) × HasDistinctKeys rest

  pub get-put-other :
      (other key : String) (value : V) (m : List (String × V))
      → (key == other) ≡ false
      → get other (put key value m) ≡ get other m
  unfolding get put
  get-put-other other key value [] h = ground arith
  get-put-other other key value ((k, v) ∷ rest) h =
      ground (
        arith,
        eq_iff k key,
        eq_iff k other,
        eq_iff key other,
        get-put-other other key value rest h,
      )

  pub get-remove-other :
      (other key : String) (m : List (String × V))
      → (key == other) ≡ false
      → get other (remove key m) ≡ get other m
  unfolding get remove
  get-remove-other other key [] h = refl
  get-remove-other other key ((k, v) ∷ rest) h =
      ground
        (arith, eq_iff k key, eq_iff k other, eq_iff key other, get-remove-other other key rest h)

  pub get-put-same :
      (key : String) (value : V) (m : List (String × V)) → get key (put key value m) ≡ some value
  unfolding get put
  get-put-same key value [] = ground (arith, eq_iff key key)
  get-put-same key value ((k, v) ∷ rest) = ground (arith, eq_iff k key, get-put-same key value rest)

  pub get-remove-same :
      (key : String) (m : List (String × V)) → HasDistinctKeys m → get key (remove key m) ≡ none
  unfolding get remove HasDistinctKeys
  get-remove-same key [] h = refl
  get-remove-same key ((k, v) ∷ rest) (n, h) =
      ground (arith, eq_iff k key, get-remove-same key rest h)

  pub put-HasDistinctKeys :
      (key : String) (value : V) (m : List (String × V))
      → HasDistinctKeys m
      → HasDistinctKeys (put key value m)
  unfolding put get HasDistinctKeys
  put-HasDistinctKeys key value [] h = (refl, tt)
  put-HasDistinctKeys key value ((k, v) ∷ rest) (n, h) = elim (Bool-cases (k == key)) [
    | inl e ↦
        subst HasDistinctKeys
          (sym (ap (λ b. if b then (k, value) ∷ rest else (k, v) ∷ put key value rest) e)) (n, h)
    | inr e ↦
        subst HasDistinctKeys
          (sym (ap (λ b. if b then (k, value) ∷ rest else (k, v) ∷ put key value rest) e))
          (
            get-put-other k key value rest (swapped k key e) ∙ n,
            put-HasDistinctKeys key value rest h,
          )
  ]

  pub remove-HasDistinctKeys :
      (key : String) (m : List (String × V)) → HasDistinctKeys m → HasDistinctKeys (remove key m)
  unfolding remove get HasDistinctKeys
  remove-HasDistinctKeys key [] h = tt
  remove-HasDistinctKeys key ((k, v) ∷ rest) (n, h) = elim (Bool-cases (k == key)) [
    | inl e ↦
        subst HasDistinctKeys (sym (ap (λ b. if b then rest else (k, v) ∷ remove key rest) e)) h
    | inr e ↦
        subst HasDistinctKeys (sym (ap (λ b. if b then rest else (k, v) ∷ remove key rest) e))
          (get-remove-other k key rest (swapped k key e) ∙ n, remove-HasDistinctKeys key rest h)
  ]
