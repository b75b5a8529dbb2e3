-- ===== src/Common/DeepEqual.antt =====
-- Go's maps from texts to texts, compared by `reflect.DeepEqual`.
use Prim.Native.String.{String}
use mathlib.Core.Path.{◌≡◌, refl, sym, ◌∙◌, ap}
use mathlib.Core.Logic.{inl, inr}
use mathlib.Core.Bool.{Bool, true, false, ◌&&◌}
use mathlib.Core.Option.{Option, none, some}
use mathlib.Core.List.{List, [], ◌∷◌}
use native.Mathlib.Omega.{arith}
use text.Mathlib.TextEquality.{eq_iff}
use argocd_vee.Common.Tests.{◌==◌, string_eq, if◌then◌else◌, Option-cases, choose_either}
use argocd_vee.Common.Lists.{all}
use argocd_vee.Common.Maps.{
  get, put, HasDistinctKeys, get-put-other, get-put-same, put-HasDistinctKeys,
}

abbrev pub Entries : Type 0
Entries = List (String × String)

-- `for k, v := range entries { m[k] = v }`
unfoldable pub copy_into : Entries → Entries → Entries
copy_into [] m = m
copy_into ((k, v) ∷ rest) m = copy_into rest (put k v m)

unfoldable pub is_value : String → Option String → Bool
is_value v none = false
is_value v (some u) = u == v

unfoldable pub covers : Entries → Entries → Bool
unfolding is_value
covers a b = all (λ e. is_value e.1 (get e.0 b)) a

-- `reflect.DeepEqual` of a map that is not nil and another.
unfoldable pub deep_equal : Entries → Option Entries → Bool
unfolding covers
deep_equal a none = false
deep_equal a (some b) = covers a b && covers b a

pub get-put :
    (key k v : String) (m : Entries)
    → get key (put k v m) ≡ (if k == key then some v else get key m)
get-put key k v m =
    choose_either (λ o. get key (put k v m) ≡ o) (k == key) _ _
      (λ e. ap (λ t. get t (put k v m)) (sym ((eq_iff k key).0 e)) ∙ get-put-same k v m)
      (get-put-other key k v m)

get-covers :
    (a b : Entries) (key v : String) → covers a b ≡ true → get key a ≡ some v → get key b ≡ some v
unfolding covers is_value get
get-covers [] b key v h e = ground arith
get-covers ((k, u) ∷ rest) b key v h e = elim (Option-cases (get k b)) [
  | inl n ↦ ground (arith, eq_iff k key)
  | inr (w, s) ↦ ground (arith, eq_iff k key, eq_iff w u, get-covers rest b key v)
]

-- Maps that Go finds equal have the same under every key.
pub get-deep_equal :
    (a b : Entries) (key : String) → deep_equal a (some b) ≡ true → get key a ≡ get key b
unfolding deep_equal
get-deep_equal a b key h = elim (Option-cases (get key a)) [
  | inl n ↦ elim (Option-cases (get key b)) [
    | inl o ↦ n ∙ sym o
    | inr (v, s) ↦ ground (arith, get-covers b a key v)
  ]
  | inr (v, s) ↦ ground (arith, get-covers a b key v)
]

covers-weaker :
    (a b : Entries) (k v : String)
    → get k a ≡ none
    → covers a b ≡ true
    → covers a ((k, v) ∷ b) ≡ true
unfolding covers is_value get
covers-weaker [] b k v n h = refl
covers-weaker ((j, u) ∷ rest) b k v n h =
    ground (arith, eq_iff j k, eq_iff k j, covers-weaker rest b k v)

covers_self : (a : Entries) → HasDistinctKeys a → covers a a ≡ true
unfolding covers is_value get HasDistinctKeys
covers_self [] h = refl
covers_self ((k, v) ∷ rest) (n, h) =
    ground (arith, eq_iff k k, eq_iff v v, covers_self rest h, covers-weaker rest rest k v n)

pub deep_equal_self : (a : Entries) → HasDistinctKeys a → deep_equal a (some a) ≡ true
unfolding deep_equal
deep_equal_self a h = ground (arith, covers_self a h)

pub copy_into-HasDistinctKeys :
    (a m : Entries) → HasDistinctKeys m → HasDistinctKeys (copy_into a m)
unfolding copy_into
copy_into-HasDistinctKeys [] m h = h
copy_into-HasDistinctKeys ((k, v) ∷ rest) m h =
    copy_into-HasDistinctKeys rest (put k v m) (put-HasDistinctKeys k v m h)
