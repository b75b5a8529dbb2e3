-- ===== src/Common/Commas.antt =====
-- Lists of texts that are joined by commas, split and sorted.
use Prim.Native.Nat.{Ordering}
use Prim.Native.String
use Prim.Native.String.{String}
use Prim.Native.Char.{Char, code}
use mathlib.Core.Path.{◌≡◌, refl, ◌∙◌, ap}
use mathlib.Core.Bool.{Bool, true, false, not, ◌&&◌, ◌||◌}
use mathlib.Core.List.{List, [], ◌∷◌}
use native.Mathlib.Omega.{arith}
use text.Mathlib.TextLemmas.{nil-append, cons-append}
use argocd_vee.Common.Tests.{choose_either, ltb, ◌==◌, nat_eq, string_eq, if◌then◌else◌}
use argocd_vee.Common.Lists.{any, all, is_empty}
use argocd_vee.Common.Text.{join_with}

onto : Char → List String → List String
onto c [] = String.◌∷◌ c "" ∷ []
onto c (p ∷ ps) = String.◌∷◌ c p ∷ ps

-- `strings.Split(s, ",")`
unfoldable pub split_comma : String → List String
unfolding onto
split_comma String.[] = "" ∷ []
split_comma (String.◌∷◌ c s) =
    let rest = split_comma s in if code c == b',' then "" ∷ rest else onto c rest

unfoldable pub is_plain : String → Bool
is_plain String.[] = true
is_plain (String.◌∷◌ c s) = not (code c == b',') && is_plain s

is_space : Char → Bool
is_space c = code c == 32 || ltb 8 (code c) && ltb (code c) 14

trim_left : String → String
trim_left String.[] = ""
trim_left (String.◌∷◌ c s) = if is_space c then trim_left s else String.◌∷◌ c s

trim_right : String → String
trim_right String.[] = ""
trim_right (String.◌∷◌ c s) =
    let rest = trim_right s in if is_space c && rest == "" then "" else String.◌∷◌ c rest

-- `strings.TrimSpace` on ASCII.
unfoldable pub trim_space : String → String
unfolding trim_left trim_right is_space
trim_space s = trim_right (trim_left s)

text_leb : String → String → Bool
text_leb s t = elim (String.compare s t) [ Ordering.gt ↦ false | _ ↦ true ]

insert : String → List String → List String
unfolding text_leb
insert s [] = s ∷ []
insert s (t ∷ rest) = let more = insert s rest in if text_leb s t then s ∷ t ∷ rest else t ∷ more

-- `sort.Strings`
unfoldable pub sort_texts : List String → List String
unfolding insert
sort_texts [] = []
sort_texts (s ∷ rest) = insert s (sort_texts rest)

split_plain : (s : String) → is_plain s ≡ true → split_comma s ≡ s ∷ []
unfolding split_comma onto is_plain
split_plain String.[] h = refl
split_plain (String.◌∷◌ c s) h = ground (arith, split_plain s)

split-cons :
    (c : Char) (s t : String) (rest : List String)
    → (code c == b',') ≡ false
    → split_comma t ≡ s ∷ rest
    → split_comma (String.◌∷◌ c t) ≡ String.◌∷◌ c s ∷ rest
unfolding split_comma onto
split-cons c s t rest h e =
    ap (λ b. if b then "" ∷ split_comma t else onto c (split_comma t)) h ∙ ap (onto c) e

plain-cons :
    (c : Char) (s : String)
    → is_plain (String.◌∷◌ c s) ≡ true
    → ((code c == b',') ≡ false) × (is_plain s ≡ true)
unfolding is_plain
plain-cons c s h = ground arith

split_comma_first : (t : String) → split_comma (String.◌∷◌ "," t) ≡ "" ∷ split_comma t
unfolding split_comma
split_comma_first t = refl

split-append :
    (s t : String)
    → is_plain s ≡ true
    → split_comma (String.◌++◌ s (String.◌++◌ "," t)) ≡ s ∷ split_comma t
split-append String.[] t h =
    ap split_comma (
      nil-append (String.◌++◌ "," t)
      ∙ cons-append "," String.[] t
      ∙ ap (String.◌∷◌ ",") (nil-append t))
    ∙ split_comma_first t
split-append (String.◌∷◌ c s) t h =
    let (n, p) = plain-cons c s h in
    ap split_comma (cons-append c s (String.◌++◌ "," t))
    ∙ split-cons c s (String.◌++◌ s (String.◌++◌ "," t)) (split_comma t) n (split-append s t p)

pub split_comma-join_with :
    (s : String) (rest : List String)
    → all is_plain (s ∷ rest) ≡ true
    → split_comma (join_with "," (s ∷ rest)) ≡ s ∷ rest
unfolding join_with
split_comma-join_with s [] h = split_plain s (ground arith)
split_comma-join_with s (t ∷ rest) h =
    split-append s (join_with "," (t ∷ rest)) (ground arith)
    ∙ ap (λ l. s ∷ l) (split_comma-join_with t rest (ground arith))

any-insert :
    (p : String → Bool) (s : String) (l : List String) → any p (insert s l) ≡ (p s || any p l)
unfolding insert
any-insert p s [] = refl
any-insert p s (t ∷ rest) = ground (arith, any-insert p s rest)

pub any-sort_texts : (p : String → Bool) (l : List String) → any p (sort_texts l) ≡ any p l
unfolding sort_texts
any-sort_texts p [] = refl
any-sort_texts p (s ∷ rest) =
    ground (arith, any-insert p s (sort_texts rest), any-sort_texts p rest)

all-insert :
    (p : String → Bool) (s : String) (l : List String) → all p (insert s l) ≡ (p s && all p l)
unfolding insert
all-insert p s [] = refl
all-insert p s (t ∷ rest) = ground (arith, all-insert p s rest)

pub all-sort_texts : (p : String → Bool) (l : List String) → all p (sort_texts l) ≡ all p l
unfolding sort_texts
all-sort_texts p [] = refl
all-sort_texts p (s ∷ rest) =
    ground (arith, all-insert p s (sort_texts rest), all-sort_texts p rest)

plain-onto :
    (c : Char) (l : List String)
    → (code c == b',') ≡ false
    → all is_plain l ≡ true
    → all is_plain (onto c l) ≡ true
unfolding onto is_plain
plain-onto c [] h a = ground arith
plain-onto c (p ∷ ps) h a = ground arith

pub plain-split_comma : (s : String) → all is_plain (split_comma s) ≡ true
unfolding split_comma is_plain
plain-split_comma String.[] = refl
plain-split_comma (String.◌∷◌ c s) =
    ground (arith, plain-split_comma s, plain-onto c (split_comma s))

plain-trim_left : (s : String) → is_plain s ≡ true → is_plain (trim_left s) ≡ true
unfolding trim_left is_plain
plain-trim_left String.[] h = refl
plain-trim_left (String.◌∷◌ c s) h = ground (arith, plain-trim_left s)

plain-trim_right : (s : String) → is_plain s ≡ true → is_plain (trim_right s) ≡ true
unfolding trim_right is_plain
plain-trim_right String.[] h = refl
plain-trim_right (String.◌∷◌ c s) h =
    choose_either (λ r. is_plain r ≡ true) (is_space c && trim_right s == "") "" _ (λ e. refl)
      (λ e. ground (arith, plain-trim_right s))

pub plain-trim_space : (s : String) → is_plain s ≡ true → is_plain (trim_space s) ≡ true
unfolding trim_space
plain-trim_space s h = plain-trim_right (trim_left s) (plain-trim_left s h)

is_empty-onto : (c : Char) (l : List String) → is_empty (onto c l) ≡ false
unfolding onto
is_empty-onto c [] = refl
is_empty-onto c (p ∷ ps) = refl

pub is_empty-split_comma : (s : String) → is_empty (split_comma s) ≡ false
unfolding split_comma
is_empty-split_comma String.[] = refl
is_empty-split_comma (String.◌∷◌ c s) =
    choose_either (λ l. is_empty l ≡ false) (code c == b',') ("" ∷ split_comma s)
      (onto c (split_comma s)) (λ e. refl) (λ e. is_empty-onto c (split_comma s))
