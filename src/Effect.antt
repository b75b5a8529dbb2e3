-- ===== src/Effect.antt =====
-- How a reconciling function runs: a Go function that returns `error` and changes the cluster and
-- the objects it points at is a step on a state. A panic is an outcome of its own.
use argocd_vee.Common.{String, Bool, true, false, ◌≡◌, ◌≢◌, refl, sym, subst, if◌then◌else◌}

-- The errors that the operator tells apart: `apierrors.IsNotFound`, any other of the API, its own.
pub data Err : Type 0 where
  not_found : Err
  api : String → Err
  failure : String → Err

pub data Outcome {ℓ} (A : Type ℓ) : Type ℓ where
  ok : A → Outcome A
  err : Err → Outcome A
  panic : Outcome A

abbrev pub Act : Type 0 → Type 0 → Type 0
Act S A = S → Outcome A × S

abbrev pub Step : Type 0 → Type 0
Step S = Act S (Unit {0})

abbrev pub done : {S : Type 0} → Step S
done s = (ok tt, s)

abbrev pub fail : {S A : Type 0} → Err → Act S A
fail e s = (err e, s)

abbrev pub continue : {S A B : Type 0} → (A → Act S B) → Outcome A × S → Outcome B × S
continue f (ok a, s) = f a s
continue f (err e, s) = (err e, s)
continue f (panic, s) = (panic, s)

infixl 5 ◌>>=◌ ◌>>◌
abbrev pub ◌>>=◌ : {S A B : Type 0} → Act S A → (A → Act S B) → Act S B
◌>>=◌ m f s = continue f (m s)

abbrev pub ◌>>◌ : {S B : Type 0} → Step S → Act S B → Act S B
m >> k = m >>= λ _. k

-- `_ = f()`, and an error that is only logged: the error is dropped, a panic is not.
abbrev pub drop_error : {S : Type 0} → Outcome (Unit {0}) × S → Outcome (Unit {0}) × S
drop_error (ok u, s) = (ok u, s)
drop_error (err e, s) = (ok tt, s)
drop_error (panic, s) = (panic, s)

abbrev pub ignore : {S : Type 0} → Step S → Step S
ignore m s = drop_error (m s)

-- A run that does not panic.
abbrev pub IsReturn : {A : Type 0} → Outcome A → Type 0
IsReturn panic = ⊥
IsReturn o = Unit

pub continue-IsReturn :
    {S : Type 0} (n : Step S) (r : Outcome (Unit {0}) × S)
    → IsReturn r.0
    → ((s : S) → IsReturn (n s).0)
    → IsReturn (continue (λ u. n) r).0
continue-IsReturn n (ok u, s) h f = f s
continue-IsReturn n (err e, s) h f = tt
continue-IsReturn n (panic, s) h f = elim h [ ]

-- A run that did not succeed is not continued.
pub continue_failed :
    {S : Type 0} (n : Step S) (r : Outcome (Unit {0}) × S) → r.0 ≢ ok tt → continue (λ u. n) r ≡ r
continue_failed n (ok u, d) h = elim (h refl) [ ]
continue_failed n (err x, d) h = refl
continue_failed n (panic, d) h = refl

abbrev pub IsOk : {A : Type 0} → Outcome A → Type 0
IsOk (ok a) = Unit
IsOk _ = ⊥

-- One that did is.
pub continue_ok :
    {S : Type 0} (n : Step S) (r : Outcome (Unit {0}) × S)
    → r.0 ≡ ok tt
    → continue (λ u. n) r ≡ n r.1
continue_ok n (ok u, s) h = refl
continue_ok n (err e, s) h = elim (subst IsOk (sym h) tt) [ ]
continue_ok n (panic, s) h = elim (subst IsOk (sym h) tt) [ ]

-- A run from a state with `P` that returns without an error ends in a state with `Q`.
pub record Ensures {S : Type 0} (P : S → Type 0) (m : Step S) (Q : S → Type 0) : Type 0 where
  pub after : (s : S) → P s → (m s).0 ≡ ok tt → Q (m s).1

abbrev pub Anywhere : {S : Type 0} → S → Type 0
Anywhere s = Unit

pub fail-Ensures : {S : Type 0} {P Q : S → Type 0} (e : Err) → Ensures P (fail e) Q
fail-Ensures e = record { after = λ s p h. elim (subst IsOk (sym h) tt) [ ] }

pub panic-Ensures : {S : Type 0} {P Q : S → Type 0} → Ensures P (λ s. (panic, s)) Q
panic-Ensures = record { after = λ s p h. elim (subst IsOk (sym h) tt) [ ] }

pub done-Ensures : {S : Type 0} {P Q : S → Type 0} → ((s : S) → P s → Q s) → Ensures P done Q
done-Ensures f = record { after = λ s p h. f s p }

continue-after :
    {S : Type 0} {Q R : S → Type 0} (n : Step S) (r : Outcome (Unit {0}) × S)
    → Ensures Q n R
    → (r.0 ≡ ok tt → Q r.1)
    → (continue (λ u. n) r).0 ≡ ok tt
    → R (continue (λ u. n) r).1
continue-after n (ok u, t) g q h = g.after t (q refl) h
continue-after n (err e, t) g q h = elim (subst IsOk (sym h) tt) [ ]
continue-after n (panic, t) g q h = elim (subst IsOk (sym h) tt) [ ]

pub then-Ensures :
    {S : Type 0} {P Q R : S → Type 0} {m n : Step S}
    → Ensures P m Q
    → Ensures Q n R
    → Ensures P (m >> n) R
then-Ensures {m = m} {n} f g = record { after = λ s p h. continue-after n (m s) g (f.after s p) h }

pub if-Ensures :
    {S : Type 0} {P Q : S → Type 0} {m n : Step S} (b : Bool)
    → (b ≡ true → Ensures P m Q)
    → (b ≡ false → Ensures P n Q)
    → Ensures P (if b then m else n) Q
if-Ensures true f g = f refl
if-Ensures false f g = g refl

pub weaken :
    {S : Type 0} {P P' Q : S → Type 0} {m : Step S}
    → ((s : S) → P' s → P s)
    → Ensures P m Q
    → Ensures P' m Q
weaken f g = record { after = λ s p h. g.after s (f s p) h }

pub conclude :
    {S : Type 0} {P Q Q' : S → Type 0} {m : Step S}
    → ((s : S) → Q s → Q' s)
    → Ensures P m Q
    → Ensures P m Q'
conclude {m = m} f g = record { after = λ s p h. f (m s).1 (g.after s p h) }
