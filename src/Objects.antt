-- ===== src/Objects.antt =====
-- Objects of one kind as the controllers reach them through the client, which is code of a library
-- and a parameter: what a read returns, how writes are refused, and what accepted writes do.
pub mod Table
use argocd_vee.Common.{
  ◌==◌, string_eq, false, ◌≡◌, ap, subst, sym, ◌∙◌, refl, String, Bool, true, false, Option, none,
  some, Option-cases, inl, inr,
}
use argocd_vee.Effect.{Err, Outcome, ok, err, Step, IsOk, Ensures}
use argocd_vee.Kube.{Fetch, found, missing, failed}
use argocd_vee.Status.{returned}

-- `client.Client` on one kind, by namespace and name (a kind of the whole cluster has the empty
-- namespace), and `controllerutil.SetControllerReference` on an object of that kind, of which the
-- error only is seen here.
pub record ObjectClient (W A : Type 0) : Type 0 where
  pub get : W → String → String → Fetch A
  pub create : String → String → A → W → W × Option Err
  pub update : String → String → A → W → W × Option Err
  pub delete : String → String → W → W × Option Err
  pub own : A → Option Err

-- A call of the client as a step.
unfoldable pub call : {W : Type 0} → (W → W × Option Err) → Step W
unfolding returned
call f w = let (v, e) = f w in (returned e, v)

-- The owner of an object is set before it is created.
unfoldable pub owned : {W A : Type 0} → ObjectClient W A → A → Step W
unfolding returned
owned k a w = (returned (k.own a), w)

-- What the API server promises of the writes that it accepts, and of those that it refuses.
pub record IsStore {W A : Type 0} (k : ObjectClient W A) : Type 0 where
  pub created :
      (ns n : String) (a : A) (w : W)
      → (k.create ns n a w).1 ≡ none
      → k.get (k.create ns n a w).0 ns n ≡ found a
  pub updated :
      (ns n : String) (a : A) (w : W)
      → (k.update ns n a w).1 ≡ none
      → k.get (k.update ns n a w).0 ns n ≡ found a
  pub deleted :
      (ns n : String) (w : W)
      → (k.delete ns n w).1 ≡ none
      → k.get (k.delete ns n w).0 ns n ≡ missing

-- A write in one namespace leaves the others.
pub record KeepsOthers {W A : Type 0} (k : ObjectClient W A) : Type 0 where
  pub created :
      (ns ms n : String) (a : A) (w : W)
      → (ns == ms) ≡ false
      → k.get (k.create ns n a w).0 ms n ≡ k.get w ms n
  pub updated :
      (ns ms n : String) (a : A) (w : W)
      → (ns == ms) ≡ false
      → k.get (k.update ns n a w).0 ms n ≡ k.get w ms n
  pub deleted :
      (ns ms n : String) (w : W)
      → (ns == ms) ≡ false
      → k.get (k.delete ns n w).0 ms n ≡ k.get w ms n

-- A call that returns without an error has none.
pub call-ok : {W : Type 0} (f : W → W × Option Err) (w : W) → (call f w).0 ≡ ok tt → (f w).1 ≡ none
unfolding call returned
call-ok f w h = elim (Option-cases (f w).1) [
  | inl e ↦ e
  | inr (x, e) ↦ elim (subst IsOk (sym (sym (ap returned e) ∙ h)) tt) [ ]
]

pub call_ok :
    {W : Type 0} (f : W → W × Option Err) (w : W) → (f w).1 ≡ none → call f w ≡ (ok tt, (f w).0)
unfolding call returned
call_ok f w h = ap (λ e. (returned e, (f w).0)) h

pub owned-Ensures :
    {W A : Type 0} {P : W → Type 0} (k : ObjectClient W A) (a : A) → Ensures P (owned k a) P
unfolding owned
owned-Ensures k a = record { after = λ w p h. p }

module _ {W A : Type 0} (k : ObjectClient W A) (s : IsStore k) (ns n : String) where
  pub create-Ensures :
      {P : W → Type 0} (a : A) → Ensures P (call (k.create ns n a)) (λ w. k.get w ns n ≡ found a)
  unfolding call
  create-Ensures a = record { after = λ w p h. s.created ns n a w (call-ok (k.create ns n a) w h) }

  pub update-Ensures :
      {P : W → Type 0} (a : A) → Ensures P (call (k.update ns n a)) (λ w. k.get w ns n ≡ found a)
  unfolding call
  update-Ensures a = record { after = λ w p h. s.updated ns n a w (call-ok (k.update ns n a) w h) }

  pub delete-Ensures :
      {P : W → Type 0} → Ensures P (call (k.delete ns n)) (λ w. k.get w ns n ≡ missing)
  unfolding call
  delete-Ensures = record { after = λ w p h. s.deleted ns n w (call-ok (k.delete ns n) w h) }

module _ {W A : Type 0} (k : ObjectClient W A) (ns n : String) where
  -- A read and what is done with each of its results.
  pub fetch-Ensures :
      {P Q : W → Type 0} (f : Fetch A → Step W)
      → ((a : A) → Ensures (λ w. P w × (k.get w ns n ≡ found a)) (f (found a)) Q)
      → Ensures (λ w. P w × (k.get w ns n ≡ missing)) (f missing) Q
      → ((e : Err) → Ensures (λ w. P w × (k.get w ns n ≡ failed e)) (f (failed e)) Q)
      → Ensures P (λ w. f (k.get w ns n) w) Q
  fetch-Ensures {P} {Q} f a m e = record { after = λ w p. go w p (k.get w ns n) refl }
    where
      go : (w : W) → P w → (r : Fetch A) → k.get w ns n ≡ r → (f r w).0 ≡ ok tt → Q (f r w).1
      go w p (found x) g h = (a x).after w (p, g) h
      go w p missing g h = m.after w (p, g) h
      go w p (failed x) g h = (e x).after w (p, g) h

module _ {W A : Type 0} (k : ObjectClient W A) (o : KeepsOthers k) (ns ms n : String)
    (d : (ns == ms) ≡ false) where
  pub create-keeps :
      (Q : Fetch A → Type 0) (a : A)
      → Ensures (λ w. Q (k.get w ms n)) (call (k.create ns n a)) (λ w. Q (k.get w ms n))
  unfolding call
  create-keeps Q a = record { after = λ w q h. subst Q (sym (o.created ns ms n a w d)) q }

  pub update-keeps :
      (Q : Fetch A → Type 0) (a : A)
      → Ensures (λ w. Q (k.get w ms n)) (call (k.update ns n a)) (λ w. Q (k.get w ms n))
  unfolding call
  update-keeps Q a = record { after = λ w q h. subst Q (sym (o.updated ns ms n a w d)) q }

  pub delete-keeps :
      (Q : Fetch A → Type 0)
      → Ensures (λ w. Q (k.get w ms n)) (call (k.delete ns n)) (λ w. Q (k.get w ms n))
  unfolding call
  delete-keeps Q = record { after = λ w q h. subst Q (sym (o.deleted ns ms n w d)) q }
