-- ===== src/Roles/Everywhere.antt =====
-- controllers/argocd/role.go: the roles of all managed namespaces after a run.
use argocd_vee.Common.{
  ◌⊎◌, ◌≡◌, refl, sym, ◌∙◌, subst, String, Bool, true, false, List, [], ◌∷◌, ◌==◌, string_eq,
  false≢true, choose_either, Bool-cases, inl, inr, eq_iff, Entries, is_set, get, remove,
}
use argocd_vee.Effect.{
  Outcome, ok, Step, Ensures, Anywhere, done-Ensures, then-Ensures, conclude, weaken,
}
use argocd_vee.Kube.{Listing}
use argocd_vee.Objects.{IsStore, KeepsOthers}
use argocd_vee.Roles.{
  Role, RoleClient, RoleState, RoleSettings, ManagedNamespace, is_skipped, on_listing, new_role,
  remove_label, reconcile_in, reconcile_role,
}
use argocd_vee.Mappers.{managed_by_label}
use argocd_vee.Roles.Places.{IsPlaced, ComparesRules, on_listing-IsPlaced, on_listing-keeps}

-- Writing the labels of a namespace changes no list of Argo CD instances.
abbrev pub KeepsLists : {WR WN R : Type 0} → RoleClient WR WN R → Type 0
KeepsLists {WR} {WN} {R} k =
    (ns n : String) (labels : Entries) (w : WN)
    → k.list_argocds (k.update_labels ns labels w).0 n ≡ k.list_argocds w n

module _ {WR WN R : Type 0} (k : RoleClient WR WN R) (same_rules : List R → List R → Bool)
    (hook : Role R → Outcome (Role R)) (cr : RoleSettings) (component : String) (rules : List R)
    (role : Role R) (lists : String → Listing String) where
  abbrev St : Type 0
  St = RoleState WR WN

  -- The instances of each namespace are the given ones.
  abbrev pub HasLists : St → Type 0
  HasLists s = (n : String) → k.list_argocds s.others n ≡ lists n

  -- A namespace in which the role is reconciled.
  abbrev pub IsServed : ManagedNamespace → Type 0
  IsServed ns =
      (ns.is_terminating ≡ false)
      × (is_skipped k same_rules hook cr component ns.name (lists ns.name) ≡ false)

  list-remove_label :
      (ns : ManagedNamespace) (n : String) (w : WN)
      → KeepsLists k
      → k.list_argocds (remove_label k same_rules hook cr component ns w) n ≡ k.list_argocds w n
  unfolding remove_label
  list-remove_label ns n w h =
      choose_either (λ v. k.list_argocds v n ≡ k.list_argocds w n)
        (is_set (get managed_by_label ns.labels)) _ w
        (λ e. h ns.name n (remove managed_by_label ns.labels) w) (λ e. refl)

  abbrev on_place : String → WN → Step WR
  on_place n w = on_listing k same_rules hook cr component rules n (k.list_argocds w n)

  -- A step keeps the lists, and what its part on the roles ensures.
  in-Ensures :
      {P Q : WR → Type 0} (ns : ManagedNamespace)
      → KeepsLists k
      → (ns.is_terminating ≡ true → (w : WR) → P w → Q w)
      → (ns.is_terminating ≡ false
          → Ensures P (on_listing k same_rules hook cr component rules ns.name (lists ns.name)) Q)
      → Ensures
          (λ s. HasLists s × P s.roles)
          (reconcile_in k same_rules hook cr component rules ns)
          (λ s. HasLists s × Q s.roles)
  unfolding reconcile_in
  in-Ensures {P} {Q} ns h t f = record {
    after = λ s (l, p).
        choose_either (λ (r : Outcome (Unit {0}) × St). r.0 ≡ ok tt → HasLists r.1 × Q r.1.roles)
          ns.is_terminating _ _
          (λ e x. (λ n. list-remove_label ns n s.others h ∙ l n, t e s.roles p))
          (λ e x. (
            l,
            subst
                (λ g.
                  (on_listing k same_rules hook cr component rules ns.name g s.roles).0 ≡ ok tt
                  → Q (on_listing k same_rules hook cr component rules ns.name g s.roles).1)
                (sym (l ns.name)) (λ y. (f e).after s.roles p y) x,
          ));
  }

  abbrev pub PlacedRole : String → WR → Type 0
  PlacedRole m w = IsPlaced k same_rules hook cr component role (k.roles.get w m role.name)

  -- The hook makes the role of the new one, and the comparison of rules finds a list equal to itself.
  abbrev pub IsSetUp : Type 0
  IsSetUp =
      IsStore k.roles
      × KeepsOthers k.roles
      × KeepsLists k
      × ComparesRules k same_rules hook cr component
      × (hook (new_role k same_rules hook cr component rules) ≡ ok role)

  place-Ensures :
      (ns : ManagedNamespace)
      → IsSetUp
      → IsServed ns
      → Ensures HasLists
          (reconcile_in k same_rules hook cr component rules ns)
          (λ s. HasLists s × PlacedRole ns.name s.roles)
  place-Ensures ns (s, o, l, c, h) (t, n) =
      weaken (λ s g. (g, tt))
        (in-Ensures {P = Anywhere} ns l (λ e w p. elim (false≢true (sym t ∙ e)) [ ])
          (λ e.
            on_listing-IsPlaced k same_rules hook cr component rules role ns.name (lists ns.name) s
              c h n))

  keep-Ensures :
      (ns m : ManagedNamespace)
      → IsSetUp
      → IsServed m
      → Ensures
          (λ s. HasLists s × PlacedRole m.name s.roles)
          (reconcile_in k same_rules hook cr component rules ns)
          (λ s. HasLists s × PlacedRole m.name s.roles)
  keep-Ensures ns m (s, o, l, c, h) (t, n) =
      in-Ensures {P = PlacedRole m.name} {Q = PlacedRole m.name} ns l (λ e w p. p)
        (λ e. elim (Bool-cases (ns.name == m.name)) [
          | inl q ↦
              subst
                (λ a.
                  Ensures (PlacedRole m.name)
                    (on_listing k same_rules hook cr component rules a (lists a))
                    (PlacedRole m.name))
                (sym ((eq_iff ns.name m.name).0 q))
                (weaken (λ w p. tt)
                  (on_listing-IsPlaced k same_rules hook cr component rules role m.name
                    (lists m.name) s c h n))
          | inr q ↦
              on_listing-keeps k same_rules hook cr component role
                (IsPlaced k same_rules hook cr component role) ns.name m.name o q rules
                (lists ns.name) h
        ])

  loop_keeps :
      (l : List ManagedNamespace) (m : ManagedNamespace)
      → IsSetUp
      → IsServed m
      → Ensures
          (λ s. HasLists s × PlacedRole m.name s.roles)
          (reconcile_role k same_rules hook cr component rules l)
          (λ s. HasLists s × PlacedRole m.name s.roles)
  unfolding reconcile_role
  loop_keeps [] m a b = done-Ensures (λ s p. p)
  loop_keeps (ns ∷ rest) m a b = then-Ensures (keep-Ensures ns m a b) (loop_keeps rest m a b)

  -- Every namespace of the list that is served has its role.
  pub IsEverywhere : List ManagedNamespace → WR → Type 0
  IsEverywhere [] w = Unit
  IsEverywhere (ns ∷ rest) w = (IsServed ns → PlacedRole ns.name w) × IsEverywhere rest w

  any-Ensures :
      (ns : ManagedNamespace)
      → IsSetUp
      → Ensures HasLists (reconcile_in k same_rules hook cr component rules ns) HasLists
  any-Ensures ns (s, o, l, c, h) =
      weaken (λ s g. (g, tt))
        (conclude (λ s g. g.0)
          (in-Ensures {P = Anywhere} {Q = Anywhere} ns l (λ e w p. tt)
            (λ e. record { after = λ w p x. tt })))

  loop-Ensures :
      (l : List ManagedNamespace)
      → IsSetUp
      → Ensures HasLists
          (reconcile_role k same_rules hook cr component rules l)
          (λ s. IsEverywhere l s.roles)
  unfolding reconcile_role IsEverywhere
  loop-Ensures [] a = done-Ensures (λ s p. tt)
  loop-Ensures (ns ∷ rest) a = record {
    after = λ s p h. (
      λ v. ((then-Ensures (place-Ensures ns a v) (loop_keeps rest ns a v)).after s p h).1,
      (then-Ensures (any-Ensures ns a) (loop-Ensures rest a)).after s p h,
    );
  }

-- A namespace of the list.
unfoldable pub IsIn : ManagedNamespace → List ManagedNamespace → Type 0
IsIn ns [] = ⊥
IsIn ns (m ∷ rest) = (m ≡ ns) ⊎ IsIn ns rest

pick :
    {WR WN R : Type 0} (k : RoleClient WR WN R) (same_rules : List R → List R → Bool)
    (hook : Role R → Outcome (Role R)) (cr : RoleSettings) (component : String) (rules : List R)
    (role : Role R) (lists : String → Listing String) (l : List ManagedNamespace) (w : WR)
    (ns : ManagedNamespace)
    → IsEverywhere k same_rules hook cr component rules role lists l w
    → IsIn ns l
    → IsServed k same_rules hook cr component rules role lists ns
    → PlacedRole k same_rules hook cr component rules role lists ns.name w
unfolding IsEverywhere IsIn
pick k same_rules hook cr component rules role lists [] w ns e i v = elim i [ ]
pick k same_rules hook cr component rules role lists (m ∷ rest) w ns (f, e) (inl q) v =
    subst
      (λ n.
        IsServed k same_rules hook cr component rules role lists n
        → PlacedRole k same_rules hook cr component rules role lists n.name w)
      q f v
pick k same_rules hook cr component rules role lists (m ∷ rest) w ns (f, e) (inr i) v =
    pick k same_rules hook cr component rules role lists rest w ns e i v

-- When the API server keeps what it accepts and a write in one namespace leaves the others, a write of
-- labels changes no list of Argo CD instances, the comparison of rules finds a list equal to itself,
-- the hook makes a role of the new one, and a run returns no error: afterwards, in a managed
-- namespace that is not terminating and for which the component is not skipped, the role is missing
-- if a cluster role is named in its place or the component is Dex and unused, and else it is there
-- under the name and with the rules of the hook's role.
pub reconcile_role-IsPlaced :
    {WR WN R : Type 0} (k : RoleClient WR WN R) (same_rules : List R → List R → Bool)
    (hook : Role R → Outcome (Role R)) (cr : RoleSettings) (component : String) (rules : List R)
    (role : Role R) (namespaces : List ManagedNamespace) (s : RoleState WR WN)
    (ns : ManagedNamespace)
    → IsSetUp k same_rules hook cr component rules role (k.list_argocds s.others)
    → (reconcile_role k same_rules hook cr component rules namespaces s).0 ≡ ok tt
    → IsIn ns namespaces
    → IsServed k same_rules hook cr component rules role (k.list_argocds s.others) ns
    → IsPlaced k same_rules hook cr component role (
        k.roles.get
          (reconcile_role k same_rules hook cr component rules namespaces s).1.roles
          ns.name
          role.name)
reconcile_role-IsPlaced k same_rules hook cr component rules role namespaces s ns a h i v =
    pick k same_rules hook cr component rules role (k.list_argocds s.others) namespaces
      (reconcile_role k same_rules hook cr component rules namespaces s).1.roles ns
      ((loop-Ensures k same_rules hook cr component rules role (k.list_argocds s.others) namespaces
          a).after
        s (λ n. refl) h)
      i v
