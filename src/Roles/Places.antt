-- ===== src/Roles/Places.antt =====
-- controllers/argocd/role.go: what the body of reconcileRole's loop leaves of the role in its own
-- namespace and in the others.
use argocd_vee.Common.{
  ◌≡◌, sym, subst, String, Bool, true, false, not, List, ◌||◌, ◌==◌, string_eq, if◌then◌else◌,
  arith,
}
use argocd_vee.Effect.{
  Outcome, ok, done, failure, ◌>>◌, Ensures, Anywhere, if-Ensures, done-Ensures, then-Ensures,
  fail-Ensures, conclude,
}
use argocd_vee.Kube.{Fetch, found, missing, failed, Listing, items, list_failed}
use argocd_vee.Objects.{
  IsStore, KeepsOthers, call, owned-Ensures, fetch-Ensures, create-Ensures, update-Ensures,
  delete-Ensures, create-keeps, update-keeps, delete-keeps,
}
use argocd_vee.Roles.{
  Role, RoleClient, RoleSettings, has_custom_role, is_unused_dex, own_role, on_role, with_hooked,
  is_skipped, on_listing, new_role,
}

module _ {WR WN R : Type 0} (k : RoleClient WR WN R) (same_rules : List R → List R → Bool)
    (hook : Role R → Outcome (Role R)) (cr : RoleSettings) (component : String) where
  -- The role is missing, or it is there with the rules.
  abbrev pub Holds : Bool → Role R → Fetch (Role R) → Type 0
  Holds true role f = f ≡ missing
  Holds false role f = (x : Role R) × (f ≡ found x) × (same_rules x.rules role.rules ≡ true)

  -- No role where a cluster role is named in its place, or the component is Dex and unused.
  abbrev pub IsPlaced : Role R → Fetch (Role R) → Type 0
  IsPlaced role =
      Holds
        (has_custom_role k same_rules hook cr component
          || is_unused_dex k same_rules hook cr component)
        role

  abbrev pub ComparesRules : Type 0
  ComparesRules = (rules : List R) → same_rules rules rules ≡ true

  make-Ensures :
      (ns : String) (role : Role R) {P : WR → Type 0}
      → IsStore k.roles
      → Ensures P
          (own_role k same_rules hook cr component ns role
            >> call (k.roles.create ns role.name role))
          (λ w. k.roles.get w ns role.name ≡ found role)
  make-Ensures ns role s =
      then-Ensures {Q = Anywhere}
        (if-Ensures (cr.namespace == ns) (λ e. conclude (λ w p. tt) (owned-Ensures k.roles role))
          (λ e. done-Ensures (λ w p. tt)))
        (create-Ensures k.roles s ns role.name role)

  on_missing-Ensures :
      (ns : String) (role : Role R) (c u : Bool)
      → IsStore k.roles
      → ComparesRules
      → Ensures
          (λ w. Anywhere w × (k.roles.get w ns role.name ≡ missing))
          (if c
            then done
            else if u
            then done
            else (own_role k same_rules hook cr component ns role
                >> call (k.roles.create ns role.name role)))
          (λ w. Holds (c || u) role (k.roles.get w ns role.name))
  on_missing-Ensures ns role true u s c' = done-Ensures (λ w p. p.1)
  on_missing-Ensures ns role false true s c' = done-Ensures (λ w p. p.1)
  on_missing-Ensures ns role false false s c' =
      conclude (λ w g. (role, g, c' role.rules)) (make-Ensures ns role s)

  same_of_not : (b : Bool) → not b ≡ false → b ≡ true
  same_of_not b h = ground arith

  on_found-Ensures :
      (ns : String) (role x : Role R) (b : Bool)
      → IsStore k.roles
      → ComparesRules
      → Ensures
          (λ w. Anywhere w × (k.roles.get w ns role.name ≡ found x))
          (if b
            then call (k.roles.delete ns role.name)
            else if not (same_rules x.rules role.rules)
            then call (k.roles.update ns role.name (record x { rules = role.rules }))
            else done)
          (λ w. Holds b role (k.roles.get w ns role.name))
  on_found-Ensures ns role x true s c = delete-Ensures k.roles s ns role.name
  on_found-Ensures ns role x false s c =
      if-Ensures (not (same_rules x.rules role.rules))
        (λ e.
          conclude (λ w g. (record x { rules = role.rules }, g, c role.rules))
            (update-Ensures k.roles s ns role.name _))
        (λ e. done-Ensures (λ w p. (x, p.1, same_of_not _ e)))

  -- In its own namespace the step places the role.
  pub on_listing-IsPlaced :
      (rules : List R) (role : Role R) (ns : String) (l : Listing String)
      → IsStore k.roles
      → ComparesRules
      → hook (new_role k same_rules hook cr component rules) ≡ ok role
      → is_skipped k same_rules hook cr component ns l ≡ false
      → Ensures Anywhere
          (on_listing k same_rules hook cr component rules ns l)
          (λ w. IsPlaced role (k.roles.get w ns role.name))
  unfolding on_listing on_role
  on_listing-IsPlaced rules role ns (list_failed e) s c h n = fail-Ensures e
  on_listing-IsPlaced rules role ns (items l) s c h n =
      subst
        (λ (q : Bool × Outcome (Role R)).
          Ensures Anywhere (if q.0 then done else with_hooked k same_rules hook cr component ns q.1)
            (λ w. IsPlaced role (k.roles.get w ns role.name)))
        (λ i. (sym n i, sym h i))
        (fetch-Ensures k.roles ns role.name (on_role k same_rules hook cr component ns role)
          (λ x. on_found-Ensures ns role x _ s c) (on_missing-Ensures ns role _ _ s c)
          (λ e. fail-Ensures (failure "failed to reconcile the role for the service account")))

  module _ (role : Role R) (Q : Fetch (Role R) → Type 0) (ns ms : String) (o : KeepsOthers k.roles)
      (d : (ns == ms) ≡ false) where
    abbrev There : WR → Type 0
    There w = Q (k.roles.get w ms role.name)

    on_role-keeps :
        (f : Fetch (Role R))
        → Ensures There (on_role k same_rules hook cr component ns role f) There
    unfolding on_role
    on_role-keeps (failed e) =
        fail-Ensures (failure "failed to reconcile the role for the service account")
    on_role-keeps missing =
        if-Ensures (has_custom_role k same_rules hook cr component) (λ e. still)
          (λ e.
            if-Ensures (is_unused_dex k same_rules hook cr component) (λ e. still)
              (λ e.
                then-Ensures
                  (if-Ensures (cr.namespace == ns) (λ e. owned-Ensures k.roles role) (λ e. still))
                  (create-keeps k.roles o ns ms role.name d Q role)))
      where
        still : Ensures There done There
        still = done-Ensures (λ w q. q)
    on_role-keeps (found x) =
        if-Ensures
          (has_custom_role k same_rules hook cr component
            || is_unused_dex k same_rules hook cr component)
          (λ e. delete-keeps k.roles o ns ms role.name d Q)
          (λ e.
            if-Ensures (not (same_rules x.rules role.rules))
              (λ e. update-keeps k.roles o ns ms role.name d Q _) (λ e. done-Ensures (λ w q. q)))

    hooked-keeps : Ensures There (with_hooked k same_rules hook cr component ns (ok role)) There
    hooked-keeps = record { after = λ w q. (on_role-keeps (k.roles.get w ns role.name)).after w q }

    -- In another namespace it leaves the role alone.
    pub on_listing-keeps :
        (rules : List R) (l : Listing String)
        → hook (new_role k same_rules hook cr component rules) ≡ ok role
        → Ensures There (on_listing k same_rules hook cr component rules ns l) There
    unfolding on_listing
    on_listing-keeps rules (list_failed e) h = fail-Ensures e
    on_listing-keeps rules (items l) h =
        if-Ensures (is_skipped k same_rules hook cr component ns (items l))
          (λ e. done-Ensures (λ w q. q))
          (λ e.
            subst (λ q. Ensures There (with_hooked k same_rules hook cr component ns q) There)
              (sym h) hooked-keeps)
