-- ===== src/ClusterRoles/Modes.antt =====
-- controllers/argocd/role.go: what a run leaves of a cluster role in each mode.
use argocd_vee.Common.{
  ◌≡◌, ap, sym, ◌∙◌, subst, String, Bool, true, false, not, Option, none, some, List, ◌&&◌,
  string_eq, if◌then◌else◌,
}
use argocd_vee.Effect.{
  Outcome, ok, Step, done, failure, Ensures, Anywhere, if-Ensures, done-Ensures, fail-Ensures,
  weaken, conclude,
}
use argocd_vee.Kube.{found, missing}
use argocd_vee.Objects.{
  ObjectClient, IsStore, call, fetch-Ensures, create-Ensures, update-Ensures, delete-Ensures,
}
use argocd_vee.ClusterRoles.Fields.{
  ClusterRole, RoleOwner, new_cluster_role, generate_unique_resource_name,
  configure_aggregated_cluster_role,
}
use argocd_vee.ClusterRoles.{
  remove_if_there, remove_fetched, match_role, write_changed, on_existing, ensure_role, with_hooked,
  is_conflicting, is_optional, reconcile_cluster_role,
}
use argocd_vee.ClusterRoles.Matching.{
  agrees, matching, IsRole, ComparesRules, matched-agrees, unchanged-agrees, agreeing_unchanged,
  agrees_self, configured-IsRole,
}

module _ {W R : Type 0} (k : ObjectClient W (ClusterRole R)) (same_rules : List R → List R → Bool)
    (hook : ClusterRole R → Outcome (ClusterRole R)) (allowed : Bool) (cr : RoleOwner)
    (component : String) where
  abbrev name : String
  name = generate_unique_resource_name component cr

  -- No role, or one whose fields are the expected ones.
  abbrev pub Reached : Option (ClusterRole R) → W → Type 0
  Reached none w = k.get w "" name ≡ missing
  Reached (some e) w =
      (x : ClusterRole R) × (k.get w "" name ≡ found x)
      × (agrees same_rules cr.aggregated_cluster_roles component e x ≡ true)

  pub wanted : ClusterRole R → Option (ClusterRole R)
  wanted e = if allowed then some e else none

  -- The role that an instance should have in its mode, `hooked` being what the hook makes of the
  -- default role.
  unfoldable pub desired : List R → ClusterRole R → Option (ClusterRole R)
  unfolding wanted is_optional
  desired rules hooked =
      if allowed && cr.default_cluster_scoped_role_disabled
      then none
      else if allowed && cr.aggregated_cluster_roles
      then wanted
          (configure_aggregated_cluster_role cr component (new_cluster_role component rules cr))
      else if is_optional component
      then none
      else wanted hooked

  if-Reached :
      (b : Bool) (m n : Step W) (x y : Option (ClusterRole R))
      → Ensures Anywhere m (Reached x)
      → Ensures Anywhere n (Reached y)
      → Ensures Anywhere (if b then m else n) (Reached (if b then x else y))
  if-Reached true m n x y f g = f
  if-Reached false m n x y f g = g

  remove-Reached :
      IsStore k
      → Ensures Anywhere (remove_if_there k same_rules hook allowed cr component) (Reached none)
  unfolding remove_if_there
  remove-Reached s =
      fetch-Ensures k "" name (remove_fetched k same_rules hook allowed cr name)
        (λ r. delete-Ensures k s "" name) (done-Ensures (λ w p. p.1)) (λ e. fail-Ensures e)

  write-Reached :
      (e x : ClusterRole R)
      → IsStore k
      → IsRole same_rules e
      → Ensures
          (λ w. k.get w "" name ≡ found x)
          (write_changed k same_rules hook allowed cr name
            (matching same_rules cr.aggregated_cluster_roles component e x))
          (Reached (some e))
  write-Reached e x s r =
      if-Ensures (matching same_rules cr.aggregated_cluster_roles component e x).changed
        (λ h.
          conclude
            (λ w g. (
              (matching same_rules cr.aggregated_cluster_roles component e x).role,
              g,
              matched-agrees same_rules cr.aggregated_cluster_roles component e x r,
            ))
            (update-Ensures k s "" name _))
        (λ h.
          done-Ensures (λ w g.
            (x, g, unchanged-agrees same_rules cr.aggregated_cluster_roles component e x h)))

  on_found-Reached :
      (e x : ClusterRole R)
      → IsStore k
      → IsRole same_rules e
      → Ensures
          (λ w. Anywhere w × (k.get w "" name ≡ found x))
          (on_existing k same_rules hook allowed cr component e (found x))
          (Reached (wanted e))
  unfolding on_existing wanted match_role matching
  on_found-Reached e x s r =
      elim allowed
        as (λ (b : Bool).
          Ensures (λ w. Anywhere w × (k.get w "" name ≡ found x))
            (if not b
              then call (k.delete "" name)
              else write_changed k same_rules hook allowed cr name
                  (matching same_rules cr.aggregated_cluster_roles component e x))
            (Reached (if b then some e else none))) [
              | true ↦ weaken (λ w p. p.1) (write-Reached e x s r)
              | false ↦ delete-Ensures k s "" name
            ]

  on_missing-Reached :
      (e : ClusterRole R)
      → IsStore k
      → IsRole same_rules e
      → Ensures
          (λ w. Anywhere w × (k.get w "" name ≡ missing))
          (on_existing k same_rules hook allowed cr component e missing)
          (Reached (wanted e))
  unfolding on_existing wanted
  on_missing-Reached e s r =
      elim allowed
        as (λ (b : Bool).
          Ensures (λ w. Anywhere w × (k.get w "" name ≡ missing))
            (if not b then done else call (k.create "" name e))
            (Reached (if b then some e else none))) [
              | true ↦
                  conclude
                    (λ w g.
                      (e, g, agrees_self same_rules cr.aggregated_cluster_roles component e r))
                    (create-Ensures k s "" name e)
              | false ↦ done-Ensures (λ w p. p.1)
            ]

  ensure-Reached :
      (e : ClusterRole R)
      → IsStore k
      → IsRole same_rules e
      → Ensures Anywhere (ensure_role k same_rules hook allowed cr component e) (Reached (wanted e))
  unfolding ensure_role on_existing
  ensure-Reached e s r =
      fetch-Ensures k "" name (on_existing k same_rules hook allowed cr component e)
        (λ x. on_found-Reached e x s r) (on_missing-Reached e s r)
        (λ x. fail-Ensures (failure "failed to reconcile the cluster role"))

  pub reconcile-Reached :
      (rules : List R) (hooked : ClusterRole R)
      → IsStore k
      → ComparesRules same_rules
      → is_conflicting k same_rules hook allowed cr ≡ false
      → hook (new_cluster_role component rules cr) ≡ ok hooked
      → IsRole same_rules hooked
      → Ensures Anywhere
          (reconcile_cluster_role k same_rules hook allowed cr component rules)
          (Reached (desired rules hooked))
  unfolding reconcile_cluster_role desired
  reconcile-Reached rules hooked s c n h r =
      subst (λ b. Ensures Anywhere (if b then done else by_mode) (Reached (desired rules hooked)))
        (sym n)
        (if-Reached (allowed && cr.default_cluster_scoped_role_disabled) _ _ none _
          (remove-Reached s)
          (if-Reached (allowed && cr.aggregated_cluster_roles) _ _ (wanted configured) _
            (ensure-Reached configured s (configured-IsRole same_rules component rules cr c))
            (if-Reached (is_optional component) _ _ none (wanted hooked) (remove-Reached s) (
              subst
                (λ o.
                  Ensures Anywhere
                    (with_hooked k same_rules hook allowed cr
                      (ensure_role k same_rules hook allowed cr component) o)
                    (Reached (wanted hooked)))
                (sym h) (ensure-Reached hooked s r)))))
    where
      configured : ClusterRole R
      configured =
          configure_aggregated_cluster_role cr component (new_cluster_role component rules cr)

      by_mode : Step W
      by_mode =
          if allowed && cr.default_cluster_scoped_role_disabled
          then remove_if_there k same_rules hook allowed cr component
          else if allowed && cr.aggregated_cluster_roles
          then ensure_role k same_rules hook allowed cr component configured
          else if is_optional component
          then remove_if_there k same_rules hook allowed cr component
          else with_hooked k same_rules hook allowed cr
              (ensure_role k same_rules hook allowed cr component)
              (hook (new_cluster_role component rules cr))

  pub if_still :
      (b : Bool) (m n : Step W) (x y : Option (ClusterRole R)) (w : W)
      → (Reached x w → m w ≡ (ok tt, w))
      → (Reached y w → n w ≡ (ok tt, w))
      → Reached (if b then x else y) w
      → (if b then m else n) w ≡ (ok tt, w)
  if_still true m n x y w f g h = f h
  if_still false m n x y w f g h = g h

  pub remove_still :
      (w : W)
      → Reached none w
      → remove_if_there k same_rules hook allowed cr component w ≡ (ok tt, w)
  unfolding remove_if_there
  remove_still w h = ap (λ f. remove_fetched k same_rules hook allowed cr name f w) h

  pub ensure_still :
      (e : ClusterRole R) (w : W)
      → Reached (wanted e) w
      → ensure_role k same_rules hook allowed cr component e w ≡ (ok tt, w)
  unfolding ensure_role on_existing wanted match_role matching
  ensure_still e w =
      elim allowed
        as (λ (b : Bool).
          Reached (if b then e' else none) w
          → on_existing k same_rules hook b cr component e (k.get w "" name) w ≡ (ok tt, w)) [
            | true ↦ λ (x, g, a).
                ap (λ f. on_existing k same_rules hook true cr component e f w) g
                ∙ ap
                    (λ b.
                      (if b
                          then call (
                              k.update "" name
                                (matching same_rules cr.aggregated_cluster_roles component e
                                  x).role)
                          else done)
                        w)
                    (agreeing_unchanged same_rules cr.aggregated_cluster_roles component e x a)
            | false ↦ λ h. ap (λ f. on_existing k same_rules hook false cr component e f w) h
          ]
    where
      e' : Option (ClusterRole R)
      e' = some e
