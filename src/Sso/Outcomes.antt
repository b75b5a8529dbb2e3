-- ===== src/Sso/Outcomes.antt =====
-- controllers/argocd/sso.go: how a call of reconcileSSO ends.
use argocd_vee.Common.{
  ◌≡◌, ◌≢◌, refl, ◌∙◌, subst, sym, String, Option, none, some, ◌==◌, string_eq, to_lower, choose,
  eq_iff,
}
use argocd_vee.Effect.{
  IsReturn, Err, api, Outcome, ok, err, panic, not_found, failure, Step, ignore, drop_error,
  continue, fail, ◌>>◌,
}
use argocd_vee.Api.{ArgoCdSsoSpec, provider_is}
use argocd_vee.Kube.{StatusClient, ClusterApis}
use argocd_vee.Status.{State, write_status, store_sso, reconcile_status_sso, returned, set_status}
use argocd_vee.Sso.{
  Illegal, no_dex_config, keycloak_beside_dex, dex_beside_keycloak, spec_without_provider,
  unsupported_provider, template_without_deployment_config, first_conflict, SsoResources, set_legal,
  refuse, provide, settle, configure, reconcile_sso, allow_not_found, drop_not_found,
}
use argocd_vee.Sso.Legality.{IsLegal, first_conflict-IsLegal}

module _ {W : Type 0} where
  -- How a run ends: any outcome, with the indicator of legality at `word`.
  abbrev LegalAt : String → Outcome (Unit {0}) × State W → Type 0
  LegalAt word r = r.1.sso_legal ≡ word

  -- A step that leaves the indicator as it is, however it ends.
  abbrev pub KeepsLegal : Step (State W) → Type 0
  KeepsLegal m = (s : State W) → LegalAt s.sso_legal (m s)

  next-LegalAt :
      (word : String) (n : Step (State W)) (r : Outcome (Unit {0}) × State W)
      → KeepsLegal n
      → LegalAt word r
      → LegalAt word (continue (λ u. n) r)
  next-LegalAt word n (ok a, s) q p = q s ∙ p
  next-LegalAt word n (err e, s) q p = p
  next-LegalAt word n (panic, s) q p = p

  drop_error-LegalAt :
      (word : String) (r : Outcome (Unit {0}) × State W)
      → LegalAt word r
      → LegalAt word (drop_error r)
  drop_error-LegalAt word (ok a, s) p = p
  drop_error-LegalAt word (err e, s) p = p
  drop_error-LegalAt word (panic, s) p = p

  drop_not_found-LegalAt :
      (word : String) (r : Outcome (Unit {0}) × State W)
      → LegalAt word r
      → LegalAt word (drop_not_found r)
  drop_not_found-LegalAt word (ok a, s) p = p
  drop_not_found-LegalAt word (err not_found, s) p = p
  drop_not_found-LegalAt word (err (api m), s) p = p
  drop_not_found-LegalAt word (err (failure m), s) p = p
  drop_not_found-LegalAt word (panic, s) p = p

  switch-LegalAt :
      (m n : Step (State W)) → KeepsLegal m → KeepsLegal n → KeepsLegal (allow_not_found m >> n)
  switch-LegalAt m n p q s =
      next-LegalAt s.sso_legal n (drop_not_found (m s)) q
        (drop_not_found-LegalAt s.sso_legal (m s) (p s))

-- How an illegal configuration ends: with an error, and with the indicator and the status at
-- Failed.
abbrev pub IsRefused : {W : Type 0} → Outcome (Unit {0}) × State W → Type 0
IsRefused (o, t) =
    ((e : Err) × (o ≡ err e)) × (t.sso_legal ≡ "Failed") × (t.cr.status.sso ≡ "Failed")

abbrev pub verdict_of : Option Illegal → String
verdict_of none = "Success"
verdict_of (some x) = "Failed"

-- Neither a panic nor a status of Sso other than `word`.
abbrev Reports : {W : Type 0} → String → Outcome (Unit {0}) × State W → Type 0
Reports word r = IsReturn r.0 × (r.1.cr.status.sso ≡ word)

fail-IsRefused :
    {W : Type 0} (e : Err) (r : Outcome (Unit {0}) × State W)
    → LegalAt "Failed" r
    → Reports "Failed" r
    → IsRefused (continue (λ u. fail e) r)
fail-IsRefused e (ok a, s) p (i, q) = ((e, refl), p, q)
fail-IsRefused e (err x, s) p (i, q) = ((x, refl), p, q)
fail-IsRefused e (panic, s) p (i, q) = elim i [ ]

ignore-IsRefused :
    {W : Type 0} (e : Err) (r : Outcome (Unit {0}) × State W)
    → LegalAt "Failed" r
    → Reports "Failed" r
    → IsRefused (continue (λ u. fail e) (drop_error r))
ignore-IsRefused e (ok a, s) p (i, q) = ((e, refl), p, q)
ignore-IsRefused e (err x, s) p (i, q) = ((e, refl), p, q)
ignore-IsRefused e (panic, s) p (i, q) = elim i [ ]

module _ {W : Type 0} (k : StatusClient W) (apis : ClusterApis) where
  store-KeepsLegal : (word : String) → KeepsLegal (store_sso k apis word)
  unfolding store_sso write_status set_status
  store-KeepsLegal word s =
      choose (LegalAt s.sso_legal) (s.cr.status.sso == word) _ _ (λ e. refl) refl

  status-KeepsLegal : KeepsLegal (reconcile_status_sso k apis)
  unfolding reconcile_status_sso
  status-KeepsLegal s =
      choose (LegalAt s.sso_legal) (s.sso_legal == "Success") _ _
        (λ e.
          choose (LegalAt s.sso_legal) (provider_is "dex" s.cr.spec.sso) _ _
            (λ e. store-KeepsLegal _ s)
            (choose (LegalAt s.sso_legal) (provider_is "keycloak" s.cr.spec.sso) _ _
              (λ e. store-KeepsLegal _ s) refl))
        (store-KeepsLegal _ s)

  returned-IsReturn : (e : Option Err) → IsReturn (returned e)
  unfolding returned
  returned-IsReturn none = tt
  returned-IsReturn (some e) = tt

  store-Reports : (word : String) (s : State W) → Reports word (store_sso k apis word s)
  unfolding store_sso write_status set_status
  store-Reports word s =
      choose (Reports word) (s.cr.status.sso == word) _ _
        (λ e. (tt, (eq_iff s.cr.status.sso word).0 e)) (returned-IsReturn _, refl)

  status_failed-Reports :
      (s : State W)
      → Reports "Failed" (reconcile_status_sso k apis (record s { sso_legal = "Failed" }))
  unfolding reconcile_status_sso
  status_failed-Reports s = store-Reports "Failed" (record s { sso_legal = "Failed" })

  failed_legal :
      (s : State W)
      → LegalAt "Failed" (reconcile_status_sso k apis (record s { sso_legal = "Failed" }))
  failed_legal s = status-KeepsLegal (record s { sso_legal = "Failed" })

module _ {W : Type 0} (k : StatusClient W) (apis : ClusterApis) (r : SsoResources W) where
  refuse-IsRefused : (x : Illegal) (s : State W) → IsRefused (refuse k apis r x s)
  unfolding refuse set_legal
  refuse-IsRefused template_without_deployment_config s =
      fail-IsRefused _ _ (failed_legal k apis s) (status_failed-Reports k apis s)
  refuse-IsRefused no_dex_config s =
      ignore-IsRefused _ _ (failed_legal k apis s) (status_failed-Reports k apis s)
  refuse-IsRefused keycloak_beside_dex s =
      ignore-IsRefused _ _ (failed_legal k apis s) (status_failed-Reports k apis s)
  refuse-IsRefused dex_beside_keycloak s =
      ignore-IsRefused _ _ (failed_legal k apis s) (status_failed-Reports k apis s)
  refuse-IsRefused spec_without_provider s =
      ignore-IsRefused _ _ (failed_legal k apis s) (status_failed-Reports k apis s)
  refuse-IsRefused unsupported_provider s =
      ignore-IsRefused _ _ (failed_legal k apis s) (status_failed-Reports k apis s)

  refuse-same :
      (r' : SsoResources W) (x : Illegal) (s : State W) → refuse k apis r' x s ≡ refuse k apis r x s
  unfolding refuse set_legal
  refuse-same r' template_without_deployment_config s = refl
  refuse-same r' no_dex_config s = refl
  refuse-same r' keycloak_beside_dex s = refl
  refuse-same r' dex_beside_keycloak s = refl
  refuse-same r' spec_without_provider s = refl
  refuse-same r' unsupported_provider s = refl

  -- Refused, and whatever the reconcilers of the resources are.
  abbrev pub RefusesUntouched : State W → Type 0
  RefusesUntouched s =
      IsRefused (reconcile_sso k apis r s)
      × ((r' : SsoResources W) → reconcile_sso k apis r' s ≡ reconcile_sso k apis r s)

  settle_refuses :
      (o : Option Illegal) (sso : ArgoCdSsoSpec) (s : State W)
      → o ≢ none
      → IsRefused (settle k apis r o sso s)
        × ((r' : SsoResources W) → settle k apis r' o sso s ≡ settle k apis r o sso s)
  unfolding settle
  settle_refuses none sso s h = elim (h refl) [ ]
  settle_refuses (some x) sso s h = (refuse-IsRefused x s, λ r'. refuse-same r' x s)

  configure_refuses :
      (o : Option ArgoCdSsoSpec) (sso : ArgoCdSsoSpec) (s : State W)
      → o ≡ some sso
      → first_conflict apis sso ≢ none
      → IsRefused (configure k apis r o s)
        × ((r' : SsoResources W) → configure k apis r' o s ≡ configure k apis r o s)
  unfolding configure
  configure_refuses o sso s e h =
      subst
        (λ x.
          IsRefused (configure k apis r x s)
          × ((r' : SsoResources W) → configure k apis r' x s ≡ configure k apis r x s))
        (sym e) (settle_refuses (first_conflict apis sso) sso s h)

  -- A configuration that is not legal is refused: the call returns an error, the indicator and the
  -- status of the single sign-on are Failed, and no resource of a provider is touched, since the
  -- call is the same for any other reconcilers of these.
  pub reconcile_sso_refuses :
      (s : State W) (sso : ArgoCdSsoSpec)
      → s.cr.spec.sso ≡ some sso
      → (IsLegal apis sso → ⊥)
      → RefusesUntouched s
  unfolding reconcile_sso set_legal
  reconcile_sso_refuses s sso e h =
      configure_refuses s.cr.spec.sso sso (record s { sso_legal = "Unknown" }) e
        (λ c. h ((first_conflict-IsLegal apis sso).0 c))

  -- What the indicator says at the end, as a function of the configuration.
  abbrev pub verdict : Option ArgoCdSsoSpec → String
  verdict none = "Unknown"
  verdict (some sso) = verdict_of (first_conflict apis sso)

  abbrev pub KeepLegal : Type 0
  KeepLegal =
      KeepsLegal r.reconcile_dex_resources
      × KeepsLegal r.reconcile_keycloak_configuration
      × KeepsLegal r.delete_keycloak_configuration

  provide-KeepsLegal : (sso : ArgoCdSsoSpec) → KeepLegal → KeepsLegal (provide k apis r sso)
  unfolding provide
  provide-KeepsLegal sso (d, kc, dk) s =
      choose (λ (m : Step (State W)). LegalAt s.sso_legal (m s))
        (to_lower sso.provider == "keycloak") _ _
        (λ e. switch-LegalAt r.reconcile_dex_resources r.reconcile_keycloak_configuration d kc s)
        (choose (λ (m : Step (State W)). LegalAt s.sso_legal (m s)) (to_lower sso.provider == "dex")
          _ _ (λ e. switch-LegalAt r.delete_keycloak_configuration r.reconcile_dex_resources dk d s)
          refl)

  settle-LegalAt :
      (o : Option Illegal) (sso : ArgoCdSsoSpec) (s : State W)
      → KeepLegal
      → LegalAt (verdict_of o) (settle k apis r o sso s)
  unfolding settle set_legal
  settle-LegalAt (some x) sso s h = (refuse-IsRefused x s).1
  settle-LegalAt none sso s h =
      next-LegalAt "Success" (ignore (reconcile_status_sso k apis))
        (provide k apis r sso (record s { sso_legal = "Success" }))
        (λ t.
          drop_error-LegalAt t.sso_legal (reconcile_status_sso k apis t)
            (status-KeepsLegal k apis t))
        (provide-KeepsLegal sso h (record s { sso_legal = "Success" }))

  configure-LegalAt :
      (o : Option ArgoCdSsoSpec) (s : State W)
      → s.sso_legal ≡ "Unknown"
      → KeepLegal
      → LegalAt (verdict o) (configure k apis r o s)
  unfolding configure
  configure-LegalAt none s e h = e
  configure-LegalAt (some sso) s e h = settle-LegalAt (first_conflict apis sso) sso s h

  -- If the reconcilers of the resources leave the indicator alone, then it tells at the end of the
  -- call, whether that returns an error, panics or succeeds, what the configuration is: Unknown
  -- without single sign-on, Success if it is legal, Failed if not.
  pub reconcile_sso-verdict :
      (s : State W) → KeepLegal → (reconcile_sso k apis r s).1.sso_legal ≡ verdict s.cr.spec.sso
  unfolding reconcile_sso set_legal
  reconcile_sso-verdict s h =
      configure-LegalAt s.cr.spec.sso (record s { sso_legal = "Unknown" }) refl h
