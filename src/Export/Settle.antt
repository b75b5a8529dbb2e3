-- ===== src/Export/Settle.antt =====
-- controllers/argocdexport: what a run without an error leaves behind, and that the next one changes
-- nothing.
use argocd_vee.Common.{
  Entries, ◌≡◌, refl, sym, String, Bool, true, false, not, Option, none, some, [], ◌∷◌, ◌&&◌, ◌||◌,
  ◌==◌, string_eq, get, put, arith, choose_either, ltb, get-put-same, subst,
}
use argocd_vee.Effect.{
  Outcome, ok, err, panic, Step, done, Ensures, conclude, then-Ensures, if-Ensures, done-Ensures,
  fail-Ensures, panic-Ensures, Anywhere, ◌>>◌,
}
use argocd_vee.Kube.{Fetch, found, missing, failed, is_object_found, object_after}
use argocd_vee.Objects.{IsStore, call, owned, create-Ensures, update-Ensures, owned-Ensures}
use argocd_vee.Export.Pod.{ArgoCdExport, ExportStorage, fetch_storage_secret_name, is_local}
use argocd_vee.Export.{
  ExportClient, ExportState, Secret, with_key, on_claims, on_others, storage_step, Job, backup_key,
  key_backup_key, store_backup_key, create_secret, on_secret, new_secret, new_job, status_completed,
  reconcile_export_secret, validate_export, reconcile_storage, claim_spec, reconcile_pvc,
  reconcile_local_storage,
}

module _ {WS WJ WC WP WE V : Type 0} (k : ExportClient WS WJ WC WP WE V)
    (st : ExportStorage V) where
  abbrev pub Ends : Type 0
  Ends = Outcome (Unit {0}) × ExportState WS WJ WC WP WE V

  -- A resource with storage that is exported once, and has its first phase.
  abbrev pub IsValidated : ArgoCdExport V → Type 0
  IsValidated e = (e.storage ≡ some st) × (e.schedule ≡ none) × ((e.phase == "") ≡ false)

  -- Local storage has its claim, until the export is complete.
  unfoldable pub claim_is_known : ArgoCdExport V → Fetch V → Bool
  claim_is_known e r = not (is_local st) || (e.phase == status_completed || is_object_found r)

  abbrev pub HasClaim : ArgoCdExport V → WP → Type 0
  HasClaim e w = claim_is_known e (k.claims.get w e.namespace e.name) ≡ true

  -- The secret is there with a backup key.
  unfoldable pub secret_has_key : Fetch Secret → Bool
  secret_has_key r = is_object_found r && not (backup_key (object_after new_secret r) == "")

  abbrev pub HasSecret : ArgoCdExport V → WS → Type 0
  HasSecret e w = secret_has_key (k.secrets.get w e.namespace (fetch_storage_secret_name e)) ≡ true

  -- The job is there, and the export complete if a pod of it has succeeded.
  unfoldable pub job_is_known : ArgoCdExport V → Fetch Job → Bool
  job_is_known e r =
      is_object_found r
      && not (ltb 0 (object_after new_job r).succeeded && not (e.phase == status_completed))

  abbrev pub HasJob : ArgoCdExport V → WJ → Type 0
  HasJob e w = job_is_known e (k.jobs.get w e.namespace e.name) ≡ true

  pub validate-after :
      (s : ExportState WS WJ WC WP WE V)
      → s.export.storage ≡ some st
      → s.export.schedule ≡ none
      → (validate_export k s).0 ≡ ok tt
      → IsValidated (validate_export k s).1.export
  unfolding validate_export call
  validate-after s p q =
      choose_either (λ (r : Ends). r.0 ≡ ok tt → IsValidated r.1.export) (s.export.phase == "") _ _
        (λ e h. (p, q, refl)) (λ e h. (p, q, e))

  on_claims-Ensures :
      {Q : WP → Type 0} {m : Step WP} (e : ArgoCdExport V)
      → Ensures Anywhere m Q
      → Ensures (λ t. t.export ≡ e) (on_claims k m) (λ t. (t.export ≡ e) × Q t.claims)
  on_claims-Ensures e f = record { after = λ s p h. (p, f.after s.claims tt h) }

  create_claim-Ensures :
      (e : ArgoCdExport V)
      → IsStore k.claims
      → Ensures
          (λ t. t.export ≡ e)
          (on_claims k (
              owned k.claims (claim_spec k st)
              >> call (k.claims.create e.namespace e.name (claim_spec k st)))
            >> on_others k (call k.create_event))
          (λ t.
            (t.export ≡ e) × (k.claims.get t.claims e.namespace e.name ≡ found (claim_spec k st)))
  unfolding call
  create_claim-Ensures e c =
      then-Ensures
        (on_claims-Ensures e (
          then-Ensures (owned-Ensures k.claims (claim_spec k st))
            (create-Ensures k.claims c e.namespace e.name (claim_spec k st))))
        (record { after = λ s p h. p })

  pub claim_known_done :
      (e : ArgoCdExport V) (r : Fetch V)
      → (e.phase == status_completed || is_object_found r) ≡ true
      → claim_is_known e r ≡ true
  unfolding claim_is_known
  claim_known_done e r h = ground arith

  claim_known_elsewhere :
      (e : ArgoCdExport V) (r : Fetch V) → is_local st ≡ false → claim_is_known e r ≡ true
  unfolding claim_is_known
  claim_known_elsewhere e r h = ground arith

  claim_known_found :
      (e : ArgoCdExport V) (r : Fetch V) (v : V) → r ≡ found v → claim_is_known e r ≡ true
  unfolding claim_is_known is_object_found
  claim_known_found e r v h = ground arith

  abbrev pub AfterStorage : ExportState WS WJ WC WP WE V → Ends → Type 0
  AfterStorage s r = r.0 ≡ ok tt → (r.1.export ≡ s.export) × HasClaim s.export r.1.claims

  pub storage-after :
      (s : ExportState WS WJ WC WP WE V)
      → IsStore k.claims
      → s.export.storage ≡ some st
      → AfterStorage s (reconcile_storage k s)
  unfolding reconcile_storage reconcile_local_storage reconcile_pvc
  storage-after s c p =
      subst (λ o. AfterStorage s (storage_step k o s)) (sym p)
        (choose_either (λ (m : Step (ExportState WS WJ WC WP WE V)). AfterStorage s (m s))
          (is_local st) (reconcile_pvc k st) done
          (λ l.
            choose_either (λ (r : Ends). AfterStorage s r)
              (s.export.phase == status_completed
                || is_object_found (k.claims.get s.claims s.export.namespace s.export.name))
              _ _ (λ e h. (refl, claim_known_done s.export _ e))
              (λ e h.
                let (x, g) = (create_claim-Ensures s.export c).after s refl h in
                (x, claim_known_found s.export _ _ g)))
          (λ e h. (refl, claim_known_elsewhere s.export _ e)))

  with_key-Ensures :
      {P Q : WS → Type 0} (g : Outcome String) (f : String → Step WS)
      → ((key : String) → g ≡ ok key → Ensures P (f key) Q)
      → Ensures P (with_key k g f) Q
  with_key-Ensures (ok key) f h = h key refl
  with_key-Ensures (err e) f h = fail-Ensures e
  with_key-Ensures panic f h = panic-Ensures

  has_key_found :
      (o : Fetch Secret) (m : Entries) (v : String)
      → o ≡ found (record { data_entries = some m })
      → get key_backup_key m ≡ some v
      → (v == "") ≡ false
      → secret_has_key o ≡ true
  unfolding secret_has_key is_object_found object_after backup_key
  has_key_found o m v e g h = ground arith

  has_key_kept :
      (o : Fetch Secret) (s : Secret)
      → o ≡ found s
      → (backup_key s == "") ≡ false
      → secret_has_key o ≡ true
  unfolding secret_has_key is_object_found object_after
  has_key_kept o s e h = ground arith

  create_secret-Ensures :
      {P : WS → Type 0} (ns name key : String)
      → IsStore k.secrets
      → (key == "") ≡ false
      → Ensures P
          (create_secret k ns name key)
          (λ w. secret_has_key (k.secrets.get w ns name) ≡ true)
  unfolding create_secret get
  create_secret-Ensures ns name key c h =
      conclude (λ w g. has_key_found _ ((key_backup_key, key) ∷ []) key g refl h)
        (then-Ensures (owned-Ensures k.secrets _) (create-Ensures k.secrets c ns name _))

  fill-Ensures :
      (ns name : String) (g : Outcome String) (o : Option Entries)
      → IsStore k.secrets
      → ((key : String) → g ≡ ok key → (key == "") ≡ false)
      → Ensures
          (λ w. k.secrets.get w ns name ≡ found (record { data_entries = o }))
          (on_secret k ns name g (found (record { data_entries = o })))
          (λ w. secret_has_key (k.secrets.get w ns name) ≡ true)
  unfolding on_secret is_object_found object_after backup_key store_backup_key
  fill-Ensures ns name g none c h = with_key-Ensures g _ (λ key e. panic-Ensures)
  fill-Ensures ns name g (some m) c h =
      if-Ensures (backup_key (record { data_entries = some m }) == "")
        (λ e. with_key-Ensures g _ (λ key q.
          conclude
            (λ w x.
              has_key_found _ (put key_backup_key key m) key x (get-put-same key_backup_key key m)
                (h key q))
            (update-Ensures k.secrets c ns name _)))
        (λ e. done-Ensures (λ w x. has_key_kept _ (record { data_entries = some m }) x e))

  on_secret-Ensures :
      (ns name : String) (g : Outcome String) (r : Fetch Secret)
      → IsStore k.secrets
      → ((key : String) → g ≡ ok key → (key == "") ≡ false)
      → Ensures
          (λ w. k.secrets.get w ns name ≡ r)
          (on_secret k ns name g r)
          (λ w. secret_has_key (k.secrets.get w ns name) ≡ true)
  unfolding on_secret is_object_found object_after store_backup_key backup_key
  on_secret-Ensures ns name g (found s) c h = fill-Ensures ns name g s.data_entries c h
  on_secret-Ensures ns name g missing c h =
      with_key-Ensures g _ (λ key q. create_secret-Ensures ns name key c (h key q))
  on_secret-Ensures ns name g (failed e) c h = with_key-Ensures g _ (λ key q. panic-Ensures)

  abbrev pub AfterSecret : ExportState WS WJ WC WP WE V → Ends → Type 0
  AfterSecret s r =
      r.0 ≡ ok tt
      → (r.1.export ≡ s.export)
        × (r.1.claims ≡ s.claims)
        × (r.1.jobs ≡ s.jobs)
        × HasSecret s.export r.1.secrets

  pub secret-after :
      (s : ExportState WS WJ WC WP WE V)
      → IsStore k.secrets
      → ((w : WE) (key : String) → k.generate_backup_key w ≡ ok key → (key == "") ≡ false)
      → AfterSecret s (reconcile_export_secret k s)
  unfolding reconcile_export_secret
  secret-after s c h x = (
    refl,
    refl,
    refl,
    (on_secret-Ensures s.export.namespace (fetch_storage_secret_name s.export)
          (k.generate_backup_key s.others) _ c (h s.others)).after
        s.secrets refl x,
  )
