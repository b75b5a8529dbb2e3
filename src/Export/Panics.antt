-- ===== src/Export/Panics.antt =====
-- controllers/argocdexport: when a run of the export controller panics.
use argocd_vee.Common.{
  Entries, ◌≡◌, ◌↔◌, ◌≢◌, subst, refl, sym, String, Option, none, some, ◌==◌, string_eq, arith,
  choose_either,
}
use argocd_vee.Effect.{Err, Outcome, ok, panic, Step}
use argocd_vee.Kube.{Fetch, found, missing, failed, is_object_found, object_after}
use argocd_vee.Status.{returned}
use argocd_vee.Objects.{call, owned}
use argocd_vee.Export.Pod.{fetch_storage_secret_name}
use argocd_vee.Export.{
  ExportClient, ExportState, Secret, backup_key, store_backup_key, create_secret, on_secret,
  reconcile_export_secret,
}

-- What a read of the secret gives when its map is nil: an empty secret, or an error of the API.
abbrev pub HasNilData : Fetch Secret → Type 0
HasNilData (found s) = s.data_entries ≡ none
HasNilData missing = ⊥
HasNilData (failed e) = Unit

abbrev pub IsPanic : Outcome (Unit {0}) → Type 0
IsPanic panic = Unit
IsPanic o = ⊥

abbrev pub IsMade : Outcome String → Type 0
IsMade (ok key) = Unit
IsMade o = ⊥

returned_calm : (e : Option Err) → ¬ IsPanic (returned e)
unfolding returned
returned_calm none h = h
returned_calm (some e) h = h

not_none : (m : Entries) → some m ≢ none
not_none m e = ground arith

module _ {WS WJ WC WP WE V : Type 0} (k : ExportClient WS WJ WC WP WE V) where
  on_found-IsPanic :
      (ns name key : String) (o : Option Entries) (w : WS)
      → IsPanic (on_secret k ns name (ok key) (found (record { data_entries = o })) w).0
        ↔ (o ≡ none)
  unfolding on_secret is_object_found object_after backup_key store_backup_key call
  on_found-IsPanic ns name key none w = (λ h. refl, λ h. tt)
  on_found-IsPanic ns name key (some m) w = (
    λ h.
        elim (choose_either (λ (n : Step WS). ¬ IsPanic (n w).0)
          (backup_key (record { data_entries = some m }) == "") _ _ (λ e. returned_calm _)
          (λ e h. h) h) [ ],
    λ h. elim (not_none m h) [ ],
  )

  created_calm : (ns name key : String) (w : WS) → ¬ IsPanic (create_secret k ns name key w).0
  unfolding create_secret owned call returned
  created_calm ns name key w = ground arith

  on_secret-IsPanic :
      (ns name key : String) (r : Fetch Secret) (w : WS)
      → IsPanic (on_secret k ns name (ok key) r w).0 ↔ HasNilData r
  unfolding on_secret is_object_found object_after backup_key store_backup_key
  on_secret-IsPanic ns name key (found s) w = on_found-IsPanic ns name key s.data_entries w
  on_secret-IsPanic ns name key missing w = (created_calm ns name key w, λ h. elim h [ ])
  on_secret-IsPanic ns name key (failed e) w = (λ h. tt, λ h. tt)

  -- When a key can be generated, the code for the secret panics exactly if the secret that it reads
  -- has a nil map, or if the read fails with another error than that there is none.
  pub reconcile_export_secret_panics :
      (key : String) (s : ExportState WS WJ WC WP WE V)
      → k.generate_backup_key s.others ≡ ok key
      → IsPanic (reconcile_export_secret k s).0
        ↔ HasNilData
            (k.secrets.get s.secrets s.export.namespace (fetch_storage_secret_name s.export))
  unfolding reconcile_export_secret
  reconcile_export_secret_panics key s e =
      subst
        (λ o.
          IsPanic
            (on_secret k s.export.namespace (fetch_storage_secret_name s.export) o
              (k.secrets.get s.secrets s.export.namespace (fetch_storage_secret_name s.export))
              s.secrets).0
          ↔ HasNilData
              (k.secrets.get s.secrets s.export.namespace (fetch_storage_secret_name s.export)))
        (sym e)
        (on_secret-IsPanic s.export.namespace (fetch_storage_secret_name s.export) key _ s.secrets)
