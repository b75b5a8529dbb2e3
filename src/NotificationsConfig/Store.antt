-- ===== src/NotificationsConfig/Store.antt =====
-- What the API server keeps of a config map. `Data` has `omitempty`: a map without entries is not sent,
-- and what is read in its place is nil.
use argocd_vee.Common.{Entries, ◌≡◌, String, Option, none, some, [], ◌∷◌}
use argocd_vee.Effect.{Ensures}
use argocd_vee.Kube.{found}
use argocd_vee.Objects.{ObjectClient, call, call-ok}
use argocd_vee.NotificationsConfig.{ConfigMap}

abbrev pub kept_data : Option Entries → Option Entries
kept_data none = none
kept_data (some []) = none
kept_data (some (e ∷ rest)) = some (e ∷ rest)

abbrev pub stored : ConfigMap → ConfigMap
stored cm = record { data_entries = kept_data cm.data_entries }

-- The entries that are read, a nil map being one without entries.
abbrev pub entries_of : Option Entries → Entries
entries_of none = []
entries_of (some d) = d

-- An accepted write is kept, and what is read is what an API server can keep.
pub record IsMapStore {W : Type 0} (k : ObjectClient W ConfigMap) : Type 0 where
  pub created :
      (ns n : String) (cm : ConfigMap) (w : W)
      → (k.create ns n cm w).1 ≡ none
      → k.get (k.create ns n cm w).0 ns n ≡ found (stored cm)
  pub updated :
      (ns n : String) (cm : ConfigMap) (w : W)
      → (k.update ns n cm w).1 ≡ none
      → k.get (k.update ns n cm w).0 ns n ≡ found (stored cm)
  pub read : (ns n : String) (cm : ConfigMap) (w : W) → k.get w ns n ≡ found cm → stored cm ≡ cm

-- The two ways in which a write goes through.
module _ {W : Type 0} (k : ObjectClient W ConfigMap) (s : IsMapStore k) (ns n : String) where
  pub create-keeps_map :
      {P : W → Type 0} (cm : ConfigMap)
      → Ensures P (call (k.create ns n cm)) (λ w. k.get w ns n ≡ found (stored cm))
  unfolding call
  create-keeps_map cm = record {
    after = λ w p h. s.created ns n cm w (call-ok (k.create ns n cm) w h);
  }

  pub update-keeps_map :
      {P : W → Type 0} (cm : ConfigMap)
      → Ensures P (call (k.update ns n cm)) (λ w. k.get w ns n ≡ found (stored cm))
  unfolding call
  update-keeps_map cm = record {
    after = λ w p h. s.updated ns n cm w (call-ok (k.update ns n cm) w h);
  }
