-- ===== src/NotificationsConfig/Tests.antt =====
-- The controller of NotificationsConfiguration at a small resource.
use argocd_vee.Common.{
  ℕ, suc, Entries, ◌≡◌, refl, ap, subst, arith, Option, none, some, [], ◌∷◌, String, get, put,
  HasDistinctKeys,
}
use argocd_vee.Effect.{ok}
use argocd_vee.Kube.{Fetch, found, missing, failed}
use argocd_vee.Objects.{ObjectClient}
use argocd_vee.Objects.Table.{Table, table_client, table_client-IsStore, empty_table, set}
use argocd_vee.NotificationsConfig.{
  NotificationsConfiguration, ConfigMap, reconcile_notifications_configmap,
  notifications_config_map,
}
use argocd_vee.NotificationsConfig.Store.{kept_data, stored, entries_of, IsMapStore}
use argocd_vee.NotificationsConfig.Written.{
  HasMaps, configured, reconcile_notifications_configmap-configured,
  reconcile_notifications_configmap_again,
}

abbrev cr : NotificationsConfiguration
cr = record {
  namespace = "argocd";
  triggers = ("trigger.on-sync", "a") ∷ [];
  templates = ("template.app", "b") ∷ [];
  services = ("service.slack", "c") ∷ ("trigger.on-sync", "d") ∷ [];
  subscriptions = [];
  context = some (("url", "x") ∷ []);
}

abbrev in_order : Entries → Entries
in_order m = m

-- What a read gives: config maps without entries have nil.
abbrev reading : Fetch ConfigMap → Fetch ConfigMap
reading (found cm) = found (stored cm)
reading missing = missing
reading (failed e) = failed e

-- A table that reads as the API server does.
abbrev map_client : ObjectClient (Table ConfigMap) ConfigMap
map_client = record table_client { get = λ t ns n. reading (t ns n) }

kept_twice : (o : Option Entries) → kept_data (kept_data o) ≡ kept_data o
kept_twice none = refl
kept_twice (some []) = refl
kept_twice (some (e ∷ rest)) = refl

read_twice : (f : Fetch ConfigMap) (cm : ConfigMap) → reading f ≡ found cm → stored cm ≡ cm
read_twice (found x) cm h =
    subst (λ y. stored y ≡ y) (fetched h)
      (ap (λ o. record { data_entries = o }) (kept_twice x.data_entries))
  where
    fetched : found (stored x) ≡ found cm → stored x ≡ cm
    fetched e = ground arith
read_twice missing cm h = ground arith
read_twice (failed e) cm h = ground arith

map_client-IsMapStore : IsMapStore map_client
unfolding table_client
map_client-IsMapStore = record {
  created = λ ns n cm w h. ap reading (table_client-IsStore.created ns n cm w h);
  updated = λ ns n cm w h. ap reading (table_client-IsStore.updated ns n cm w h);
  read = λ ns n cm w h. read_twice (w ns n) cm h;
}

after : Table ConfigMap
unfolding reconcile_notifications_configmap
after = (reconcile_notifications_configmap map_client in_order cr empty_table).1

cr-HasMaps : HasMaps cr
unfolding HasDistinctKeys get
cr-HasMaps = record {
  triggers = (refl, tt);
  templates = (refl, tt);
  services = (refl, (refl, tt));
  subscriptions = tt;
}

abbrev written : Entries
written =
    ("trigger.on-sync", "d")
    ∷ ("template.app", "b")
    ∷ ("service.slack", "c")
    ∷ ("context", "url: x\n")
    ∷ []

after-data :
    after "argocd" notifications_config_map ≡ found (record { data_entries = some written })
unfolding after table_client set put
after-data = refl

reconcile_notifications_configmap-configured_example :
    (o : Option Entries) × (reading (after "argocd" notifications_config_map)
      ≡ found (record { data_entries = o }))
    × ((key : String) → get key (entries_of o) ≡ configured in_order cr key)
unfolding after table_client
reconcile_notifications_configmap-configured_example =
    reconcile_notifications_configmap-configured map_client in_order cr empty_table
      map_client-IsMapStore cr-HasMaps refl

-- The resource of the tests without its entries.
abbrev bare : NotificationsConfiguration
bare = record {
  namespace = "argocd";
  triggers = [];
  templates = [];
  services = [];
  subscriptions = [];
  context = none;
}

-- Every update is counted.
abbrev counting : ObjectClient (Table ConfigMap × ℕ) ConfigMap
counting = record {
  get = λ w ns n. reading (w.0 ns n);
  create = λ ns n cm w. ((set ns n (found cm) w.0, w.1), none);
  update = λ ns n cm w. ((set ns n (found cm) w.0, suc w.1), none);
  delete = λ ns n w. ((set ns n missing w.0, w.1), none);
  own = λ cm. none;
}

counting-IsMapStore : IsMapStore counting
unfolding table_client
counting-IsMapStore = record {
  created = λ ns n cm w h. ap reading (table_client-IsStore.created ns n cm w.0 refl);
  updated = λ ns n cm w h. ap reading (table_client-IsStore.updated ns n cm w.0 refl);
  read = λ ns n cm w h. read_twice (w.0 ns n) cm h;
}

abbrev runs : NotificationsConfiguration → Table ConfigMap × ℕ
runs c = (reconcile_notifications_configmap counting in_order c (empty_table, 0)).1

reconcile_notifications_configmap_again_example :
    reconcile_notifications_configmap counting in_order cr (runs cr) ≡ (ok tt, runs cr)
unfolding reconcile_notifications_configmap put
reconcile_notifications_configmap_again_example =
    reconcile_notifications_configmap_again counting in_order cr (empty_table, 0)
      counting-IsMapStore refl

-- Without entries the second run writes, with them it does not.
bare_again :
    (reconcile_notifications_configmap counting in_order bare (runs bare)).1.1 ≡ suc (runs bare).1
unfolding reconcile_notifications_configmap
bare_again =
    ap (λ r. r.1.1)
      (reconcile_notifications_configmap_again counting in_order bare (empty_table, 0)
        counting-IsMapStore refl)
