-- ===== src/NotificationsConfig.antt =====
-- controllers/notificationsconfiguration: the controller that writes the config map
-- argocd-notifications-cm from the resource NotificationsConfiguration. `visit` is the order in which
-- Go walks a map, which may be another in every run.
pub mod Copies
pub mod Store
pub mod Written
mod Tests
use argocd_vee.Common.{
  copy_into, Entries, deep_equal, get-put, get-deep_equal, deep_equal_self, String, Bool, true,
  false, Option, none, some, List, [], ◌∷◌, ◌&&◌, ◌==◌, string_eq, ◌<>◌, all, get, put,
  if◌then◌else◌,
}
use argocd_vee.Effect.{Err, Outcome, ok, err, Step, done, fail, ◌>>◌, failure}
use argocd_vee.Kube.{Fetch, found, missing, failed}
use argocd_vee.Objects.{ObjectClient, call, owned}

pub record NotificationsConfiguration : Type 0 where
  pub namespace : String
  pub triggers : Entries
  pub templates : Entries
  pub services : Entries
  pub subscriptions : Entries
  pub context : Option Entries

-- `Data`, which is nil in a config map that was created empty.
pub record ConfigMap : Type 0 where
  pub data_entries : Option Entries

abbrev pub empty_map : ConfigMap
empty_map = record { data_entries = none }

abbrev pub notifications_config_map : String
notifications_config_map = "argocd-notifications-cm"

-- The loop of mapToString on the entries in the order in which they are visited.
unfoldable pub lines_of : Entries → String
lines_of [] = ""
lines_of ((k, v) ∷ rest) = k <> ": " <> v <> "\n" <> lines_of rest

module _ (visit : Entries → Entries) where
  unfoldable pub map_to_string : Entries → String
  unfolding lines_of
  map_to_string m = lines_of (visit m)

  unfoldable pub with_context : Option Entries → Entries → Entries
  unfolding map_to_string
  with_context none m = m
  with_context (some context) m = put "context" (map_to_string context) m

  unfoldable pub expected_configuration : NotificationsConfiguration → Entries
  unfolding with_context copy_into
  expected_configuration cr = with_context cr.context (
      copy_into cr.subscriptions
        (copy_into cr.services (copy_into cr.templates (copy_into cr.triggers []))))

module _ {W : Type 0} (k : ObjectClient W ConfigMap) (visit : Entries → Entries)
    (cr : NotificationsConfiguration) where
  unfoldable pub update_data : ConfigMap → Step W
  unfolding expected_configuration deep_equal call
  update_data cm =
      if deep_equal (expected_configuration visit cr) cm.data_entries
      then done
      else call (
          k.update cr.namespace notifications_config_map
            (record cm { data_entries = some (expected_configuration visit cr) }))

  -- The object is owned, created and then filled.
  unfoldable pub create_map : Step W
  unfolding owned call update_data
  create_map =
      owned k empty_map
      >> (call (k.create cr.namespace notifications_config_map empty_map) >> update_data empty_map)

  unfoldable pub on_fetched : Fetch ConfigMap → Step W
  unfolding create_map update_data
  on_fetched (found cm) = update_data cm
  on_fetched missing = create_map
  on_fetched (failed e) = fail (failure "failed to get the configmap")

  unfoldable pub reconcile_notifications_configmap : Step W
  unfolding on_fetched
  reconcile_notifications_configmap w = on_fetched (k.get w cr.namespace notifications_config_map) w

-- Reconcile: nothing is done for a resource that is there no longer.
module _ {W : Type 0} (k : ObjectClient W ConfigMap) (visit : Entries → Entries)
    (get_configuration : W → Fetch NotificationsConfiguration) where
  abbrev pub on_configuration : Fetch NotificationsConfiguration → Step W
  on_configuration (found cr) = reconcile_notifications_configmap k visit cr
  on_configuration missing = done
  on_configuration (failed e) = fail e

  unfoldable pub reconcile_configuration : Step W
  unfolding reconcile_notifications_configmap
  reconcile_configuration w = on_configuration (get_configuration w) w
