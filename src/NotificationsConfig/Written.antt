-- ===== src/NotificationsConfig/Written.antt =====
-- controllers/notificationsconfiguration/configmap.go: what the config map holds after a run, and what
-- the next run does.
use argocd_vee.Common.{
  copy_into-HasDistinctKeys, Entries, deep_equal, get-put, get-deep_equal, deep_equal_self, ◌≡◌,
  refl, ap, sym, ◌∙◌, String, true, Option, none, some, [], ◌==◌, string_eq, get, HasDistinctKeys,
  put-HasDistinctKeys, arith, ◌⊎◌, inl, inr, Bool, not, is_empty, covers, false, ◌∷◌, if◌then◌else◌,
  false≢true,
}
use argocd_vee.Effect.{
  ok, done, Step, failure, Ensures, Anywhere, if-Ensures, done-Ensures, then-Ensures, fail-Ensures,
  weaken, conclude,
}
use argocd_vee.Kube.{found}
use argocd_vee.Objects.{ObjectClient, call, fetch-Ensures, owned-Ensures}
use argocd_vee.NotificationsConfig.{
  NotificationsConfiguration, ConfigMap, with_context, map_to_string, expected_configuration,
  update_data, create_map, empty_map, on_fetched, notifications_config_map,
  reconcile_notifications_configmap,
}
use argocd_vee.NotificationsConfig.Store.{
  kept_data, entries_of, IsMapStore, create-keeps_map, update-keeps_map,
}
use argocd_vee.NotificationsConfig.Copies.{first_of, get-copy_into}

-- No map of the resource has two entries for a key, which is so of every map of Go.
pub record HasMaps (cr : NotificationsConfiguration) : Type 0 where
  pub triggers : HasDistinctKeys cr.triggers
  pub templates : HasDistinctKeys cr.templates
  pub services : HasDistinctKeys cr.services
  pub subscriptions : HasDistinctKeys cr.subscriptions

context_value : (Entries → Entries) → String → Option Entries → Option String
context_value visit key none = none
context_value visit key (some c) = if "context" == key then some (map_to_string visit c) else none

-- What the resource says of a key, from the strongest part to the weakest.
pub configured : (Entries → Entries) → NotificationsConfiguration → String → Option String
unfolding context_value
configured visit cr key = first_of (context_value visit key cr.context) (
    first_of (get key cr.subscriptions)
      (first_of (get key cr.services) (first_of (get key cr.templates) (get key cr.triggers))))

get-with_context :
    (visit : Entries → Entries) (key : String) (c : Option Entries) (m : Entries)
    → get key (with_context visit c m) ≡ first_of (context_value visit key c) (get key m)
unfolding with_context context_value
get-with_context visit key none m = refl
get-with_context visit key (some c) m =
    ground (arith, get-put key "context" (map_to_string visit c) m)

first_of-none : (o : Option String) → first_of o none ≡ o
first_of-none none = refl
first_of-none (some v) = refl

get-expected_configuration :
    (visit : Entries → Entries) (cr : NotificationsConfiguration) (key : String)
    → HasMaps cr
    → get key (expected_configuration visit cr) ≡ configured visit cr key
unfolding expected_configuration configured get
get-expected_configuration visit cr key h = simp (
  get-with_context visit key,
  get-copy_into key _ _ h.subscriptions,
  get-copy_into key _ _ h.services,
  get-copy_into key _ _ h.templates,
  get-copy_into key _ _ h.triggers,
  first_of-none,
)

with_context-HasDistinctKeys :
    (visit : Entries → Entries) (c : Option Entries) (m : Entries)
    → HasDistinctKeys m
    → HasDistinctKeys (with_context visit c m)
unfolding with_context
with_context-HasDistinctKeys visit none m h = h
with_context-HasDistinctKeys visit (some c) m h =
    put-HasDistinctKeys "context" (map_to_string visit c) m h

expected-HasDistinctKeys :
    (visit : Entries → Entries) (cr : NotificationsConfiguration)
    → HasDistinctKeys (expected_configuration visit cr)
unfolding expected_configuration HasDistinctKeys
expected-HasDistinctKeys visit cr = with_context-HasDistinctKeys visit cr.context _ (
    copy_into-HasDistinctKeys cr.subscriptions _ (
      copy_into-HasDistinctKeys cr.services _
        (copy_into-HasDistinctKeys cr.templates _ (copy_into-HasDistinctKeys cr.triggers [] tt))))

-- What is read is the expected data, or nothing is where none is expected.
abbrev Matches : Entries → Option Entries → Type 0
Matches e o = (deep_equal e o ≡ true) ⊎ ((e ≡ []) × (o ≡ none))

kept_data-Matches : (e : Entries) → HasDistinctKeys e → Matches e (kept_data (some e))
kept_data-Matches [] h = inr (refl, refl)
kept_data-Matches (x ∷ rest) h = inl (deep_equal_self (x ∷ rest) h)

get-Matches :
    (e : Entries) (o : Option Entries) (key : String)
    → Matches e o
    → get key (entries_of o) ≡ get key e
unfolding deep_equal
get-Matches e none key (inl h) = elim (false≢true h) [ ]
get-Matches e (some d) key (inl h) = sym (get-deep_equal e d key h)
get-Matches e o key (inr (h, g)) = ap (λ x. get key (entries_of x)) g ∙ sym (ap (get key) h)

-- The API server never has an empty map for DeepEqual to find equal to one.
compared :
    (e : Entries) (o : Option Entries)
    → Matches e o
    → kept_data o ≡ o
    → deep_equal e o ≡ not (is_empty e)
unfolding deep_equal covers get
compared [] none m h = refl
compared [] (some []) m h = ground arith
compared [] (some ((k, v) ∷ rest)) m h = ground arith
compared (x ∷ rest) o (inl m) h = m
compared (x ∷ rest) o (inr (e, g)) h = ground arith

module _ {W : Type 0} (k : ObjectClient W ConfigMap) (visit : Entries → Entries)
    (cr : NotificationsConfiguration) where
  abbrev IsWritten : W → Type 0
  IsWritten w =
      (o : Option Entries) × (k.get w cr.namespace notifications_config_map
        ≡ found (record { data_entries = o }))
      × Matches (expected_configuration visit cr) o

  update_data-IsWritten :
      (cm : ConfigMap)
      → IsMapStore k
      → Ensures
          (λ w. k.get w cr.namespace notifications_config_map ≡ found cm)
          (update_data k visit cr cm)
          IsWritten
  unfolding update_data
  update_data-IsWritten cm s =
      if-Ensures (deep_equal (expected_configuration visit cr) cm.data_entries)
        (λ e. done-Ensures (λ w g. (cm.data_entries, g, inl e)))
        (λ e.
          conclude
            (λ w g. (
              kept_data (some (expected_configuration visit cr)),
              g,
              kept_data-Matches (expected_configuration visit cr)
                  (expected-HasDistinctKeys visit cr),
            ))
            (update-keeps_map k s cr.namespace notifications_config_map _))

  reconcile-IsWritten :
      IsMapStore k → Ensures Anywhere (reconcile_notifications_configmap k visit cr) IsWritten
  unfolding reconcile_notifications_configmap on_fetched create_map
  reconcile-IsWritten s =
      fetch-Ensures k cr.namespace notifications_config_map (on_fetched k visit cr)
        (λ cm. weaken (λ w p. p.1) (update_data-IsWritten cm s))
        (then-Ensures (owned-Ensures k empty_map) (
          then-Ensures (create-keeps_map k s cr.namespace notifications_config_map empty_map)
            (update_data-IsWritten empty_map s)))
        (λ e. fail-Ensures (failure "failed to get the configmap"))

  -- The next run writes where nothing is expected, and only there.
  abbrev next_run : Step W
  next_run =
      if is_empty (expected_configuration visit cr)
      then call (
          k.update cr.namespace notifications_config_map
            (record { data_entries = some (expected_configuration visit cr) }))
      else done

  again :
      (w : W)
      → IsMapStore k
      → IsWritten w
      → reconcile_notifications_configmap k visit cr w ≡ next_run w
  unfolding reconcile_notifications_configmap on_fetched update_data
  again w s (o, g, m) =
      ap (λ f. on_fetched k visit cr f w) g
      ∙ branch (deep_equal (expected_configuration visit cr) o)
          (is_empty (expected_configuration visit cr))
          (compared (expected_configuration visit cr) o m
            (ap (λ cm. cm.data_entries) (s.read cr.namespace notifications_config_map _ w g)))
    where
      write : Step W
      write = call (
          k.update cr.namespace notifications_config_map
            (record { data_entries = some (expected_configuration visit cr) }))

      branch :
          (b b' : Bool)
          → b ≡ not b'
          → (if b then done else write) w ≡ (if b' then write else done) w
      branch true true h = ground arith
      branch true false h = refl
      branch false true h = refl
      branch false false h = ground arith

  -- When the API server keeps what it accepts, with nil for a map without entries, no map of the
  -- resource has two entries for a key, and the code returns no error, the config map is there, and
  -- under every key its data, which counts as without entries where it is nil, has what the resource
  -- says of it: the context under "context", else the subscriptions, else the services, else the
  -- templates, else the triggers; and nothing under any other key.
  pub reconcile_notifications_configmap-configured :
      (w : W)
      → IsMapStore k
      → HasMaps cr
      → (reconcile_notifications_configmap k visit cr w).0 ≡ ok tt
      → (o : Option Entries) × (k.get
            (reconcile_notifications_configmap k visit cr w).1
            cr.namespace
            notifications_config_map
          ≡ found (record { data_entries = o }))
        × ((key : String) → get key (entries_of o) ≡ configured visit cr key)
  reconcile_notifications_configmap-configured w s m h =
      let (o, g, e) = (reconcile-IsWritten s).after w tt h in
      (
        o,
        g,
        λ key.
            get-Matches (expected_configuration visit cr) o key e
            ∙ get-expected_configuration visit cr key m,
      )

  -- When the API server keeps what it accepts, with nil for a map without entries, and the code
  -- returns no error, a second run that visits the maps in the same order does nothing if the
  -- expected configuration has an entry; if it has none, the second run calls the update again and
  -- ends with its result.
  pub reconcile_notifications_configmap_again :
      (w : W)
      → IsMapStore k
      → (reconcile_notifications_configmap k visit cr w).0 ≡ ok tt
      → reconcile_notifications_configmap k visit cr
          (reconcile_notifications_configmap k visit cr w).1
        ≡ (if is_empty (expected_configuration visit cr)
              then call (
                  k.update cr.namespace notifications_config_map
                    (record { data_entries = some (expected_configuration visit cr) }))
              else done)
            (reconcile_notifications_configmap k visit cr w).1
  reconcile_notifications_configmap_again w s h =
      again (reconcile_notifications_configmap k visit cr w).1 s
        ((reconcile-IsWritten s).after w tt h)
