-- ===== src/Reconcile/Counting.antt =====
-- controllers/argocd/argocd_controller.go: the gauges of the active instances count the entries of
-- ActiveInstanceMap.
use argocd_vee.Common.{
  choose, arith, ℕ, suc, ◌+◌, ◌≡◌, ◌≢◌, refl, sym, ◌∙◌, ap, subst, ◌⊎◌, String, Option, none, some,
  List, [], ◌∷◌, ◌==◌, string_eq, if◌then◌else◌, get, put, remove, length, HasDistinctKeys,
  put-HasDistinctKeys, remove-HasDistinctKeys, eq_iff, get-put-same,
}
use argocd_vee.Reconcile.{
  Gauge, Metrics, Instance, Request, discover, change_phase, track_entry, track, untrack,
  phase_or_empty,
}

abbrev pub tick : String → String → ℕ
tick v p = if v == p then 1 else 0

-- How many instances have the phase.
abbrev pub count : String → List (String × String) → ℕ
count p [] = 0
count p ((k, v) ∷ rest) = tick v p + count p rest

-- What a change of one entry does to the counts.
count-put :
    (key value p : String) (m : List (String × String))
    → get key m ≡ none
    → (length (put key value m) ≡ suc (length m))
      × (count p (put key value m) ≡ tick value p + count p m)
unfolding get put
count-put key value p [] h = ground arith
count-put key value p ((k, v) ∷ rest) h = ground (arith, count-put key value p rest)

count-replace :
    (key old value p : String) (m : List (String × String))
    → get key m ≡ some old
    → (length (put key value m) ≡ length m)
      × (tick old p + count p (put key value m) ≡ tick value p + count p m)
unfolding get put
count-replace key old value p [] h = ground arith
count-replace key old value p ((k, v) ∷ rest) h = ground (arith, count-replace key old value p rest)

count-remove :
    (key old p : String) (m : List (String × String))
    → get key m ≡ some old
    → (suc (length (remove key m)) ≡ length m) × (tick old p + count p (remove key m) ≡ count p m)
unfolding get remove
count-remove key old p [] h = ground arith
count-remove key old p ((k, v) ∷ rest) h = ground (arith, count-remove key old p rest)

-- The value of a gauge is `n`.
abbrev pub Shows : Gauge → ℕ → Type 0
Shows g n = g.incs ≡ g.decs + n

-- The gauges count the entries of the map, all of them and those of each phase.
pub record Balanced (m : Metrics) : Type 0 where
  pub total : Shows m.total (length m.active)
  pub phases : (p : String) → Shows (m.by_phase p) (count p m.active)
  pub keys : HasDistinctKeys m.active

discover-Balanced :
    (ns phase : String) (m : Metrics)
    → get ns m.active ≡ none
    → Balanced m
    → Balanced (discover ns phase m)
unfolding discover
discover-Balanced ns phase m e b =
    choose Balanced (phase == "") m _ (λ x. b)
      record {
        total = ground (arith, b.total, count-put ns phase phase m.active e);
        phases = λ p. ground (arith, b.phases p, count-put ns phase p m.active e);
        keys = put-HasDistinctKeys ns phase m.active b.keys;
      }

change_phase-Balanced :
    (ns old phase : String) (m : Metrics)
    → get ns m.active ≡ some old
    → Balanced m
    → Balanced (change_phase ns old phase m)
unfolding change_phase
change_phase-Balanced ns old phase m e b =
    choose Balanced (old == phase) m _ (λ x. b)
      record {
        total = ground (arith, b.total, count-replace ns old phase phase m.active e);
        phases = λ p. ground (arith, b.phases p, count-replace ns old phase p m.active e);
        keys = put-HasDistinctKeys ns phase m.active b.keys;
      }

untrack-Balanced :
    (a : Instance) (m : Metrics)
    → get a.namespace m.active ≡ some a.phase
    → Balanced m
    → Balanced (untrack a m)
unfolding untrack
untrack-Balanced a m e b = record {
  total = ground (arith, b.total, count-remove a.namespace a.phase a.phase m.active e);
  phases = λ p. ground (arith, b.phases p, count-remove a.namespace a.phase p m.active e);
  keys = remove-HasDistinctKeys a.namespace m.active b.keys;
}

-- The entry of the instance, found under the namespace of the request.
track_entry-Balanced :
    (o : Option String) (q : Request) (a : Instance) (m : Metrics)
    → a.namespace ≡ q.namespace
    → get q.namespace m.active ≡ o
    → Balanced m
    → Balanced (track_entry o q a m)
unfolding track_entry
track_entry-Balanced none q a m n e b = discover-Balanced q.namespace a.phase m e b
track_entry-Balanced (some p) q a m n e b =
    change_phase-Balanced a.namespace _ a.phase m (there ∙ ap some (sym (ap phase_or_empty there)))
      b
  where
    there : get a.namespace m.active ≡ some p
    there = ap (λ x. get x m.active) n ∙ e

pub track-Balanced :
    (q : Request) (a : Instance) (m : Metrics)
    → a.namespace ≡ q.namespace
    → Balanced m
    → Balanced (track q a m)
unfolding track
track-Balanced q a m n b = record { total = t.total; phases = t.phases; keys = t.keys }
  where
    t : Balanced (track_entry (get q.namespace m.active) q a m)
    t = track_entry-Balanced (get q.namespace m.active) q a m n refl b

-- An instance with a phase, or one that was seen before, stands in the map with its phase.
track_entry-stands :
    (o : Option String) (q : Request) (a : Instance) (m : Metrics)
    → a.namespace ≡ q.namespace
    → get q.namespace m.active ≡ o
    → (a.phase ≢ "") ⊎ (o ≢ none)
    → get a.namespace (track_entry o q a m).active ≡ some a.phase
unfolding track_entry discover change_phase
track_entry-stands none q a m n e h =
    choose (λ (x : Metrics). get a.namespace x.active ≡ some a.phase) (a.phase == "") m _
      (λ x. ground (arith, eq_iff a.phase ""))
      (ap (λ x. get x (put q.namespace a.phase m.active)) n
        ∙ get-put-same q.namespace a.phase m.active)
track_entry-stands (some p) q a m n e h =
    choose (λ (x : Metrics). get a.namespace x.active ≡ some a.phase)
      (phase_or_empty (get a.namespace m.active) == a.phase) m _
      (λ x. there ∙ ap some (sym (ap phase_or_empty there) ∙ (eq_iff _ a.phase).0 x))
      (get-put-same a.namespace a.phase m.active)
  where
    there : get a.namespace m.active ≡ some p
    there = ap (λ x. get x m.active) n ∙ e

-- What makes a deletion count: the instance has a phase or was seen before.
abbrev pub WasSeen : Metrics → Instance → Type 0
WasSeen m a = (a.phase ≢ "") ⊎ (get a.namespace m.active ≢ none)

pub track-untrack-Balanced :
    (q : Request) (a : Instance) (m : Metrics)
    → a.namespace ≡ q.namespace
    → WasSeen m a
    → Balanced m
    → Balanced (untrack a (track q a m))
unfolding track
track-untrack-Balanced q a m n h b =
    untrack-Balanced a (track q a m)
      (track_entry-stands (get q.namespace m.active) q a m n refl
        (subst (λ x. (a.phase ≢ "") ⊎ (get x m.active ≢ none)) n h))
      (track-Balanced q a m n b)

remove-missing : (key : String) (m : List (String × String)) → get key m ≡ none → remove key m ≡ m
unfolding get remove
remove-missing key [] e = refl
remove-missing key ((k, v) ∷ rest) e = ground (arith, remove-missing key rest)

-- The value of the total is one below the number of instances in the map.
abbrev pub IsShort : Metrics → Type 0
IsShort m = m.total.decs + length m.active ≡ suc m.total.incs

unseen_stays :
    (o : Option String) (q : Request) (a : Instance) (m : Metrics)
    → a.phase ≡ ""
    → o ≡ none
    → track_entry o q a m ≡ m
unfolding track_entry discover
unseen_stays (some p) q a m h e = ground (arith, e)
unseen_stays none q a m h e = simp ((eq_iff a.phase "").1 h)

pub track-untrack-IsShort :
    (q : Request) (a : Instance) (m : Metrics)
    → a.namespace ≡ q.namespace
    → a.phase ≡ ""
    → get a.namespace m.active ≡ none
    → Balanced m
    → IsShort (untrack a (track q a m))
unfolding track untrack
track-untrack-IsShort q a m e p n b =
    subst
      (λ (x : Metrics). suc x.total.decs + length (remove a.namespace x.active) ≡ suc x.total.incs)
      (sym (unseen_stays (get q.namespace m.active) q a m p (ap (λ x. get x m.active) (sym e) ∙ n)))
      (ground (arith, b.total, ap length (remove-missing a.namespace m.active n)))
