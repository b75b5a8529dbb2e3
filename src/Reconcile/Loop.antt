-- ===== src/Reconcile/Loop.antt =====
-- controllers/argocd/argocd_controller.go: what a call of Reconcile, however it ends, does to the
-- count of the instances.
use argocd_vee.Common.{
  choose, if_true, ◌≡◌, refl, sym, ◌∙◌, ap, subst, String, Bool, true, false, none, List, string_eq,
  if◌then◌else◌, get,
}
use argocd_vee.Effect.{Outcome, ok, err, panic, Step, continue, ◌>>◌}
use argocd_vee.Kube.{Fetch, found, missing, failed}
use argocd_vee.Reconcile.{
  Instance, Request, Metrics, Controller, Handlers, track, untrack, clean_up,
  remove_deletion_finalizer, is_deletion_finalizer_present, within, forget_events, finalize,
  establish, process, select, dispatch, reconcile,
}
use argocd_vee.Reconcile.Counting.{
  Balanced, WasSeen, IsShort, track-Balanced, track-untrack-Balanced, track-untrack-IsShort,
}

module _ {W : Type 0} (h : Handlers W) where
  -- A run ends with these metrics.
  abbrev Ends : Metrics → Outcome (Unit {0}) × Controller W → Type 0
  Ends m r = r.1.metrics ≡ m

  forget-Ends :
      (m : Metrics) (r : Outcome (Unit {0}) × Controller W)
      → Ends m r
      → Ends m (continue (λ u. forget_events h) r)
  unfolding forget_events
  forget-Ends m (ok u, s) e = e
  forget-Ends m (err x, s) e = e
  forget-Ends m (panic, s) e = e

  finalize-Ends : (s : Controller W) → Ends s.metrics (finalize h s)
  unfolding finalize within
  finalize-Ends s =
      choose (Ends s.metrics) (is_deletion_finalizer_present s.cluster.argocd.finalizers) _ _
        (λ e. forget-Ends s.metrics (within h (clean_up h >> remove_deletion_finalizer h) s) refl)
        refl

  -- The metrics that processing an instance leaves.
  abbrev pub counted : Request → Instance → Metrics → Metrics
  counted q a m = if a.is_marked then untrack a (track q a m) else track q a m

  branch-Ends :
      (b : Bool) (m n : Metrics) (x y : Outcome (Unit {0}) × Controller W)
      → Ends m x
      → Ends n y
      → Ends (if b then m else n) (if b then x else y)
  branch-Ends true m n x y p q = p
  branch-Ends false m n x y p q = q

  abbrev entered : Instance → Metrics → Controller W → Controller W
  entered a m s = record s { cluster = record (s.cluster) { argocd = a }; metrics = m }

  process-Ends :
      (q : Request) (a : Instance) (s : Controller W)
      → Ends (counted q a s.metrics) (process h q a s)
  unfolding process within
  process-Ends q a s =
      branch-Ends a.is_marked (untrack a (track q a s.metrics)) (track q a s.metrics)
        (finalize h (entered a (untrack a (track q a s.metrics)) s))
        (within h (establish h q) (entered a (track q a s.metrics) s))
        (finalize-Ends (entered a (untrack a (track q a s.metrics)) s)) refl

  -- The API server returns the object that was asked for.
  abbrev pub GivesAsked : Type 0
  GivesAsked =
      (w : W) (q : Request) (a : Instance)
      → h.get_instance w q ≡ found a
      → a.namespace ≡ q.namespace

  -- What is read of the request has a phase or was seen before, if it is marked for deletion.
  abbrev pub IsCounted : Fetch Instance → Metrics → Type 0
  IsCounted f m = (a : Instance) → f ≡ found a → a.is_marked ≡ true → WasSeen m a

  counted-Balanced :
      (q : Request) (a : Instance) (m : Metrics)
      → a.namespace ≡ q.namespace
      → (a.is_marked ≡ true → WasSeen m a)
      → Balanced m
      → Balanced (counted q a m)
  counted-Balanced q a m e seen b =
      choose Balanced a.is_marked _ _ (λ x. track-untrack-Balanced q a m e (seen x) b)
        (track-Balanced q a m e b)

  select-Balanced :
      (o : Outcome (List (String × String) → Bool)) (q : Request) (a : Instance) (s : Controller W)
      → a.namespace ≡ q.namespace
      → (a.is_marked ≡ true → WasSeen s.metrics a)
      → Balanced s.metrics
      → Balanced (select h o q a s).1.metrics
  unfolding select
  select-Balanced (err x) q a s e seen b = b
  select-Balanced panic q a s e seen b = b
  select-Balanced (ok matches) q a s e seen b =
      choose (λ (m : Step (Controller W)). Balanced (m s).1.metrics) (matches a.labels) _ _
        (λ x. subst Balanced (sym (process-Ends q a s)) (counted-Balanced q a s.metrics e seen b)) b

  dispatch-Balanced :
      (f : Fetch Instance) (q : Request) (s : Controller W)
      → ((a : Instance) → f ≡ found a → a.namespace ≡ q.namespace)
      → IsCounted f s.metrics
      → Balanced s.metrics
      → Balanced (dispatch h f q s).1.metrics
  unfolding dispatch
  dispatch-Balanced missing q s e seen b = b
  dispatch-Balanced (failed x) q s e seen b = b
  dispatch-Balanced (found a) q s e seen b =
      select-Balanced h.selector q a s (e a refl) (seen a refl) b

  -- However the call of Reconcile ends, the gauges still count the entries of ActiveInstanceMap, all
  -- of them and those of each phase, if the API server returns the object that was asked for and the
  -- object is not one that is marked for deletion, without a phase and never seen before.
  pub reconcile-Balanced :
      (q : Request) (s : Controller W)
      → GivesAsked
      → IsCounted (h.get_instance s.cluster.world q) s.metrics
      → Balanced s.metrics
      → Balanced (reconcile h q s).1.metrics
  unfolding reconcile
  reconcile-Balanced q s gives seen b =
      dispatch-Balanced (h.get_instance s.cluster.world q) q s (gives s.cluster.world q) seen b

  -- An instance in the namespace of the request that matches the selector is deleted, and has no
  -- phase and was not seen before: from
  -- gauges that count the map, the call leaves the total one below the number of entries.
  pub reconcile-IsShort :
      (q : Request) (s : Controller W) (a : Instance) (matches : List (String × String) → Bool)
      → h.get_instance s.cluster.world q ≡ found a
      → h.selector ≡ ok matches
      → matches a.labels ≡ true
      → a.namespace ≡ q.namespace
      → a.is_marked ≡ true
      → a.phase ≡ ""
      → get a.namespace s.metrics.active ≡ none
      → Balanced s.metrics
      → IsShort (reconcile h q s).1.metrics
  unfolding reconcile dispatch select
  reconcile-IsShort q s a matches f o l e d p n b =
      subst IsShort (sym same) (track-untrack-IsShort q a s.metrics e p n b)
    where
      same : (reconcile h q s).1.metrics ≡ untrack a (track q a s.metrics)
      same =
          ap (λ x. (dispatch h x q s).1.metrics) f
          ∙ ap (λ x. (select h x q a s).1.metrics) o
          ∙ ap (λ (m : Step (Controller W)). (m s).1.metrics) (if_true (matches a.labels) _ _ l)
          ∙ process-Ends q a s
          ∙ if_true a.is_marked _ _ d
