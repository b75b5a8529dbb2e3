-- ===== src/Reconcile.antt =====
-- controllers/argocd/argocd_controller.go: the reconcile loop, the count of the active instances
-- that it keeps for the metrics, and the finalizer of an ArgoCD. What it calls for the objects of
-- an instance is a parameter.
pub mod Counting
pub mod Loop
pub mod Deletion
mod Tests
use argocd_vee.Common.{
  ℕ, suc, String, Bool, true, false, not, Option, none, some, List, [], ◌∷◌, ◌++◌, ◌==◌, string_eq,
}
use argocd_vee.Common.{if◌then◌else◌, get, put, remove}
use argocd_vee.Effect.{
  Err, not_found, failure, Outcome, ok, err, panic, Step, done, fail, ◌>>=◌, ◌>>◌,
}
use argocd_vee.Kube.{Fetch, found, missing, failed}
use argocd_vee.Status.{returned}

-- common/keys.go
abbrev pub deletion_finalizer : String
deletion_finalizer = "argoproj.io/finalizer"

-- A NamespacedName
pub record Request : Type 0 where
  pub namespace : String
  pub name : String

-- An ArgoCD as the loop reads it: its metadata and its phase.
pub record Instance : Type 0 where
  pub namespace : String
  pub name : String
  pub labels : List (String × String)
  pub finalizers : List String
  pub is_marked : Bool
  pub phase : String

-- A gauge of Prometheus: how often it was incremented and decremented. Its value is the
-- difference.
pub record Gauge : Type 0 where
  pub incs : ℕ
  pub decs : ℕ

-- ActiveInstanceMap and the metrics.
pub record Metrics : Type 0 where
  pub active : List (String × String)
  pub by_phase : String → Gauge
  pub total : Gauge
  pub reconciliations : String → ℕ

abbrev pub inc : Gauge → Gauge
inc g = record g { incs = suc g.incs }

abbrev pub dec : Gauge → Gauge
dec g = record g { decs = suc g.decs }

-- The gauge of one label is changed.
abbrev pub with_label : (Gauge → Gauge) → String → (String → Gauge) → String → Gauge
with_label f label gauges other = if label == other then f (gauges other) else gauges other

abbrev pub with_count : (ℕ → ℕ) → String → (String → ℕ) → String → ℕ
with_count f label counts other = if label == other then f (counts other) else counts other

-- An instance that was not seen before is counted once it has a phase.
pub discover : String → String → Metrics → Metrics
discover ns new_phase m = if new_phase == "" then m else record m {
  active = put ns new_phase m.active;
  by_phase = with_label inc new_phase m.by_phase;
  total = inc m.total;
}

-- The phase of an instance in the map has changed.
pub change_phase : String → String → String → Metrics → Metrics
change_phase ns old_phase new_phase m = if old_phase == new_phase then m else record m {
  active = put ns new_phase m.active;
  by_phase = with_label dec old_phase (with_label inc new_phase m.by_phase);
}

-- `ActiveInstanceMap[key]`, the empty text where there is none
abbrev pub phase_or_empty : Option String → String
phase_or_empty none = ""
phase_or_empty (some phase) = phase

pub track_entry : Option String → Request → Instance → Metrics → Metrics
unfolding discover change_phase
track_entry none q a m = discover q.namespace a.phase m
track_entry (some p) q a m =
    change_phase a.namespace (phase_or_empty (get a.namespace m.active)) a.phase m

-- The instance is tracked and its reconciliation is counted.
unfoldable pub track : Request → Instance → Metrics → Metrics
unfolding track_entry
track q a m =
    let n = track_entry (get q.namespace m.active) q a m in
    record n { reconciliations = with_count suc a.namespace n.reconciliations }

-- An instance that is marked for deletion is no longer counted.
unfoldable pub untrack : Instance → Metrics → Metrics
untrack a m = record m {
  active = remove a.namespace m.active;
  by_phase = with_label dec a.phase m.by_phase;
  total = dec m.total;
  reconciliations = with_count (λ n. 0) a.namespace m.reconciliations;
}

-- api/v1beta1/argocd_types.go
unfoldable pub is_deletion_finalizer_present : List String → Bool
is_deletion_finalizer_present [] = false
is_deletion_finalizer_present (f ∷ rest) =
    if f == deletion_finalizer then true else is_deletion_finalizer_present rest

-- controllers/argocd/util.go
unfoldable pub remove_string : String → List String → List String
remove_string s [] = []
remove_string s (item ∷ rest) =
    let result = remove_string s rest in if item == s then result else item ∷ result

-- The cluster and the object that the handlers are given a pointer to.
pub record Cluster (W : Type 0) : Type 0 where
  pub world : W
  pub argocd : Instance

-- The state that outlives a call: the metrics and DeprecationEventEmissionTracker.
pub record Controller (W : Type 0) : Type 0 where
  pub cluster : Cluster W
  pub metrics : Metrics
  pub tracker : List (String × Bool)

-- What Reconcile calls: the client, the label selector as `labels.Parse` gives it, and the handlers
-- of the objects of an instance.
pub record Handlers (W : Type 0) : Type 0 where
  pub get_instance : W → Request → Fetch Instance
  pub update : W → Instance → W × Option Err
  pub selector : Outcome (List (String × String) → Bool)
  pub remove_label_on_deletion : Bool
  pub delete_cluster_resources : Step (Cluster W)
  pub remove_managed_by_label_from_namespaces : Step (Cluster W)
  pub remove_unmanaged_source_namespace_resources : Step (Cluster W)
  pub remove_unmanaged_application_set_source_namespace_resources : Step (Cluster W)
  pub set_managed_namespaces : Step (Cluster W)
  pub set_managed_source_namespaces : Step (Cluster W)
  pub set_managed_application_set_source_namespaces : Step (Cluster W)
  pub reconcile_resources : Step (Cluster W)

module _ {W : Type 0} (h : Handlers W) where
  -- `argocd.Finalizers = …; r.Client.Update(…, argocd)`
  unfoldable pub update_finalizers : List String → Step (Cluster W)
  update_finalizers fs c =
      let a = record (c.argocd) { finalizers = fs } in
      let (world, e) = h.update c.world a in (returned e, record { world = world; argocd = a })

  unfoldable pub remove_deletion_finalizer : Step (Cluster W)
  unfolding update_finalizers remove_string
  remove_deletion_finalizer c =
      update_finalizers (remove_string deletion_finalizer c.argocd.finalizers) c

  pub add_deletion_finalizer : Step (Cluster W)
  unfolding update_finalizers
  add_deletion_finalizer c = update_finalizers (c.argocd.finalizers ++ (deletion_finalizer ∷ [])) c

  -- What is deleted before the finalizer goes.
  unfoldable pub clean_up : Step (Cluster W)
  clean_up = do
    h.delete_cluster_resources
    if h.remove_label_on_deletion then h.remove_managed_by_label_from_namespaces else done
    h.remove_unmanaged_source_namespace_resources
    h.remove_unmanaged_application_set_source_namespace_resources

  -- The object is read again before its resources are reconciled.
  pub refreshed : Fetch Instance → Step (Cluster W)
  refreshed (found a) c = done (record c { argocd = a })
  refreshed missing c = fail not_found c
  refreshed (failed e) c = fail e c

  pub refresh : Request → Step (Cluster W)
  unfolding refreshed
  refresh q c = refreshed (h.get_instance c.world q) c

  pub ensure_finalizer : Step (Cluster W)
  unfolding add_deletion_finalizer is_deletion_finalizer_present
  ensure_finalizer c =
      if is_deletion_finalizer_present c.argocd.finalizers then done c else add_deletion_finalizer c

  -- An instance that is not marked for deletion.
  pub establish : Request → Step (Cluster W)
  unfolding ensure_finalizer refresh
  establish q = do
    ensure_finalizer
    refresh q
    h.set_managed_namespaces
    h.set_managed_source_namespaces
    h.set_managed_application_set_source_namespaces
    h.reconcile_resources

  unfoldable pub within : Step (Cluster W) → Step (Controller W)
  within m s = let (o, c) = m s.cluster in (o, record s { cluster = c })

  unfoldable pub forget_events : Step (Controller W)
  forget_events s = done (record s { tracker = remove s.cluster.argocd.namespace s.tracker })

  -- A marked instance, once it is counted no longer.
  unfoldable pub finalize : Step (Controller W)
  unfolding clean_up remove_deletion_finalizer is_deletion_finalizer_present within forget_events
  finalize s =
      if is_deletion_finalizer_present s.cluster.argocd.finalizers
      then (within (clean_up >> remove_deletion_finalizer) >> forget_events) s
      else done s

  pub process : Request → Instance → Step (Controller W)
  unfolding establish finalize within track untrack
  process q a s =
      let t = record s {
        cluster = record (s.cluster) { argocd = a };
        metrics = track q a s.metrics;
      } in
      if a.is_marked
      then finalize (record t { metrics = untrack a t.metrics })
      else within (establish q) t

  pub select : Outcome (List (String × String) → Bool) → Request → Instance → Step (Controller W)
  unfolding process
  select (err e) q a = fail e
  select panic q a = λ s. (panic, s)
  select (ok matches) q a =
      if matches a.labels
      then process q a
      else fail (failure "error: failed to reconcile ArgoCD instance")

  pub dispatch : Fetch Instance → Request → Step (Controller W)
  unfolding select
  dispatch (found a) q = select h.selector q a
  dispatch missing q = done
  dispatch (failed e) q = fail e

  unfoldable pub reconcile : Request → Step (Controller W)
  unfolding dispatch
  reconcile q s = dispatch (h.get_instance s.cluster.world q) q s
