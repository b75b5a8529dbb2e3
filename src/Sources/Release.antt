-- ===== src/Sources/Release.antt =====
-- controllers/argocd/argocd_controller.go with the clean-up of the source namespaces of
-- controllers/argocd/util.go in its place: what the check of its error does in a deletion.
use argocd_vee.Common.{choose, ◌≡◌, refl, ◌∙◌, ap, String, true, List, if◌then◌else◌}
use argocd_vee.Effect.{Outcome, err, panic, ok, Step, done, continue, ◌>>◌}
use argocd_vee.Reconcile.{
  Instance, Cluster, Controller, Handlers, clean_up, finalize, is_deletion_finalizer_present,
  remove_deletion_finalizer, update_finalizers, forget_events, within,
}
use argocd_vee.Reconcile.Deletion.{with_cluster}
use argocd_vee.Sources.{Owner, SourceClient, Managed, remove_unmanaged_source_namespace_resources}
use argocd_vee.Sources.Passes.{remove_unmanaged_marked}

abbrev pub owner_of : List String → Instance → Owner
owner_of sources a = record {
  name = a.name;
  namespace = a.namespace;
  is_marked = a.is_marked;
  source_namespaces = sources;
}

module _ {W : Type 0} (h : Handlers (Managed W)) (k : SourceClient W) (sources : List String) where
  abbrev pub source_step : Step (Cluster (Managed W))
  source_step c =
      let (o, m) =
        remove_unmanaged_source_namespace_resources k (owner_of sources c.argocd) c.world in
      (o, record c { world = m })

  -- The handlers of the loop, with the code of the source namespaces among them.
  abbrev pub with_sources : Handlers (Managed W)
  with_sources = record h { remove_unmanaged_source_namespace_resources = source_step }

  -- The pass whatever its error was.
  abbrev pub unchecked_step : Step (Cluster (Managed W))
  unchecked_step c = (ok tt, (source_step c).1)

  -- The same loop, with the error of the pass not looked at.
  abbrev pub with_unchecked : Handlers (Managed W)
  with_unchecked = record h { remove_unmanaged_source_namespace_resources = unchecked_step }

  -- A step that leaves the mark of the instance, however it ends.
  abbrev pub KeepsMark : Step (Cluster (Managed W)) → Type 0
  KeepsMark m = (c : Cluster (Managed W)) → (m c).1.argocd.is_marked ≡ c.argocd.is_marked

  pass-unchecked :
      (c : Cluster (Managed W)) → c.argocd.is_marked ≡ true → source_step c ≡ unchecked_step c
  pass-unchecked c m =
      ap (λ o. (o, (source_step c).1))
        (remove_unmanaged_marked k (owner_of sources c.argocd) c.world m)

  -- Two continuations that agree on marked instances.
  continue_marked :
      (m n : Step (Cluster (Managed W)))
      → ((c : Cluster (Managed W)) → c.argocd.is_marked ≡ true → m c ≡ n c)
      → (r : Outcome (Unit {0}) × Cluster (Managed W)) → r.1.argocd.is_marked ≡ true
      → continue (λ u. m) r ≡ continue (λ u. n) r
  continue_marked m n f (ok u, c) h = f c h
  continue_marked m n f (err e, c) h = refl
  continue_marked m n f (panic, c) h = refl

  clean_up-unchecked :
      (c : Cluster (Managed W))
      → KeepsMark h.delete_cluster_resources
      → KeepsMark h.remove_managed_by_label_from_namespaces
      → c.argocd.is_marked ≡ true
      → clean_up with_sources c ≡ clean_up with_unchecked c
  unfolding clean_up
  clean_up-unchecked c d l m =
      continue_marked (label_step >> (source_step >> last)) (label_step >> (unchecked_step >> last))
        (λ c m.
          continue_marked (source_step >> last) (unchecked_step >> last)
            (λ c m. ap (continue (λ u. last)) (pass-unchecked c m)) (label_step c)
            (choose KeepsMark h.remove_label_on_deletion _ _ (λ e. l) (λ c. refl) c ∙ m))
        (h.delete_cluster_resources c) (d c ∙ m)
    where
      last : Step (Cluster (Managed W))
      last = h.remove_unmanaged_application_set_source_namespace_resources

      label_step : Step (Cluster (Managed W))
      label_step =
          if h.remove_label_on_deletion then h.remove_managed_by_label_from_namespaces else done

  pub finalize_unchecked :
      (s : Controller (Managed W))
      → KeepsMark h.delete_cluster_resources
      → KeepsMark h.remove_managed_by_label_from_namespaces
      → s.cluster.argocd.is_marked ≡ true
      → finalize with_sources s ≡ finalize with_unchecked s
  unfolding finalize remove_deletion_finalizer update_finalizers forget_events within
  finalize_unchecked s d l m =
      ap
        (λ r.
          if is_deletion_finalizer_present s.cluster.argocd.finalizers
          then continue (λ u. forget_events with_sources)
              (with_cluster s (continue (λ u. remove_deletion_finalizer with_sources) r))
          else done s)
        (clean_up-unchecked s.cluster d l m)
