-- ===== src/Reconcile/Deletion.antt =====
-- controllers/argocd/argocd_controller.go: the finalizer of an ArgoCD goes when all is cleaned up,
-- and not before.
use argocd_vee.Common.{
  arith, choose, if_true, ℕ, ◌+◌, ◌≡◌, ◌≢◌, refl, sym, ◌∙◌, ap, subst, String, true, false, List,
  [], ◌∷◌, Option, none, some, ◌==◌, string_eq, if◌then◌else◌, eq_iff, get, HasDistinctKeys,
  get-remove-same,
}
use argocd_vee.Effect.{continue_failed, Err, Outcome, ok, err, panic, Step, done, continue, ◌>>◌}
use argocd_vee.Status.{returned}
use argocd_vee.Reconcile.{
  deletion_finalizer, Cluster, Controller, Handlers, is_deletion_finalizer_present, remove_string,
  update_finalizers, remove_deletion_finalizer, clean_up, within, forget_events, finalize,
}

-- How often a text stands in a list.
abbrev pub occurrences : String → List String → ℕ
occurrences s [] = 0
occurrences s (x ∷ rest) = (if x == s then 1 else 0) + occurrences s rest

-- removeString takes away every copy of the text and no other text.
pub occurrences-remove_string :
    (s t : String) (items : List String)
    → (occurrences s (remove_string s items) ≡ 0)
      × (t ≢ s → occurrences t (remove_string s items) ≡ occurrences t items)
unfolding remove_string
occurrences-remove_string s t [] = (refl, λ h. refl)
occurrences-remove_string s t (x ∷ rest) =
    ground (arith, eq_iff x s, eq_iff x t, occurrences-remove_string s t rest)

finalizer-remove_string :
    (fs : List String) → is_deletion_finalizer_present (remove_string deletion_finalizer fs) ≡ false
unfolding is_deletion_finalizer_present remove_string
finalizer-remove_string [] = refl
finalizer-remove_string (f ∷ rest) = ground (arith, finalizer-remove_string rest)

module _ {W : Type 0} where
  -- A run that ends with the finalizers `fs`.
  abbrev Has : List String → Outcome (Unit {0}) × Cluster W → Type 0
  Has fs r = r.1.argocd.finalizers ≡ fs

  -- A step that leaves the finalizers as they are, however it ends.
  abbrev pub KeepsFinalizers : Step (Cluster W) → Type 0
  KeepsFinalizers m = (c : Cluster W) → Has c.argocd.finalizers (m c)

  >>-KeepsFinalizers :
      (m n : Step (Cluster W)) → KeepsFinalizers m → KeepsFinalizers n → KeepsFinalizers (m >> n)
  >>-KeepsFinalizers m n p q c = next (m c) (p c)
    where
      next :
          (r : Outcome (Unit {0}) × Cluster W)
          → Has c.argocd.finalizers r
          → Has c.argocd.finalizers (continue (λ u. n) r)
      next (ok u, d) e = q d ∙ e
      next (err x, d) e = e
      next (panic, d) e = e

  abbrev pub with_cluster :
      Controller W → Outcome (Unit {0}) × Cluster W → Outcome (Unit {0}) × Controller W
  with_cluster s (o, c) = (o, record s { cluster = c })

abbrev cleared : {W : Type 0} → Cluster W → W → Cluster W
cleared d w = record {
  world = w;
  argocd = record (d.argocd) { finalizers = remove_string deletion_finalizer d.argocd.finalizers };
}

module _ {W : Type 0} (h : Handlers W) where
  -- The handlers that clean up do not change the finalizers.
  abbrev pub CleanersKeep : Type 0
  CleanersKeep =
      KeepsFinalizers h.delete_cluster_resources
      × KeepsFinalizers h.remove_managed_by_label_from_namespaces
      × KeepsFinalizers h.remove_unmanaged_source_namespace_resources
      × KeepsFinalizers h.remove_unmanaged_application_set_source_namespace_resources

  clean_up-KeepsFinalizers : CleanersKeep → KeepsFinalizers (clean_up h)
  unfolding clean_up
  clean_up-KeepsFinalizers (d, l, n, a) =
      >>-KeepsFinalizers h.delete_cluster_resources
        (label_step
          >> (h.remove_unmanaged_source_namespace_resources
              >> h.remove_unmanaged_application_set_source_namespace_resources))
        d
        (>>-KeepsFinalizers label_step
          (h.remove_unmanaged_source_namespace_resources
            >> h.remove_unmanaged_application_set_source_namespace_resources)
          (choose KeepsFinalizers h.remove_label_on_deletion _ _ (λ e. l) (λ c. refl))
          (>>-KeepsFinalizers h.remove_unmanaged_source_namespace_resources
            h.remove_unmanaged_application_set_source_namespace_resources n a))
    where
      label_step : Step (Cluster W)
      label_step =
          if h.remove_label_on_deletion then h.remove_managed_by_label_from_namespaces else done

  -- The finalizer is gone, and so is the entry of the events.
  abbrev pub IsReleased : Controller W → Type 0
  IsReleased s =
      (is_deletion_finalizer_present s.cluster.argocd.finalizers ≡ false)
      × (get s.cluster.argocd.namespace s.tracker ≡ none)

  updated :
      (s : Controller W) (d : Cluster W) (x : Option Err) (w : W)
      → HasDistinctKeys s.tracker
      → (continue (λ u. forget_events h) (with_cluster s (returned x, cleared d w))).0 ≡ ok tt
      → IsReleased (continue (λ u. forget_events h) (with_cluster s (returned x, cleared d w))).1
  unfolding returned forget_events
  updated s d none w k e =
      (finalizer-remove_string d.argocd.finalizers, get-remove-same d.argocd.namespace s.tracker k)
  updated s d (some x) w k e = ground arith

  released :
      (s : Controller W) (r : Outcome (Unit {0}) × Cluster W)
      → HasDistinctKeys s.tracker
      → (continue
          (λ u. forget_events h)
          (with_cluster s (continue (λ u. remove_deletion_finalizer h) r))).0
        ≡ ok tt
      → (r.0 ≡ ok tt)
        × IsReleased
            (continue
              (λ u. forget_events h)
              (with_cluster s (continue (λ u. remove_deletion_finalizer h) r))).1
  unfolding remove_deletion_finalizer update_finalizers
  released s (err x, d) k e = ground arith
  released s (panic, d) k e = ground arith
  released s (ok u, d) k e = (refl, updated s d _ _ k e)

  abbrev pub through : Controller W → Outcome (Unit {0}) × Controller W
  through s =
      continue (λ u. forget_events h)
        (with_cluster s (continue (λ u. remove_deletion_finalizer h) (clean_up h s.cluster)))

  pub finalize-through :
      (s : Controller W)
      → is_deletion_finalizer_present s.cluster.argocd.finalizers ≡ true
      → finalize h s ≡ through s
  unfolding finalize within
  finalize-through s e = if_true (is_deletion_finalizer_present s.cluster.argocd.finalizers) _ _ e

  -- The deletion of an instance that has the finalizer, if the handlers that clean up do not change
  -- the finalizers and DeprecationEventEmissionTracker has one entry for each key. Where they do not succeed, the deletion ends as they do and the finalizers stay.
  -- Where the deletion succeeds, they did, and the finalizer is gone, and with it the entry of the
  -- namespace in DeprecationEventEmissionTracker.
  pub finalize_guards :
      (s : Controller W)
      → CleanersKeep
      → HasDistinctKeys s.tracker
      → is_deletion_finalizer_present s.cluster.argocd.finalizers ≡ true
      → ((clean_up h s.cluster).0 ≢ ok tt
          → (finalize h s ≡ with_cluster s (clean_up h s.cluster))
            × ((finalize h s).1.cluster.argocd.finalizers ≡ s.cluster.argocd.finalizers))
        × ((finalize h s).0 ≡ ok tt
            → ((clean_up h s.cluster).0 ≡ ok tt) × IsReleased (finalize h s).1)
  finalize_guards s keep k e = (
    λ f. (
      stops f,
      ap (λ x. x.1.cluster.argocd.finalizers) (stops f) ∙ clean_up-KeepsFinalizers keep s.cluster,
    ),
    λ o.
        let r =
          released s (clean_up h s.cluster) k (sym (ap (λ x. x.0) (finalize-through s e)) ∙ o) in
        (r.0, subst (λ x. IsReleased x.1) (sym (finalize-through s e)) r.1),
  )
    where
      stops :
          (clean_up h s.cluster).0 ≢ ok tt → finalize h s ≡ with_cluster s (clean_up h s.cluster)
      stops f =
          finalize-through s e
          ∙ ap (λ x. continue (λ u. forget_events h) (with_cluster s x))
              (continue_failed (remove_deletion_finalizer h) (clean_up h s.cluster) f)
          ∙ continue_failed (forget_events h) (with_cluster s (clean_up h s.cluster)) f
