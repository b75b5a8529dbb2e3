-- ===== src/Reconcile/Tests.antt =====
-- controllers/argocd/argocd_controller.go: the loop on a cluster with one instance, and the
-- theorems there.
use argocd_vee.Common.{
  ◌≡◌, ◌≢◌, refl, sym, ap, ◌∙◌, String, true, false, [], ◌∷◌, HasDistinctKeys, get, none, inl,
  ne_of_beq, string_eq,
}
use argocd_vee.Effect.{ok, api, done, fail}
use argocd_vee.Kube.{Fetch, found}
use argocd_vee.Reconcile.{
  Instance, Request, Metrics, Controller, Handlers, reconcile, finalize, clean_up, remove_string,
  is_deletion_finalizer_present,
}
use argocd_vee.Reconcile.Counting.{Balanced, IsShort}
use argocd_vee.Reconcile.Loop.{reconcile-Balanced, reconcile-IsShort}
use argocd_vee.Reconcile.Deletion.{
  occurrences, occurrences-remove_string, finalize_guards, IsReleased, with_cluster,
}

-- An instance that is marked before it has a phase.
abbrev early : Instance
early = record {
  namespace = "ns";
  name = "argocd";
  labels = [];
  finalizers = "argoproj.io/finalizer" ∷ "other" ∷ [];
  is_marked = true;
  phase = "";
}

abbrev running : Instance
running = record early { is_marked = false; phase = "Available" }

-- The world is the instance that is there.
abbrev handlers : Handlers Instance
handlers = record {
  get_instance = λ w q. found (record w { namespace = q.namespace });
  update = λ w a. (a, none);
  selector = ok (λ labels. true);
  remove_label_on_deletion = false;
  delete_cluster_resources = done;
  remove_managed_by_label_from_namespaces = done;
  remove_unmanaged_source_namespace_resources = done;
  remove_unmanaged_application_set_source_namespace_resources = fail (api "timeout");
  set_managed_namespaces = done;
  set_managed_source_namespaces = done;
  set_managed_application_set_source_namespaces = done;
  reconcile_resources = done;
}

abbrev none_active : Metrics
none_active = record {
  active = [];
  by_phase = λ p. record { incs = 0; decs = 0 };
  total = record { incs = 0; decs = 0 };
  reconciliations = λ ns. 0;
}

abbrev started : Instance → Controller Instance
started a = record {
  cluster = record { world = a; argocd = a };
  metrics = none_active;
  tracker = ("ns", true) ∷ [];
}

abbrev request : Request
request = record { namespace = "ns"; name = "argocd" }

none_active-Balanced : Balanced none_active
unfolding HasDistinctKeys
none_active-Balanced = record { total = refl; phases = λ p. refl; keys = tt }

abbrev namespace_read : Fetch Instance → String
namespace_read (found a) = a.namespace
namespace_read _ = ""

abbrev phase_read : Fetch Instance → String
phase_read (found a) = a.phase
phase_read _ = ""

gives_asked :
    (w : Instance) (q : Request) (a : Instance)
    → handlers.get_instance w q ≡ found a
    → a.namespace ≡ q.namespace
gives_asked w q a e = sym (ap namespace_read e)

reconcile-Balanced_example : Balanced (reconcile handlers request (started running)).1.metrics
reconcile-Balanced_example =
    reconcile-Balanced handlers request (started running) gives_asked
      (λ a e m. inl (λ p. ne_of_beq "Available" "" refl (ap phase_read e ∙ p))) none_active-Balanced

reconcile-IsShort_example : IsShort (reconcile handlers request (started early)).1.metrics
unfolding get
reconcile-IsShort_example =
    reconcile-IsShort handlers request (started early) early (λ labels. true) refl refl refl refl
      refl refl refl none_active-Balanced

occurrences-remove_string_example :
    (occurrences "a" (remove_string "a" ("a" ∷ "b" ∷ "a" ∷ [])) ≡ 0)
    × (◌≢◌ {A = String} "b" "a"
        → occurrences "b" (remove_string "a" ("a" ∷ "b" ∷ "a" ∷ []))
          ≡ occurrences "b" ("a" ∷ "b" ∷ "a" ∷ []))
occurrences-remove_string_example = occurrences-remove_string "a" "b" ("a" ∷ "b" ∷ "a" ∷ [])

finalize_guards_example :
    ((clean_up handlers (started early).cluster).0 ≢ ok tt
      → (finalize handlers (started early)
          ≡ with_cluster (started early) (clean_up handlers (started early).cluster))
        × ((finalize handlers (started early)).1.cluster.argocd.finalizers ≡ early.finalizers))
    × ((finalize handlers (started early)).0 ≡ ok tt
        → ((clean_up handlers (started early).cluster).0 ≡ ok tt)
          × IsReleased handlers (finalize handlers (started early)).1)
unfolding HasDistinctKeys is_deletion_finalizer_present get
finalize_guards_example =
    finalize_guards handlers (started early) ((λ c. refl), (λ c. refl), (λ c. refl), (λ c. refl))
      (refl, tt) refl
