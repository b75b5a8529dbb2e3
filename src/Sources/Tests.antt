-- ===== src/Sources/Tests.antt =====
-- controllers/argocd/util.go: passes over two source namespaces.
use argocd_vee.Common.{
  ◌≡◌, refl, ap, String, true, false, none, [], ◌∷◌, any, ◌==◌, string_eq, get, HasDistinctKeys,
  remove,
}
use argocd_vee.Effect.{ok, api, done}
use argocd_vee.Kube.{found, missing, failed, items}
use argocd_vee.Sources.{
  Owner, SourceClient, Managed, cleanup_unmanaged_source_namespace_resources, get_source_namespaces,
  remove_unmanaged_source_namespace_resources,
}
use argocd_vee.Status.{returned}
use argocd_vee.Reconcile.{Controller, Handlers, finalize, is_deletion_finalizer_present}
use argocd_vee.Sources.Release.{with_sources, finalize_unchecked}
use argocd_vee.Sources.Passes.{remove_unmanaged_marked, IsCalm}
use argocd_vee.Sources.Entries.{Holds, kept, remove_unmanaged-Holds}

-- The world counts for nothing; the namespaces match by their names.
abbrev calm : SourceClient String
calm = record {
  list_labelled = λ w v. items ("team" ∷ "old" ∷ []);
  list_namespaces = λ w. items ("ns" ∷ "team" ∷ []);
  get_labels = λ w ns. missing;
  update_labels = λ w ns labels. (w, none);
  get_role = λ w ns name. missing;
  delete_role = λ w ns name. (w, none);
  get_role_binding = λ w ns name. missing;
  delete_role_binding = λ w ns name. (w, none);
  matches = λ globs ns. any (λ g. g == ns) globs;
}

-- No role binding can be read.
abbrev stormy : SourceClient String
stormy = record calm {
  get_labels = λ w ns. found [];
  get_role_binding = λ w ns name. failed (api "timeout");
}

abbrev owner : Owner
owner = record {
  name = "argocd";
  namespace = "ns";
  is_marked = false;
  source_namespaces = "team" ∷ [];
}

abbrev marked : Owner
marked = record owner { is_marked = true }

abbrev two : Managed String
two = record { world = ""; managed = ("team", "") ∷ ("old", "") ∷ [] }

two-HasDistinctKeys : HasDistinctKeys two.managed
unfolding HasDistinctKeys get
two-HasDistinctKeys = (refl, (refl, tt))

calm-IsCalm : IsCalm calm owner ("ns" ∷ "team" ∷ [])
unfolding cleanup_unmanaged_source_namespace_resources
calm-IsCalm = ((λ ns w. refl), (λ w. refl))

remove_unmanaged-Holds_example :
    Holds calm owner
      ("ns" ∷ "team" ∷ [])
      (kept calm owner ("ns" ∷ "team" ∷ []) two.managed)
      (remove_unmanaged_source_namespace_resources calm owner two)
remove_unmanaged-Holds_example =
    remove_unmanaged-Holds calm owner ("ns" ∷ "team" ∷ []) two calm-IsCalm two-HasDistinctKeys

remove_unmanaged_marked_example :
    (remove_unmanaged_source_namespace_resources stormy marked two).0 ≡ ok tt
remove_unmanaged_marked_example = remove_unmanaged_marked stormy marked two refl

-- The namespace that no longer matches goes; with no clean-up that succeeds, none does.
old_goes :
    (remove_unmanaged_source_namespace_resources calm owner two).1.managed ≡ ("team", "") ∷ []
unfolding remove_unmanaged_source_namespace_resources get_source_namespaces
    cleanup_unmanaged_source_namespace_resources remove
old_goes = refl

all_stay : (remove_unmanaged_source_namespace_resources stormy marked two).1.managed ≡ two.managed
unfolding remove_unmanaged_source_namespace_resources get_source_namespaces
    cleanup_unmanaged_source_namespace_resources remove
all_stay = refl

abbrev idle : Handlers (Managed String)
idle = record {
  get_instance = λ w q. missing;
  update = λ w a. (w, none);
  selector = ok (λ labels. true);
  remove_label_on_deletion = false;
  delete_cluster_resources = done;
  remove_managed_by_label_from_namespaces = done;
  remove_unmanaged_source_namespace_resources = done;
  remove_unmanaged_application_set_source_namespace_resources = done;
  set_managed_namespaces = done;
  set_managed_source_namespaces = done;
  set_managed_application_set_source_namespaces = done;
  reconcile_resources = done;
}

abbrev deleted : Controller (Managed String)
deleted = record {
  cluster = record {
    world = two;
    argocd = record {
      namespace = "ns";
      name = "argocd";
      labels = [];
      finalizers = "argoproj.io/finalizer" ∷ [];
      is_marked = true;
      phase = "Available";
    };
  };
  metrics = record {
    active = [];
    by_phase = λ p. record { incs = 0; decs = 0 };
    total = record { incs = 0; decs = 0 };
    reconciliations = λ ns. 0;
  };
  tracker = [];
}

-- What is deleted first is seen in the world.
abbrev busy : Handlers (Managed String)
busy = record idle {
  delete_cluster_resources =
      λ c. (ok tt, record c { world = record (c.world) { world = "deleted" } });
}

deletion_succeeds : (finalize (with_sources busy stormy ("team" ∷ [])) deleted).0 ≡ ok tt
unfolding finalize is_deletion_finalizer_present returned
deletion_succeeds =
    ap (λ r. r.0)
      (finalize_unchecked busy stormy ("team" ∷ []) deleted (λ c. refl) (λ c. refl) refl)
