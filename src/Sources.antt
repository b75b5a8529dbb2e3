-- ===== src/Sources.antt =====
-- controllers/argocd/util.go: the namespaces from which an instance takes applications, and what is
-- cleaned up in those that it manages no longer. The client and the matching of globs are parameters.
pub mod Passes
pub mod Entries
pub mod Release
mod Tests
use argocd_vee.Common.{
  String, Bool, true, false, not, List, [], ◌∷◌, map, any, ◌==◌, string_eq, ◌<>◌, Option, none,
  some,
}
use argocd_vee.Common.{if◌then◌else◌, put, remove}
use argocd_vee.Effect.{Err, failure, Outcome, ok, err, panic, Step, done, fail, ◌>>=◌, ◌>>◌}
use argocd_vee.Kube.{Fetch, found, missing, failed, Listing, items, list_failed}
use argocd_vee.Status.{returned}

-- common/keys.go
abbrev pub managed_by_cluster_label : String
managed_by_cluster_label = "argocd.argoproj.io/managed-by-cluster-argocd"

-- An ArgoCD as this code reads it.
pub record Owner : Type 0 where
  pub name : String
  pub namespace : String
  pub is_marked : Bool
  pub source_namespaces : List String

-- What the code calls of the client: lists of namespaces, by the label of the owner and all; the
-- labels of a namespace; roles and role bindings by namespace and name, as the name that the object
-- read has. And `glob.MatchStringInList`.
pub record SourceClient (W : Type 0) : Type 0 where
  pub list_labelled : W → String → Listing String
  pub list_namespaces : W → Listing String
  pub get_labels : W → String → Fetch (List (String × String))
  pub update_labels : W → String → List (String × String) → W × Option Err
  pub get_role : W → String → String → Fetch String
  pub delete_role : W → String → String → W × Option Err
  pub get_role_binding : W → String → String → Fetch String
  pub delete_role_binding : W → String → String → W × Option Err
  pub matches : List String → String → Bool

-- The world and ManagedSourceNamespaces, a map whose keys only matter.
pub record Managed (W : Type 0) : Type 0 where
  pub world : W
  pub managed : List (String × String)

pub keep_names : (String → Bool) → List String → List String
keep_names p [] = []
keep_names p (n ∷ rest) = let more = keep_names p rest in if p n then n ∷ more else more

-- getRoleNameForApplicationSourceNamespaces, getRoleBindingNameForSourceNamespaces
unfoldable pub role_name : Owner → String → String
role_name cr ns = cr.name <> "_" <> ns

module _ {W : Type 0} (k : SourceClient W) (cr : Owner) where
  pub matching_names : Listing String → Outcome (List String)
  unfolding keep_names
  matching_names (items names) = ok (keep_names (k.matches cr.source_namespaces) names)
  matching_names (list_failed e) = err e

  unfoldable pub get_source_namespaces : W → Outcome (List String)
  unfolding matching_names
  get_source_namespaces w = matching_names (k.list_namespaces w)

  pub managed_keys : List String → List (String × String)
  managed_keys [] = []
  managed_keys (n ∷ rest) = (n, "") ∷ managed_keys rest

  pub store_labelled : Listing String → Step (Managed W)
  unfolding managed_keys
  store_labelled (items names) s = done (record s { managed = managed_keys names })
  store_labelled (list_failed e) s = fail e (record s { managed = [] })

  unfoldable pub set_managed_source_namespaces : Step (Managed W)
  unfolding store_labelled
  set_managed_source_namespaces s = store_labelled (k.list_labelled s.world cr.namespace) s

  -- The label is taken from the namespace; an error is only logged.
  pub clear_label : String → List (String × String) → Step W
  clear_label ns labels w =
      let (v, e) = k.update_labels w ns (remove managed_by_cluster_label labels) in (ok tt, v)

  -- The object that a read gives is deleted, if it has a name; one that is not there has none. A read
  -- that fails is reported by a text of its own.
  pub delete_fetched : String → (String → W → W × Option Err) → Fetch String → Step W
  delete_fetched what delete missing w = done w
  delete_fetched what delete (failed e) w = fail (failure what) w
  delete_fetched what delete (found name) w =
      let (v, e) = delete name w in if not (name == "") then (returned e, v) else (ok tt, w)

  pub delete_roles : String → Step W
  unfolding delete_fetched
  delete_roles ns w =
      delete_fetched "failed to fetch the role" (λ name v. k.delete_role v ns name)
        (k.get_role w ns (role_name cr ns)) w

  pub delete_role_bindings : String → Step W
  unfolding delete_fetched
  delete_role_bindings ns w =
      delete_fetched "failed to get the rolebinding" (λ name v. k.delete_role_binding v ns name)
        (k.get_role_binding w ns (role_name cr ns)) w

  pub cleanup_fetched : String → Fetch (List (String × String)) → Step W
  unfolding clear_label delete_roles delete_role_bindings
  cleanup_fetched ns missing = done
  cleanup_fetched ns (failed e) = fail e
  cleanup_fetched ns (found labels) = do
    clear_label ns labels
    delete_roles ns
    delete_role_bindings ns

  unfoldable pub cleanup_unmanaged_source_namespace_resources : String → Step W
  unfolding cleanup_fetched
  cleanup_unmanaged_source_namespace_resources ns w = cleanup_fetched ns (k.get_labels w ns) w

  pub is_among : String → Outcome (List String) → Outcome Bool
  is_among ns (ok names) = ok (any (λ n. n == ns) names)
  is_among ns (err e) = err e
  is_among ns panic = panic

  -- Whether the instance still manages the namespace; a marked one manages none.
  pub is_managed : String → W → Outcome Bool
  unfolding get_source_namespaces is_among
  is_managed ns w = if cr.is_marked then ok false else is_among ns (get_source_namespaces w)

  -- The entry goes if the clean-up succeeds, and stays, the error logged, if not.
  pub after_cleanup :
      String → List (String × String) → Outcome (Unit {0}) × W → Outcome (Unit {0}) × Managed W
  after_cleanup ns m (ok u, w) = (ok u, record { world = w; managed = remove ns m })
  after_cleanup ns m (err e, w) = (ok tt, record { world = w; managed = m })
  after_cleanup ns m (panic, w) = (panic, record { world = w; managed = m })

  pub visit_decided : String → Outcome Bool → Step (Managed W)
  unfolding after_cleanup cleanup_unmanaged_source_namespace_resources
  visit_decided ns (ok true) = done
  visit_decided ns (ok false) =
      λ s. after_cleanup ns s.managed (cleanup_unmanaged_source_namespace_resources ns s.world)
  visit_decided ns (err e) = fail e
  visit_decided ns panic = λ s. (panic, s)

  -- One turn of the loop.
  pub visit : String → Step (Managed W)
  unfolding visit_decided is_managed
  visit ns s = visit_decided ns (is_managed ns s.world) s

  pub visit_all : List String → Step (Managed W)
  unfolding visit
  visit_all [] = done
  visit_all (ns ∷ rest) = visit ns >> visit_all rest

  unfoldable pub remove_unmanaged_source_namespace_resources : Step (Managed W)
  unfolding visit_all
  remove_unmanaged_source_namespace_resources s = visit_all (map (λ e. e.0) s.managed) s
