-- ===== src/ClusterSecret.antt =====
-- controllers/argocd/secret.go and util.go: the secret of the cluster in which an instance runs, whose
-- entry `namespaces` says which namespaces the instance may use.
pub mod Names
pub mod Dropped
mod Tests
use argocd_vee.Common.{
  String, Bool, true, false, not, Option, none, some, List, [], ◌∷◌, ◌++◌, ◌==◌, string_eq, ◌<>◌,
  if◌then◌else◌, any, join_with, split_comma, trim_space, sort_texts,
}
use argocd_vee.Effect.{Err, Outcome, ok, err, Step, done, fail, ◌>>◌}
use argocd_vee.Kube.{Listing, items, list_failed}
use argocd_vee.Status.{returned}
use argocd_vee.Objects.{call}
use argocd_vee.ClusterRoles.{allowed_namespace}

-- A cluster secret: its name, and of its data the server and the namespaces; the constant entries
-- `config` and `name` are left out.
pub record ClusterSecret : Type 0 where
  pub name : String
  pub server : String
  pub namespaces : Option String

abbrev pub default_server : String
default_server = "https://kubernetes.default.svc"

-- What the code calls of the client: the names of the namespaces with the label of the owner, the
-- cluster secrets of a namespace, and writes of them.
pub record SecretClient (W : Type 0) : Type 0 where
  pub list_managed : W → String → Listing String
  pub list_cluster_secrets : W → String → Listing ClusterSecret
  pub update : String → ClusterSecret → W → W × Option Err
  pub create : String → ClusterSecret → W → W × Option Err
  pub own : ClusterSecret → Option Err

unfoldable pub contains_string : List String → String → Bool
contains_string arr s = any (λ a. a == s) arr

-- `string(s.Data["namespaces"])`
abbrev pub text_of : Option String → String
text_of none = ""
text_of (some t) = t

-- The loop that adds the names that are not there yet.
unfoldable pub add_missing : List String → List String → List String
unfolding contains_string
add_missing [] ns = ns
add_missing (n ∷ rest) ns =
    add_missing rest
      (if not (contains_string ns (trim_space n)) then ns ++ (trim_space n ∷ []) else ns)

unfoldable pub merge_namespaces : List String → Option String → String
unfolding add_missing
merge_namespaces names t = join_with "," (sort_texts (add_missing names (split_comma (text_of t))))

-- The managed namespaces and the own one, in order.
unfoldable pub all_namespaces : String → List String → List String
unfolding contains_string
all_namespaces own names =
    sort_texts (if not (contains_string names own) then names ++ (own ∷ []) else names)

-- The existing secret with its new namespaces: none where the instance may use the whole cluster.
unfoldable pub updated_secret : Bool → List String → ClusterSecret → ClusterSecret
unfolding merge_namespaces
updated_secret cluster_config names s = record s {
  namespaces = if cluster_config then none else some (merge_namespaces names s.namespaces);
}

-- The first cluster secret with the default server.
unfoldable pub find_in_cluster : List ClusterSecret → Option ClusterSecret
find_in_cluster [] = none
find_in_cluster (s ∷ rest) =
    let later = find_in_cluster rest in if s.server == default_server then some s else later

module _ {W : Type 0} (k : SecretClient W) (name namespace : String)
    (config_namespaces : String) where
  abbrev pub new_cluster_secret : List String → ClusterSecret
  new_cluster_secret names = record {
    name = name <> "-default-cluster-config";
    server = default_server;
    namespaces = some (join_with "," names);
  }

  abbrev pub write_secret : List String → Option ClusterSecret → Step W
  write_secret names (some s) =
      call (
        k.update namespace (updated_secret (allowed_namespace namespace config_namespaces) names s))
  write_secret names none =
      if allowed_namespace namespace config_namespaces
      then done
      else (λ w. (returned (k.own (new_cluster_secret names)), w))
        >> call (k.create namespace (new_cluster_secret names))

  abbrev pub with_cluster_secrets : List String → Listing ClusterSecret → Step W
  with_cluster_secrets names (items secrets) = write_secret names (find_in_cluster secrets)
  with_cluster_secrets names (list_failed e) = fail e

  abbrev pub with_managed : Listing String → Step W
  with_managed (items names) = λ w.
      with_cluster_secrets (all_namespaces namespace names) (k.list_cluster_secrets w namespace) w
  with_managed (list_failed e) = fail e

  unfoldable pub reconcile_cluster_permissions_secret : Step W
  unfolding find_in_cluster all_namespaces updated_secret call returned
  reconcile_cluster_permissions_secret w = with_managed (k.list_managed w namespace) w

-- The loop of deleteManagedNamespaceFromClusterSecret over the entries: the names that are kept, and
-- the data, which is written in the turns that keep a name.
unfoldable pub drop_loop : String → List String → List String → String → String
drop_loop source [] result t = t
drop_loop source (n ∷ rest) result t =
    if trim_space n == source
    then drop_loop source rest result t
    else drop_loop source rest (sort_texts (result ++ (trim_space n ∷ [])))
        (join_with "," (sort_texts (result ++ (trim_space n ∷ []))))

unfoldable pub drop_namespace : String → String → String
unfolding drop_loop
drop_namespace source t = drop_loop source (split_comma t) [] t

module _ {W : Type 0} (k : SecretClient W) (owner source : String) where
  abbrev pub drop_in : ClusterSecret → Option String → Step W
  drop_in s none = done
  drop_in s (some t) =
      call (k.update owner (record s { namespaces = some (drop_namespace source t) }))

  unfoldable pub drop_in_secrets : List ClusterSecret → Step W
  unfolding drop_namespace call
  drop_in_secrets [] = done
  drop_in_secrets (s ∷ rest) =
      (if not (s.server == default_server) then done else drop_in s s.namespaces)
      >> drop_in_secrets rest

  abbrev on_secrets : Listing ClusterSecret → Step W
  on_secrets (items secrets) = drop_in_secrets secrets
  on_secrets (list_failed e) = fail e

  unfoldable pub delete_managed_namespace_from_cluster_secret : Step W
  unfolding drop_in_secrets
  delete_managed_namespace_from_cluster_secret w = on_secrets (k.list_cluster_secrets w owner) w
