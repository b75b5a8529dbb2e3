-- ===== src/Roles.antt =====
-- controllers/argocd/role.go: reconcileRole, the role of one component in every namespace that the
-- instance manages. `R` is a policy rule, whose lists `same_rules` compares as reflect.DeepEqual does.
pub mod Places
pub mod Everywhere
mod Tests
use argocd_vee.Common.{
  String, Bool, true, false, not, Option, none, some, List, [], ◌∷◌, ◌&&◌, ◌||◌, ◌==◌, string_eq,
  ◌<>◌, if◌then◌else◌, is_empty, is_set, get, remove, Entries,
}
use argocd_vee.Effect.{Err, Outcome, ok, err, panic, Step, done, fail, failure, ◌>>◌}
use argocd_vee.Kube.{Fetch, found, missing, failed, Listing, items, list_failed}
use argocd_vee.Objects.{ObjectClient, call, owned}
use argocd_vee.Mappers.{managed_by_label}
use argocd_vee.ClusterRoles.Fields.{application_controller, default_labels}

abbrev pub server_component : String
server_component = "argocd-server"

abbrev pub dex_server_component : String
dex_server_component = "argocd-dex-server"

-- A namespace of ManagedNamespaces; one with a DeletionTimestamp is terminating. The code also takes
-- the label of such a namespace away in this list, which reconcileRole reads once.
pub record ManagedNamespace : Type 0 where
  pub name : String
  pub labels : Entries
  pub is_terminating : Bool

pub record Role (R : Type 0) : Type 0 where
  pub name : String
  pub labels : Entries
  pub rules : List R

-- An ArgoCD as this code reads it, with the two environment variables that name cluster roles.
pub record RoleSettings : Type 0 where
  pub name : String
  pub namespace : String
  pub uses_dex : Bool
  pub controller_cluster_role : String
  pub server_cluster_role : String

unfoldable pub get_custom_role_name : RoleSettings → String → String
get_custom_role_name cr component =
    if component == application_controller
    then cr.controller_cluster_role
    else if component == server_component
    then cr.server_cluster_role
    else ""

unfoldable pub generate_resource_name : String → RoleSettings → String
generate_resource_name component cr = cr.name <> "-" <> component

-- The client on roles, the list of the Argo CD instances of a namespace, and the write of a
-- namespace's labels.
pub record RoleClient (WR WN R : Type 0) : Type 0 where
  pub roles : ObjectClient WR (Role R)
  pub list_argocds : WN → String → Listing String
  pub update_labels : String → Entries → WN → WN × Option Err

pub record RoleState (WR WN : Type 0) : Type 0 where
  pub roles : WR
  pub others : WN

module _ {WR WN R : Type 0} (k : RoleClient WR WN R) (same_rules : List R → List R → Bool)
    (hook : Role R → Outcome (Role R)) (cr : RoleSettings) (component : String) where
  unfoldable pub new_role : List R → Role R
  unfolding generate_resource_name
  new_role rules = record {
    name = generate_resource_name component cr;
    labels = default_labels cr.name;
    rules = rules;
  }

  -- The label of a terminating namespace is taken away; an error of that is ignored.
  pub remove_label : ManagedNamespace → WN → WN
  remove_label ns w =
      if is_set (get managed_by_label ns.labels)
      then (k.update_labels ns.name (remove managed_by_label ns.labels) w).0
      else w

  abbrev pub has_custom_role : Bool
  has_custom_role = not (get_custom_role_name cr component == "")

  abbrev pub is_unused_dex : Bool
  is_unused_dex = component == dex_server_component && not cr.uses_dex

  abbrev pub own_role : String → Role R → Step WR
  own_role ns role = if cr.namespace == ns then owned k.roles role else done

  -- What is done with the role that is read: an error of the read is returned.
  unfoldable pub on_role : String → Role R → Fetch (Role R) → Step WR
  unfolding call owned get_custom_role_name
  on_role ns role (failed e) = fail (failure "failed to reconcile the role for the service account")
  on_role ns role missing =
      if has_custom_role
      then done
      else if is_unused_dex
      then done
      else own_role ns role >> call (k.roles.create ns role.name role)
  on_role ns role (found x) =
      if has_custom_role || is_unused_dex
      then call (k.roles.delete ns role.name)
      else if not (same_rules x.rules role.rules)
      then call (k.roles.update ns role.name (record x { rules = role.rules }))
      else done

  abbrev pub with_hooked : String → Outcome (Role R) → Step WR
  with_hooked ns (ok role) = λ w. on_role ns role (k.roles.get w ns role.name) w
  with_hooked ns (err e) = fail e
  with_hooked ns panic = λ w. (panic, w)

  -- The roles that an instance has for itself are skipped in namespaces that hold none.
  unfoldable pub is_skipped : String → Listing String → Bool
  is_skipped ns (list_failed e) = false
  is_skipped ns (items argocds) =
      is_empty argocds
      && (not (cr.namespace == ns)
          && (not (component == application_controller) && not (component == server_component)))

  unfoldable pub on_listing : List R → String → Listing String → Step WR
  unfolding on_role new_role is_skipped
  on_listing rules ns (list_failed e) = fail e
  on_listing rules ns (items argocds) =
      if is_skipped ns (items argocds) then done else with_hooked ns (hook (new_role rules))

  -- The body of the loop.
  unfoldable pub reconcile_in : List R → ManagedNamespace → Step (RoleState WR WN)
  unfolding on_listing remove_label
  reconcile_in rules ns s =
      if ns.is_terminating
      then (ok tt, record s { others = remove_label ns s.others })
      else (let (o, w) = on_listing rules ns.name (k.list_argocds s.others ns.name) s.roles in
          (o, record s { roles = w }))

  -- The list of roles that is returned beside the error is left out.
  unfoldable pub reconcile_role : List R → List ManagedNamespace → Step (RoleState WR WN)
  unfolding reconcile_in
  reconcile_role rules [] = done
  reconcile_role rules (ns ∷ rest) = reconcile_in rules ns >> reconcile_role rules rest
