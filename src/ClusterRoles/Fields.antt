-- ===== src/ClusterRoles/Fields.antt =====
-- controllers/argocd/role.go: what a cluster role has in each mode, and how an existing one is made to
-- match.
use argocd_vee.Common.{
  String, Bool, true, false, Option, none, some, map_option, List, [], ◌∷◌, ◌&&◌, ◌==◌, string_eq,
  ◌<>◌, if◌then◌else◌, put, Entries, copy_into, deep_equal,
}

-- `AggregationRule` is a list of selectors, of which the labels to match are seen; the maps may be nil.
pub record ClusterRole (R : Type 0) : Type 0 where
  pub aggregation : Option (List Entries)
  pub labels : Option Entries
  pub annotations : Option Entries
  pub rules : List R

-- An ArgoCD as this code reads it.
pub record RoleOwner : Type 0 where
  pub name : String
  pub namespace : String
  pub annotations : Entries
  pub default_cluster_scoped_role_disabled : Bool
  pub aggregated_cluster_roles : Bool

abbrev pub application_controller : String
application_controller = "argocd-application-controller"

abbrev pub application_controller_view : String
application_controller_view = "argocd-application-controller-view"

abbrev pub application_controller_admin : String
application_controller_admin = "argocd-application-controller-admin"

abbrev pub key_managed_by : String
key_managed_by = "app.kubernetes.io/managed-by"

abbrev pub aggregate_to_controller_label_key : String
aggregate_to_controller_label_key = "argocd/aggregate-to-controller"

abbrev pub aggregate_to_admin_label_key : String
aggregate_to_admin_label_key = "argocd/aggregate-to-admin"

abbrev pub auto_update_annotation_key : String
auto_update_annotation_key = "rbac.authorization.kubernetes.io/autoupdate"

unfoldable pub generate_unique_resource_name : String → RoleOwner → String
generate_unique_resource_name component cr = cr.name <> "-" <> cr.namespace <> "-" <> component

abbrev pub default_labels : String → Entries
default_labels name =
    ("app.kubernetes.io/name", name)
    ∷ ("app.kubernetes.io/part-of", "argocd")
    ∷ (key_managed_by, name)
    ∷ []

abbrev pub default_annotations : String → String → Entries
default_annotations name namespace =
    ("argocds.argoproj.io/name", name) ∷ ("argocds.argoproj.io/namespace", namespace) ∷ []

unfoldable pub annotations_for_cluster : RoleOwner → Entries
annotations_for_cluster cr = copy_into cr.annotations (default_annotations cr.name cr.namespace)

unfoldable pub same_map : Option Entries → Option Entries → Bool
same_map none none = true
same_map none (some b) = false
same_map (some a) b = deep_equal a b

unfoldable pub same_selectors : List Entries → List Entries → Bool
same_selectors [] [] = true
same_selectors [] (b ∷ bs) = false
same_selectors (a ∷ xs) [] = false
same_selectors (a ∷ xs) (b ∷ bs) = let rest = same_selectors xs bs in deep_equal a (some b) && rest

unfoldable pub same_aggregation : Option (List Entries) → Option (List Entries) → Bool
unfolding same_selectors
same_aggregation none none = true
same_aggregation none (some b) = false
same_aggregation (some a) none = false
same_aggregation (some a) (some b) = same_selectors a b

abbrev pub aggregation_rule : String → RoleOwner → Option (List Entries)
aggregation_rule key cr = some (((key, "true") ∷ (key_managed_by, cr.name) ∷ []) ∷ [])

-- `changed` and the existing role.
pub record Match (R : Type 0) : Type 0 where
  pub changed : Bool
  pub role : ClusterRole R

module _ {R : Type 0} where
  unfoldable pub new_cluster_role : String → List R → RoleOwner → ClusterRole R
  unfolding annotations_for_cluster
  new_cluster_role component rules cr = record {
    aggregation = none;
    labels = some (default_labels cr.name);
    annotations = some (annotations_for_cluster cr);
    rules = rules;
  }

  -- The role is new, so that its maps are not nil.
  unfoldable pub configure_aggregated_cluster_role :
      RoleOwner → String → ClusterRole R → ClusterRole R
  configure_aggregated_cluster_role cr component role =
      if component == application_controller
      then record role {
        aggregation = aggregation_rule aggregate_to_controller_label_key cr;
        annotations = map_option (put auto_update_annotation_key "true") role.annotations;
        rules = [];
      }
      else if component == application_controller_admin
      then record role {
        aggregation = aggregation_rule aggregate_to_admin_label_key cr;
        labels = map_option (put aggregate_to_controller_label_key "true") role.labels;
      }
      else if component == application_controller_view
      then record role {
        labels = map_option (put aggregate_to_controller_label_key "true") role.labels;
      }
      else role

  -- `if !reflect.DeepEqual(existing.F, expected.F) { existing.F = expected.F; changed = true }`, for
  -- each of the fields.
  unfoldable pub match_aggregation : ClusterRole R → Match R → Match R
  match_aggregation e m =
      if same_aggregation e.aggregation m.role.aggregation
      then m
      else record { changed = true; role = record m.role { aggregation = e.aggregation } }

  unfoldable pub match_annotations : ClusterRole R → Match R → Match R
  match_annotations e m =
      if same_map e.annotations m.role.annotations
      then m
      else record { changed = true; role = record m.role { annotations = e.annotations } }

  unfoldable pub match_labels : ClusterRole R → Match R → Match R
  match_labels e m =
      if same_map e.labels m.role.labels
      then m
      else record { changed = true; role = record m.role { labels = e.labels } }

module _ {R : Type 0} (same_rules : List R → List R → Bool) where
  unfoldable pub match_rules : ClusterRole R → Match R → Match R
  match_rules e m =
      if same_rules e.rules m.role.rules
      then m
      else record { changed = true; role = record m.role { rules = e.rules } }

  abbrev pub unchanged : ClusterRole R → Match R
  unchanged x = record { changed = false; role = x }

  -- The rules of a base role that was not aggregated are dropped.
  abbrev pub drop_rules : Bool → Match R → Match R
  drop_rules aggregated m =
      if aggregated then m else record m { role = record m.role { rules = [] } }

  unfoldable pub match_aggregated_cluster_role_fields :
      String → ClusterRole R → ClusterRole R → Match R
  unfolding match_aggregation match_annotations match_labels same_aggregation
  match_aggregated_cluster_role_fields component e x =
      if component == application_controller
      then drop_rules (same_aggregation e.aggregation x.aggregation)
          (match_annotations e (match_aggregation e (unchanged x)))
      else if component == application_controller_view
      then match_labels e (unchanged x)
      else if component == application_controller_admin
      then match_labels e (match_aggregation e (unchanged x))
      else unchanged x

  unfoldable pub match_default_cluster_role_fields :
      String → ClusterRole R → ClusterRole R → Match R
  unfolding match_aggregation match_annotations match_rules
  match_default_cluster_role_fields component e x = match_rules e (
      if component == application_controller
      then match_annotations e (match_aggregation e (unchanged x))
      else unchanged x)
