-- ===== src/ClusterRoles/Matching.antt =====
-- controllers/argocd/role.go: what the code for the fields of a cluster role compares, and that it makes
-- an existing role match the expected one.
use argocd_vee.Common.{
  ◌||◌, choose, get, ◌≡◌, refl, ap, deep_equal, String, Bool, true, false, not, none, some, List,
  [], ◌∷◌, ◌&&◌, ◌==◌, string_eq, if◌then◌else◌, Entries, HasDistinctKeys, deep_equal_self, arith,
  put, put-HasDistinctKeys, copy_into-HasDistinctKeys,
}
use argocd_vee.ClusterRoles.Fields.{
  ClusterRole, RoleOwner, Match, application_controller, application_controller_view,
  application_controller_admin, same_map, same_selectors, same_aggregation,
  match_aggregated_cluster_role_fields, match_default_cluster_role_fields, match_aggregation,
  match_annotations, match_labels, match_rules, new_cluster_role, configure_aggregated_cluster_role,
  annotations_for_cluster, default_labels, key_managed_by, aggregation_rule,
  aggregate_to_controller_label_key, aggregate_to_admin_label_key,
}

module _ {R : Type 0} (same_rules : List R → List R → Bool) where
  same_base : ClusterRole R → ClusterRole R → Bool
  same_base e x =
      same_aggregation e.aggregation x.aggregation && same_map e.annotations x.annotations

  -- Which fields of an existing role are the expected ones, by mode and component.
  pub agrees : Bool → String → ClusterRole R → ClusterRole R → Bool
  unfolding same_base
  agrees true component e x =
      if component == application_controller
      then same_base e x
      else if component == application_controller_view
      then same_map e.labels x.labels
      else if component == application_controller_admin
      then same_aggregation e.aggregation x.aggregation && same_map e.labels x.labels
      else true
  agrees false component e x =
      same_rules e.rules x.rules && (not (component == application_controller) || same_base e x)

  unfoldable pub matching : Bool → String → ClusterRole R → ClusterRole R → Match R
  matching aggregated component e x =
      if aggregated
      then match_aggregated_cluster_role_fields same_rules component e x
      else match_default_cluster_role_fields same_rules component e x

  -- A role whose fields all agree with themselves.
  pub record IsRole (e : ClusterRole R) : Type 0 where
    pub aggregation : same_aggregation e.aggregation e.aggregation ≡ true
    pub labels : same_map e.labels e.labels ≡ true
    pub annotations : same_map e.annotations e.annotations ≡ true
    pub rules : same_rules e.rules e.rules ≡ true

  pub matched-agrees :
      (aggregated : Bool) (component : String) (e x : ClusterRole R)
      → IsRole e
      → agrees aggregated component e (matching aggregated component e x).role ≡ true
  unfolding agrees same_base matching match_aggregated_cluster_role_fields
      match_default_cluster_role_fields match_aggregation match_annotations match_labels match_rules
  matched-agrees true component e x r =
      ground (arith, r.rules, r.annotations, r.labels, r.aggregation)
  matched-agrees false component e x r =
      ground (arith, r.rules, r.annotations, r.labels, r.aggregation)

  pub agrees_self :
      (aggregated : Bool) (component : String) (e : ClusterRole R)
      → IsRole e
      → agrees aggregated component e e ≡ true
  unfolding agrees same_base
  agrees_self true component e r = ground (arith, r.rules, r.annotations, r.labels, r.aggregation)
  agrees_self false component e r = ground (arith, r.rules, r.annotations, r.labels, r.aggregation)

  pub unchanged-agrees :
      (aggregated : Bool) (component : String) (e x : ClusterRole R)
      → (matching aggregated component e x).changed ≡ false
      → agrees aggregated component e x ≡ true
  unfolding agrees same_base matching match_aggregated_cluster_role_fields
      match_default_cluster_role_fields match_aggregation match_annotations match_labels match_rules
  unchanged-agrees true component e x h = ground arith
  unchanged-agrees false component e x h = ground arith

  pub agreeing_unchanged :
      (aggregated : Bool) (component : String) (e x : ClusterRole R)
      → agrees aggregated component e x ≡ true
      → (matching aggregated component e x).changed ≡ false
  unfolding agrees same_base matching match_aggregated_cluster_role_fields
      match_default_cluster_role_fields match_aggregation match_annotations match_labels match_rules
  agreeing_unchanged true component e x h = ground arith
  agreeing_unchanged false component e x h = ground arith

  abbrev pub ComparesRules : Type 0
  ComparesRules = (rules : List R) → same_rules rules rules ≡ true

  annotations-HasDistinctKeys : (cr : RoleOwner) → HasDistinctKeys (annotations_for_cluster cr)
  unfolding annotations_for_cluster HasDistinctKeys get
  annotations-HasDistinctKeys cr = copy_into-HasDistinctKeys cr.annotations _ (refl, (refl, tt))

  labels-HasDistinctKeys : (name : String) → HasDistinctKeys (default_labels name)
  unfolding HasDistinctKeys get
  labels-HasDistinctKeys name = (refl, (refl, (refl, tt)))

  pub new_cluster_role-IsRole :
      (component : String) (rules : List R) (cr : RoleOwner)
      → ComparesRules
      → IsRole (new_cluster_role component rules cr)
  unfolding new_cluster_role same_map same_aggregation
  new_cluster_role-IsRole component rules cr h = record {
    aggregation = refl;
    labels = deep_equal_self (default_labels cr.name) (labels-HasDistinctKeys cr.name);
    annotations = deep_equal_self (annotations_for_cluster cr) (annotations-HasDistinctKeys cr);
    rules = h rules;
  }

  put_same :
      (key value : String) (m : Entries)
      → HasDistinctKeys m
      → deep_equal (put key value m) (some (put key value m)) ≡ true
  put_same key value m h = deep_equal_self (put key value m) (put-HasDistinctKeys key value m h)

  rule-HasDistinctKeys :
      (key name : String)
      → (key_managed_by == key) ≡ false
      → HasDistinctKeys ((key, "true") ∷ (key_managed_by, name) ∷ [])
  unfolding HasDistinctKeys get
  rule-HasDistinctKeys key name h = (ap (λ b. if b then some name else none) h, (refl, tt))

  aggregation_rule_same :
      (key : String) (cr : RoleOwner)
      → (key_managed_by == key) ≡ false
      → same_aggregation (aggregation_rule key cr) (aggregation_rule key cr) ≡ true
  unfolding same_aggregation same_selectors
  aggregation_rule_same key cr h = ground (
    arith,
    deep_equal_self ((key, "true") ∷ (key_managed_by, cr.name) ∷ [])
        (rule-HasDistinctKeys key cr.name h),
  )

  pub configured-IsRole :
      (component : String) (rules : List R) (cr : RoleOwner)
      → ComparesRules
      → IsRole
          (configure_aggregated_cluster_role cr component (new_cluster_role component rules cr))
  unfolding new_cluster_role same_map configure_aggregated_cluster_role same_aggregation
  configured-IsRole component rules cr h =
      choose IsRole (component == application_controller) _ _
        (λ e. record {
          aggregation = aggregation_rule_same aggregate_to_controller_label_key cr refl;
          labels = plain.labels;
          annotations = put_same _ _ _ (annotations-HasDistinctKeys cr);
          rules = h [];
        })
        (choose IsRole (component == application_controller_admin) _ _
          (λ e. record {
            aggregation = aggregation_rule_same aggregate_to_admin_label_key cr refl;
            labels = put_same _ _ _ (labels-HasDistinctKeys cr.name);
            annotations = plain.annotations;
            rules = h rules;
          })
          (choose IsRole (component == application_controller_view) _ _
            (λ e. record {
              aggregation = refl;
              labels = put_same _ _ _ (labels-HasDistinctKeys cr.name);
              annotations = plain.annotations;
              rules = h rules;
            })
            plain))
    where
      plain : IsRole (new_cluster_role component rules cr)
      plain = new_cluster_role-IsRole component rules cr h
