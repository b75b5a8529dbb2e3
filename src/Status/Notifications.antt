-- ===== src/Status/Notifications.antt =====
-- The status of a notifications controller that is disabled.
use argocd_vee.Common.{
  ◌≡◌, ◌≢◌, refl, sym, String, Bool, true, false, not, ◌==◌, nat_eq, string_eq, eq_iff,
  if◌then◌else◌, ap, ◌∙◌, ◌↔◌,
}
use argocd_vee.Kube.{StatusClient, ClusterApis, name_with_suffix}
use argocd_vee.Status.{State, write_status, reconcile_status_notifications}
use argocd_vee.Api.{ArgoCdStatus}
use argocd_vee.Status.Workloads.{deployment_status}
use argocd_vee.Status.Workloads.Classify.{deployment_status-ne-empty}

abbrev with_notifications : ArgoCdStatus → String → ArgoCdStatus
with_notifications st word = record st { notifications_controller = word }

differs_of : {b : Bool} {P : Type 0} → (b ≡ true) ↔ P → ¬ P → b ≡ false
differs_of {b = true} h n = absurd (n (h.0 refl))
differs_of {b = false} h n = refl

-- If notifications are disabled and their status is empty already, then the step still writes
-- the status, unchanged, to the cluster.
pub reconcile_status_notifications_rewrites :
    {W : Type 0} (k : StatusClient W) (apis : ClusterApis) (s : State W)
    → s.cr.spec.notifications_enabled ≡ false
    → s.cr.status.notifications_controller ≡ ""
    → reconcile_status_notifications k apis s ≡ write_status k apis s.cr.status s
unfolding reconcile_status_notifications
reconcile_status_notifications_rewrites k apis s disabled empty =
    rw differs (ap (λ x. write_status k apis (with_notifications s.cr.status x) s) hidden)
  where
    word : String
    word = deployment_status (
        k.get_deployment s.world s.cr.namespace
          (name_with_suffix "notifications-controller" s.cr.name))

    not_empty : word ≢ ""
    not_empty = deployment_status-ne-empty _

    differs : (s.cr.status.notifications_controller == word) ≡ false
    differs = differs_of (eq_iff _ _) (λ e. not_empty (sym e ∙ empty))

    hidden :
        (if not s.cr.spec.notifications_enabled then "" else word)
        ≡ s.cr.status.notifications_controller
    hidden = rw disabled (sym empty)
