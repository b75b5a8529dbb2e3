-- ===== src/ServerAccess/Tests.antt =====
-- The ingress and the autoscaler of a server.
use argocd_vee.Common.{◌≡◌, refl, String, true, false, none, some, []}
use argocd_vee.Kube.{missing}
use argocd_vee.Objects.Table.{Table, table_client, table_client-IsStore, empty_table, set}
use argocd_vee.ServerAccess.{
  ServerSettings, ServerIngress, reconcile_argo_server_ingress, reconcile_argo_server_grpc_ingress,
  reconcile_server_hpa,
}
use argocd_vee.ServerAccess.Presence.{
  IsExposed, IsScaled, reconcile_argo_server_ingress-IsExposed, reconcile_server_hpa-IsScaled,
}

abbrev cr : ServerSettings
cr = record {
  name = "argocd";
  namespace = "ns";
  host = "";
  grpc_host = "";
  ingress = record {
    enabled = true;
    annotations = [];
    ingress_class_name = some "nginx";
    path = "";
    tls = [];
  };
  grpc_ingress = record {
    enabled = false;
    annotations = [];
    ingress_class_name = none;
    path = "";
    tls = [];
  };
}

abbrev exposed : Table ServerIngress
exposed = (reconcile_argo_server_ingress table_client cr empty_table).1

grpc_hidden :
    (reconcile_argo_server_grpc_ingress table_client cr exposed).1 "ns" "argocd-grpc" ≡ missing
unfolding reconcile_argo_server_grpc_ingress reconcile_argo_server_ingress table_client set
grpc_hidden = refl

reconcile_argo_server_ingress-IsExposed_example :
    IsExposed true (some "nginx") (exposed "ns" "argocd-server")
unfolding reconcile_argo_server_ingress table_client
reconcile_argo_server_ingress-IsExposed_example =
    reconcile_argo_server_ingress-IsExposed table_client cr empty_table table_client-IsStore refl

reconcile_server_hpa-IsScaled_example : IsScaled {H = String} true (some "2 to 5") (
    (reconcile_server_hpa table_client "ns" "argocd-server" true
        (some "2 to 5")
        "1 to 3"
        empty_table).1
      "ns" "argocd-server")
unfolding reconcile_server_hpa table_client
reconcile_server_hpa-IsScaled_example =
    reconcile_server_hpa-IsScaled table_client "ns" "argocd-server" true (some "2 to 5") "1 to 3"
      empty_table table_client-IsStore refl
