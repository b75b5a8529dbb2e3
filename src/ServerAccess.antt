-- ===== src/ServerAccess.antt =====
-- controllers/argocd/ingress.go and hpa.go: the ingresses of the server and of its GRPC interface, and
-- its autoscaler. `H` is the specification of an autoscaler, a type of a library.
pub mod Presence
mod Tests
use argocd_vee.Common.{
  String, Bool, true, false, not, Option, none, some, List, [], ◌∷◌, ◌||◌, ◌==◌, string_eq, ◌<>◌,
  if◌then◌else◌, is_set, is_empty, Entries,
}
use argocd_vee.Effect.{Step, done, ◌>>◌}
use argocd_vee.Kube.{Fetch, found, missing, failed, is_object_found, object_after}
use argocd_vee.Objects.{ObjectClient, call, owned}

pub record IngressTls : Type 0 where
  pub hosts : List String
  pub secret_name : String

-- ArgoCDIngressSpec
pub record IngressSettings : Type 0 where
  pub enabled : Bool
  pub annotations : Entries
  pub ingress_class_name : Option String
  pub path : String
  pub tls : List IngressTls

-- An ArgoCD as this code reads it.
pub record ServerSettings : Type 0 where
  pub name : String
  pub namespace : String
  pub host : String
  pub grpc_host : String
  pub ingress : IngressSettings
  pub grpc_ingress : IngressSettings

-- An ingress with one rule: its host, path and service, whose port is named.
pub record ServerIngress : Type 0 where
  pub annotations : Entries
  pub ingress_class_name : Option String
  pub host : String
  pub path : String
  pub service : String
  pub port : String
  pub tls : List IngressTls

abbrev pub key_ingress_ssl_redirect : String
key_ingress_ssl_redirect = "nginx.ingress.kubernetes.io/force-ssl-redirect"

abbrev pub key_ingress_backend_protocol : String
key_ingress_backend_protocol = "nginx.ingress.kubernetes.io/backend-protocol"

abbrev pub argo_cd_secret_name : String
argo_cd_secret_name = "argocd-secret"

unfoldable pub get_path_or_default : String → String
get_path_or_default path = if path == "" then "/" else path

unfoldable pub get_argo_server_host : ServerSettings → String
get_argo_server_host cr = if cr.host == "" then cr.name else cr.host

unfoldable pub get_argo_server_grpc_host : ServerSettings → String
get_argo_server_grpc_host cr = if cr.grpc_host == "" then cr.name <> "-grpc" else cr.grpc_host

-- The object before it is read and filled.
abbrev pub empty_ingress : ServerIngress
empty_ingress = record {
  annotations = [];
  ingress_class_name = none;
  host = "";
  path = "";
  service = "";
  port = "";
  tls = [];
}

-- The new ingress, with the annotations and the TLS options that the resource may override.
unfoldable pub filled_ingress : Entries → String → String → String → IngressSettings → ServerIngress
unfolding get_path_or_default
filled_ingress annotations host service port settings = record {
  annotations = if is_empty settings.annotations then annotations else settings.annotations;
  ingress_class_name = settings.ingress_class_name;
  host = host;
  path = get_path_or_default settings.path;
  service = service;
  port = port;
  tls =
      if is_empty settings.tls
      then record { hosts = host ∷ []; secret_name = argo_cd_secret_name } ∷ []
      else settings.tls;
}

-- `p != q` on two pointers to texts that were allocated apart: equal only if both are nil.
unfoldable pub pointers_differ : Option String → Option String → Bool
pointers_differ p q = is_set p || is_set q

module _ {W : Type 0} (k : ObjectClient W ServerIngress) (cr : ServerSettings) where
  unfoldable pub create_ingress : String → ServerIngress → Step W
  unfolding call owned
  create_ingress name i = owned k i >> call (k.create cr.namespace name i)

  unfoldable pub on_server_ingress : String → Fetch ServerIngress → Step W
  unfolding call is_object_found object_after pointers_differ filled_ingress get_argo_server_host
      create_ingress
  on_server_ingress name f =
      let i : ServerIngress = object_after empty_ingress f in
      if is_object_found f
      then (if not cr.ingress.enabled
          then call (k.delete cr.namespace name)
          else if pointers_differ i.ingress_class_name cr.ingress.ingress_class_name
          then call (
              k.update cr.namespace name
                (record i { ingress_class_name = cr.ingress.ingress_class_name }))
          else done)
      else if not cr.ingress.enabled
      then done
      else create_ingress name (
          filled_ingress
            ((key_ingress_ssl_redirect, "true") ∷ (key_ingress_backend_protocol, "HTTP") ∷ [])
            (get_argo_server_host cr) (cr.name <> "-server") "http" cr.ingress)

  unfoldable pub reconcile_argo_server_ingress : Step W
  unfolding on_server_ingress
  reconcile_argo_server_ingress w =
      let name = cr.name <> "-server" in on_server_ingress name (k.get w cr.namespace name) w

  unfoldable pub on_grpc_ingress : String → Fetch ServerIngress → Step W
  unfolding call is_object_found filled_ingress get_argo_server_grpc_host create_ingress
  on_grpc_ingress name f =
      if is_object_found f
      then (if not cr.grpc_ingress.enabled then call (k.delete cr.namespace name) else done)
      else if not cr.grpc_ingress.enabled
      then done
      else create_ingress name (
          filled_ingress ((key_ingress_backend_protocol, "GRPC") ∷ [])
            (get_argo_server_grpc_host cr) (cr.name <> "-server") "https" cr.grpc_ingress)

  unfoldable pub reconcile_argo_server_grpc_ingress : Step W
  unfolding on_grpc_ingress
  reconcile_argo_server_grpc_ingress w =
      let name = cr.name <> "-grpc" in on_grpc_ingress name (k.get w cr.namespace name) w

-- The autoscaler: whether it is enabled, the specification that the resource gives, and the default.
module _ {W H : Type 0} (k : ObjectClient W H) (namespace name : String) (enabled : Bool)
    (wanted : Option H) (default : H) where
  -- `reflect.DeepEqual` of a structure and a pointer to one is false, so that any existing object is
  -- written.
  abbrev pub match_hpa : Option H → Step W
  match_hpa none = done
  match_hpa (some h) = call (k.update namespace name h)

  abbrev pub new_hpa : Option H → H
  new_hpa none = default
  new_hpa (some h) = h

  unfoldable pub on_hpa : Fetch H → Step W
  unfolding call is_object_found
  on_hpa f =
      if is_object_found f
      then (if not enabled then call (k.delete namespace name) else match_hpa wanted)
      else if not enabled
      then done
      else call (k.create namespace name (new_hpa wanted))

  unfoldable pub reconcile_server_hpa : Step W
  unfolding on_hpa
  reconcile_server_hpa w = on_hpa (k.get w namespace name) w
