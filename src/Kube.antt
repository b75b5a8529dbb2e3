-- ===== src/Kube.antt =====
-- The cluster as the operator sees it: what a read returns, the parts of the objects that the
-- modelled code looks at, and the client, which is code of a library and a parameter here.
use argocd_vee.Common.{
  ℕ, ◌≡◌, String, Bool, true, false, Option, none, List, nat_eq, string_eq, ◌<>◌,
}
use argocd_vee.Effect.{Err}
use argocd_vee.Api.{ArgoCd}

-- `client.Get` into an object: the object, the error NotFound, or another error, which leaves the
-- object as the caller built it.
pub data Fetch (A : Type 0) : Type 0 where
  found : A → Fetch A
  missing : Fetch A
  failed : Err → Fetch A

-- controllers/argoutil/resource.go: every error but NotFound counts as found.
unfoldable pub is_object_found : {A : Type 0} → Fetch A → Bool
is_object_found (found a) = true
is_object_found missing = false
is_object_found (failed e) = true

-- The object after `FetchObject` into `initial`.
unfoldable pub object_after : {A : Type 0} → A → Fetch A → A
object_after initial (found a) = a
object_after initial missing = initial
object_after initial (failed e) = initial

-- controllers/argoutil/resource.go
unfoldable pub name_with_suffix : String → String → String
name_with_suffix suffix name = name <> "-" <> suffix

pub record Condition : Type 0 where
  pub type : String
  pub status : String

-- A Deployment or a StatefulSet: `Spec.Replicas`, a pointer, and the status. Replica counts are
-- int32; the operator only compares them for equality, and the API server keeps them from 0 up.
pub record Workload : Type 0 where
  pub replicas : Option ℕ
  pub ready_replicas : ℕ
  pub conditions : List Condition

-- A DeploymentConfig of OpenShift, whose `Spec.Replicas` is no pointer.
pub record DeploymentConfig : Type 0 where
  pub replicas : ℕ
  pub ready_replicas : ℕ
  pub conditions : List Condition

pub record RouteIngress : Type 0 where
  pub host : String
  pub conditions : List Condition

-- `Status.Ingress`: a nil slice is `none`.
pub record Route : Type 0 where
  pub ingress : Option (List RouteIngress)

pub record LoadBalancerIngress : Type 0 where
  pub hostname : String
  pub ip : String

-- `Status.LoadBalancer.Ingress`
pub record Ingress : Type 0 where
  pub load_balancer : List LoadBalancerIngress

pub data Listing (A : Type 0) : Type 0 where
  items : List A → Listing A
  list_failed : Err → Listing A

-- What the status code calls of the client. Reads take a namespace and a name; the routes are
-- listed by namespace and the label app.kubernetes.io/name.
pub record StatusClient (W : Type 0) : Type 0 where
  pub get_deployment : W → String → String → Fetch Workload
  pub get_stateful_set : W → String → String → Fetch Workload
  pub get_deployment_config : W → String → String → Fetch DeploymentConfig
  pub get_ingress : W → String → String → Fetch Ingress
  pub list_routes : W → String → String → Listing Route
  pub update_status : W → ArgoCd → W × Option Err

-- Which APIs `InspectCluster` has found when the operator started.
pub record ClusterApis : Type 0 where
  pub route_api_found : Bool
  pub template_api_found : Bool
  pub deployment_config_api_found : Bool

-- Two worlds in which every read of the status code gives the same.
pub record SameReads {W : Type 0} (k : StatusClient W) (v w : W) : Type 0 where
  pub deployments : (ns n : String) → k.get_deployment w ns n ≡ k.get_deployment v ns n
  pub stateful_sets : (ns n : String) → k.get_stateful_set w ns n ≡ k.get_stateful_set v ns n
  pub deployment_configs :
      (ns n : String) → k.get_deployment_config w ns n ≡ k.get_deployment_config v ns n
  pub ingresses : (ns n : String) → k.get_ingress w ns n ≡ k.get_ingress v ns n
  pub routes : (ns n : String) → k.list_routes w ns n ≡ k.list_routes v ns n

-- A write of the status subresource of an ArgoCD changes no workload, route or ingress.
pub record IsStatusOnly {W : Type 0} (k : StatusClient W) : Type 0 where
  pub same_reads : (w : W) (cr : ArgoCd) → SameReads k w (k.update_status w cr).0

-- No status write is refused.
abbrev pub AcceptsStatus : {W : Type 0} → StatusClient W → Type 0
AcceptsStatus {W} k = (w : W) (cr : ArgoCd) → (k.update_status w cr).1 ≡ none
