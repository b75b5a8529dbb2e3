-- ===== src/Lib.antt =====
-- The Argo CD operator: a controller that brings a Kubernetes cluster to what a custom resource
-- ArgoCD asks for, and that keeps the resource's status.
--
-- The parts, and how they meet. A change of a watched object is mapped to a request for an ArgoCD
-- (Mappers). The loop Reconcile reads that ArgoCD, counts it for the metrics, and either deletes what
-- belongs to it or reconciles its resources (Reconcile, Sources). The resources begin with the
-- configuration of the single sign-on (Sso) and the status (Status); of the routes, the host name
-- that is shortened to the bounds of DNS is here (Hostname), and of the stateful sets the number of
-- replicas of the application controller (Sharding).
--
-- How the code is modelled. A method that returns `error` and changes the cluster or the resource it
-- was given a pointer to is a step on a state: it returns an outcome (no error, an error, or a panic)
-- and the new state (Effect). An error that the code wraps to add a text is the error itself. The
-- state holds the world, which only the client's operations read and change; the client is a library
-- and a parameter, a record of functions. The global variables that a component writes
-- (ssoConfigLegalStatus, ActiveInstanceMap, the gauges) are fields of its state. A pointer is an
-- `Option`, a Go map is a list with one entry for each key (Common/Maps). Texts are lists of characters
-- where they are compared, and bytes in Hostname, where their length matters.
--
--   Common     lists, texts, maps and Boolean tests that the others share
--   Effect     outcomes and steps
--   Api        api/v1beta1/argocd_types.go: the fields of the resource that the modelled code uses
--   Kube       controllers/argoutil/resource.go and the objects and the client as the status reads them
--   Hostname   controllers/argocd/route.go: shortenHostname (shorten_hostname). Its loop is on fuel,
--              one more than the bytes of the first label; each turn takes a byte away, so that the
--              fuel is enough; Hostname/Spec has the closed form without a loop
--   Status     controllers/argocd/status.go: reconcileStatus (reconcile_status) and the functions it
--              calls, one definition each, named after them. Status/Seen holds the specification, what
--              a round sees and what it makes of a status; Status/Steps, Status/Hosts and Status/Round
--              relate the code to it, Status/Settle follows it over rounds, Status/Workloads has the
--              words for single workloads and Status/Phase the phase
--   Sso        controllers/argocd/sso.go: reconcileSSO (reconcile_sso), deleteSSOConfiguration
--              (delete_sso_configuration). The reconcilers of the objects of Dex and Keycloak are a
--              parameter. Sso/Legality describes the legal configurations, Sso/Outcomes how a call ends
--   Reconcile  controllers/argocd/argocd_controller.go: Reconcile (reconcile), the map of active
--              instances and the gauges of controllers/argocd/metrics.go (track, untrack), and the
--              deletion finalizer of controllers/argocd/util.go (finalize, remove_string). A gauge is
--              the number of its increments and of its decrements. Reconcile/Counting has the steps
--              on the gauges, Reconcile/Loop whole calls, Reconcile/Deletion the finalizer
--   Sources    controllers/argocd/util.go: the source namespaces that an instance manages, and what is
--              cleaned up in those it manages no longer; Sources/Release puts it into the loop
--   Sharding   controllers/argocd/statefulset.go: getApplicationControllerReplicaCount, over int32 as
--              integers with the wrap of a length (Common/Integers)
--   Conversion api/v1alpha1/argocd_conversion.go: ConvertTo and ConvertFrom (Conversion/Hub) and the
--              functions for the parts (Conversion/ToBeta, Conversion/ToAlpha), over all fields of both
--              versions (Conversion/Shared for the types that are the same, Alpha, Beta)
--   Objects    the client on one kind of objects, the laws of an API server that keeps what it accepts
--              (IsStore), what a step ensures of them, and a table that has these laws (Objects/Table)
--   NotificationsConfig
--              controllers/notificationsconfiguration: the config map for the notifications
--              (reconcile_notifications_configmap, expected_configuration), the order in which Go walks
--              a map being a parameter; NotificationsConfig/Copies has the maps, Store what the API server
--              keeps of a config map, Written whole runs
--   Export     controllers/argocdexport: Reconcile (reconcile_argo_cd_export) and what it calls, the
--              pod of a job in Export/Pod. Export/Panics has the secret, Export/Settle the steps,
--              Export/Rounds and Export/Repeat whole runs
--   ClusterRoles
--              controllers/argocd/role.go: reconcileClusterRole (reconcile_cluster_role) in the default,
--              the aggregated and the custom mode, and allowedNamespace of util.go; ClusterRoles/Fields
--              has what a role has and how one is made to match, Matching what is compared, Modes and
--              Convergence what a run leaves; ClusterRoles/Bindings has reconcileClusterRoleBinding of
--              controllers/argocd/rolebinding.go
--   Roles      controllers/argocd/role.go: reconcileRole (reconcile_role), the role of a component in
--              every managed namespace. Roles/Places has the body of its loop, Everywhere the loop
--   ServerAccess
--              controllers/argocd/ingress.go: reconcileArgoServerIngress and
--              reconcileArgoServerGRPCIngress, and controllers/argocd/hpa.go: reconcileServerHPA;
--              ServerAccess/Presence has when the objects are there
--   ClusterSecret
--              controllers/argocd/secret.go: reconcileClusterPermissionsSecret, and of util.go
--              deleteManagedNamespaceFromClusterSecret; Common/Commas has lists that are joined by commas.
--              ClusterSecret/Names has what is added, Dropped what is removed
--   Mappers    controllers/argocd/custommapper.go: the five mappers, from objects to requests
--
-- What is not modelled. The reconcilers of the other kinds of objects (the role bindings of namespaces, the roles of source
-- namespaces, deployments, stateful sets, config maps, the secrets with keys and certificates, services,
-- the other ingresses, routes, Prometheus, Keycloak, Dex, the ApplicationSet and notifications
-- controllers): the loop and the single sign-on take what they call of these as parameters. Logging, the
-- histogram of durations and the event recorder have no effect on what is stated. Generated code, the
-- entry point, and the client, the globs and the label selectors, which are libraries, are parameters or
-- left out.
pub mod Common
pub mod Effect
pub mod Api
pub mod Kube
pub mod Hostname
pub mod Status
pub mod Sso
pub mod Reconcile
pub mod Sources
pub mod Mappers
pub mod Sharding
pub mod Conversion
pub mod Objects
pub mod NotificationsConfig
pub mod Export
pub mod ClusterRoles
pub mod ClusterSecret
pub mod Roles
pub mod ServerAccess
