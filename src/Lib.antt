-- ===== src/Lib.antt =====
-- A model of the PocketID operator: a Kubernetes operator that runs PocketID, an OIDC provider, and
-- keeps its users, user groups and OIDC clients as custom resources say. The model follows the Go
-- code function by function, and the theorems state what the reconcilers do to the cluster and to
-- PocketID.
--
-- The program. Each reconciler in internal/controller reads a resource, decides, writes to the
-- cluster through the Kubernetes API and sends requests through internal/pocketid. Reconcilers share
-- nothing in memory; they meet only in the cluster and in PocketID.
--
-- The files.
-- Base has equality, text, dictionaries, lists and sorting as Go has them. Error has Go's errors.
-- Api is api/v1alpha1/*_types.go (Instance, User, UserGroup, OidcClient, with the shared references
--   in Meta), and the parts that the operator uses of objects that are not its own (Meta, Core,
--   Workload).
-- PocketId is internal/pocketid. Types is types.go, Request what client.go sends and receives, Client
--   doRequest and the methods of user.go, group.go and oidc.go.
-- World is the outside. An action takes the history of events so far and gives a value and a longer
--   history; an environment answers each read, write and request by any function of the history, so
--   a theorem for every environment holds whatever the servers answer and whatever others do in
--   between. World.Keeps has the rules for invariants of histories, World.Ends those for what an
--   action leaves at its end, World.Effects the events that others can see, World.Costs the rules
--   for how many requests and writes an action makes.
-- Controller is internal/controller. Outcome is the result of Reconcile, Status status.go,
--   References reference_validation.go, Access helpers.go and the opening that three reconcilers
--   share, User pocketiduser_controller.go and onboarding.go, UserGroup
--   pocketidusergroup_controller.go, OidcClient pocketidoidcclient_controller.go and
--   securitypolicy.go, Instance pocketidinstance_controller.go and instance_workload.go, HttpRoute
--   httproute_controller.go. A long function is cut where it branches, and its parts are composed in
--   its order. Finalizers, Deletion, Permission, Reports, Settled and Cost follow one property through
--   several reconcilers, and Footprint has what keeps any invariant through a run, which Finalizers and
--   Operator apply; the other theorems, Progress among them, stand below the module that they are about.
-- Operator is the process. Start is cmd/main.go, Setup the SetupWithManager methods, Role the
--   kubebuilder markers above the reconcilers and the role generated from them, and Runs the runs of
--   the five controllers, one after another, for any keys and in any order. Guarded is about the
--   reconcilers of routes and of OIDC clients together, and the other modules about all controllers.
-- Tests has a small cluster, and the theorems at it.
--
-- State. Where Go assigns to a field of the resource that it holds, the model passes the changed
-- resource on; after an update that the server granted it goes on with what the server stored, as
-- the client library does. The queue of controller-runtime is not modelled: a theorem is about one
-- run from any history, or, with Operator.Runs, about any sequence of whole runs. Since an environment
-- may answer each read by anything, what other runs do in the middle of one is covered as what others do.
--
-- Parameters. The functions of apimachinery and controller-runtime on finalizers, owners, conditions,
-- label selectors and quantities are fields of World.Machinery, and theorems name what they need of
-- them. The order in which a map is ranged over is chosen by the environment, and what each call of
-- the manager answers by the caller of Operator.Start.main.
--
-- Bounds. All recursion is on lists, so there is no fuel. Strings are lists of characters, and their
-- byte order is that of the code points. Replica counts, ports and the like are integers without a
-- bound: the code compares and prints them, but does no arithmetic on them.
--
-- Not modelled: the parsing of flags, the logger and the scheme in cmd/main.go; the generated deep
-- copies; log lines; JSON texts and HTTP transport; a panic of the random source; config and test.

pub mod Base
pub mod Error
pub mod Api
pub mod PocketId
pub mod World
pub mod Controller
pub mod Operator
pub mod Tests
