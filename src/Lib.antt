-- ===== src/Lib.antt =====
-- Erie Canal Net: the control plane that finds the services of a Kubernetes cluster and of the
-- clusters joined to it, and turns them into routes and weighted endpoints for a proxy.
--
-- Parts and files (paths from the root of the repository):
-- - Service: pkg/ecnet/service/types.go, identity.go, service.go. `MeshService` and the texts that
--   name it; Service.Names has their laws.
-- - K8s.Hostnames: pkg/ecnet/k8s/util.go. The hostnames of a service and `splitHostName`.
-- - K8s.Handlers: pkg/ecnet/k8s/event_handlers.go. What the handlers of informers queue for Messaging.
-- - K8s.Client: pkg/ecnet/k8s/client.go. What the client reads of its informers, the mesh services of
--   a Kubernetes service (Siblings) and the target ports.
-- - Policy: pkg/ecnet/service/policy. The outbound policies and `AddRoute`; Policy.Routes.
-- - Multicluster: pkg/ecnet/service/multicluster. TrafficPolicy is traffic_policy.go;
--   ServiceImport and Endpoints are service_import.go.
-- - Catalog: pkg/ecnet/catalog. Services is service.go and endpoint.go over the providers; Clusters
--   and Outbound are outbound_traffic_policies.go. The catalog reads the providers and the
--   multicluster client, and its outbound policy is what the control plane reads.
-- - Providers: pkg/ecnet/service/providers. The providers of services and endpoints that the catalog
--   reads: Kube over K8s.Client, Fsm over Multicluster. Subsets is the loops over the endpoints that
--   both have.
-- - Configurator: pkg/ecnet/configurator. The configuration with its defaults, and the plugin chains.
-- - Repo: pkg/ecnet/pipy/repo/client. The client of the Pipy repository; Submit and Whole are about
--   `Batch`, Derive about `DeriveCodebase`.
-- - Ctrlplane: pkg/ecnet/bridge/ctrlplane/server. Names is the services that util.go reads back from
--   names; Config is policy.go over the types of types.go; Routes and Balance are the two generators
--   of util.go; Order is the sorting of policy.go and jobs.go, and plugin.go; Publish is the
--   publication of jobs.go through Repo; Job is the whole job, which calls these in turn; Registry
--   is the proxy that the listener runs it for.
-- - Listener: broadcast.go of pkg/ecnet/bridge/ctrlplane/server and of pkg/ecnet/bridge/dataplane/server,
--   which are one loop with two first waits. It runs the jobs of Ctrlplane and Dataplane (Rest).
-- - Workers: pkg/ecnet/workerpool, on which the listeners run their jobs (Jobs).
-- - Health: pkg/ecnet/health/health.go. What the probes of the servers answer.
-- - Cli: cmd/ecnet/cli. Confirm is the prompt of util.go, Uninstall is uninstall_ecnet.go, Namespaces is
--   namespace_add.go, namespace_remove.go, namespace_ignore.go and namespace_list.go.
-- - Dataplane.Dns: jobs.go of pkg/ecnet/bridge/dataplane/server. The synchronisation of the DNS maps
--   with the outbound policy of the catalog (Resolves, and Plane for the map of the kernel) and the DNS
--   service (Records). `dns.PackDomainName` is a parameter.
-- - Messaging: pkg/ecnet/messaging. Dispatcher is the loop of broker.go that batches proxy updates;
--   Events is what broker.go and workqueue.go do with an event of the Kubernetes informers. A
--   published update makes the control plane run the job of Ctrlplane.
-- - Ticker: pkg/ecnet/ticker/ticker.go. The watcher of the configuration and the routines that tick,
--   which queue events for the broker (Alone, Stuck).
--
-- How the code is written here:
-- - A Go function is a function by clauses of the same name in snake_case. A loop is a structural
--   recursion over the slice, with what the loop assigns as an accumulator; the rest of a function
--   that has no name of its own is a helper named for what it does.
-- - A string is the list of its code points, and the ASCII letters have a case. A port that the code
--   converts to uint16 is taken `% 2 ^ 16`; ports of Kubernetes objects and weights are natural
--   numbers. An IP address is its text.
-- - A nil pointer or an error is `none`. A Go map is an association list whose order is the order of
--   one iteration; nil and empty maps and slices are told apart only where the code does.
-- - `mapset.Set` is a parameter: operations with the laws that its documentation states, which sets
--   as lists satisfy. Its `ToSlice` has any order: the IP addresses of each service have a set of
--   their own, and two runs of a job may have other sets, so that what they build may differ.
--   Informer caches, controllers and providers are records of functions.
-- - What a function sends is a list: writes to the DNS maps in order, published events newest first.
--   `net.ParseIP` is a parameter, of which only whether it reads a text is used.
-- - The dispatcher is a relation between what it did and its state. Time is counted in seconds, and a
--   timer is the time at which it fires. The ticker is a step relation in which each routine moves on
--   its own; `time.ParseDuration` is a parameter, and durations are integers.
-- - The Pipy repository is a parameter `respond`: its reply to a request is a function of the requests
--   sent so far, newest first, so it may keep any state. An error of the client is which of its
--   branches made it. `json.Marshal` and the clock are parameters; the hash of the configuration is
--   computed, and version numbers wrap around as uint64 does.
-- - `sort.Sort` is a parameter: it permutes, and it orders if `Less` is a strict weak order; insertion
--   sort does both. The order of float32 is a parameter.
-- - The timer of a listener may be armed and have fired at once, since a reset of Go's timer does not
--   drain its channel. The jobs of the pool are values of any type.
-- - The commands of the command line ask for changes of a cluster, whose replies are functions of the
--   changes so far as those of the repository are. The input of a prompt is the chunks that reads of it
--   return, and the reader's buffer is part of the model.
-- - The package variable `trustDomain` is an argument. Logging and metrics are left out.
--
-- All loops are structural, so no fuel is used. Not modelled are process start-up, HTTP servers,
-- generated clients, Helm charts, eBPF programs and the proxy's scripts, which are I/O or not Go.
pub mod Base
pub mod Service
pub mod K8s
pub mod Policy
pub mod Multicluster
pub mod Catalog
pub mod Ctrlplane
pub mod Cli
pub mod Configurator
pub mod Dataplane
pub mod Health
pub mod Listener
pub mod Messaging
pub mod Providers
pub mod Repo
pub mod Ticker
pub mod Workers
pub mod Tests
