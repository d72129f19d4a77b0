-- ===== src/Lib.antt =====
-- Verification of scale-cluster-agent: a program that registers simulated clusters with Rancher
-- and runs them on KWOK.
--
-- The program has an agent (main.go, types.go), which keeps a map of clusters and serves an HTTP
-- API, and a manager of KWOK clusters (kwok_integration.go), which the agent calls to create,
-- find and delete the simulated clusters. In multi-tenant mode the agent runs one main KWOK
-- cluster, and an API proxy with a local port of its own for each logical cluster. The map of
-- clusters and the ports of the proxies go into a state file after each change, and are read from
-- it at the start; the manager reads its clusters back from the names of their directories.
--
-- The files:
--
--   Prelude: Go's comparisons, maps (association lists), pairs of value and error, and lists
--     measured by native numbers.
--   Types: the records of types.go and the types of kwok_integration.go (Config, ClusterInfo and
--     its parts, Node, Pod, KwokCluster).
--   Strings: the functions of Go's strings and strconv that the program calls, on the bytes of a
--     string: has_prefix, last_index, split, join, atoi, itoa, replace_all, to_lower, and in
--     Strings/Trim trim_space, index, to_upper.
--   Kwok/Names: the directory names of the clusters, as CreateCluster makes them and as
--     RehydrateFromDisk, CleanupOldClusters, RestoreClusterRecord and findNextAvailablePortLocked
--     take them apart.
--   Kwok/Populate: populateClusterData with what a cluster.yaml holds.
--   Kwok/Manager: KWOKClusterManager with CreateCluster, DeleteCluster, GetCluster, ListClusters,
--     GetClusterPort, Cleanup, CleanupOldClusters and findNextAvailablePortLocked. A method takes
--     the answers of the outside world, and returns the manager, the kwokctl commands in order,
--     and its result.
--   Kwok/Disk: RehydrateFromDisk and RestoreClusterRecord, which rebuild the map from the disk.
--   Kwok/Tuning: modifyKWOKConfigForLowMemory and tuneKWOKMetadata on the decoded files, with the
--     flags of the API server in Kwok/Tuning/Flags; Kwok/Anonymous has
--     modifyKWOKConfigForAnonymousAuth; Kwok/Processes has killSchedulerAndController and
--     applyAnonymousServiceAccount, and Kwok/Manifests the text of the manifests of namespaces,
--     nodes and pods.
--   Proxy: the reservation of ports, startProxyForCluster, the end of its goroutine, and
--     stopProxyForCluster; Proxy/Steps has the relation of runs.
--   Persist: SaveState and LoadState of types.go as sequences of operations on files.
--   Agent: the map of clusters of main.go with its store of objects, healthHandler,
--     createClusterHandler, listClustersHandler, deleteClusterHandler, createClusterFromTemplate
--     and deleteClusterFromRancher; Agent/Watcher and Agent/Reconciled are about
--     reconcileRancherDeletions, Agent/Stale about a list that it fetched too early, and
--     Agent/Runs has the relation of runs.
--   Agent/Setup: runCompleteClusterSetup as the sequence of its calls, and the loops of main that
--     take restored clusters up again.
--   Population: populateTenantFromTemplate and, in Population/Main, applyTemplateToMainCluster,
--     as the sequences of their kubectl calls; Population/Ports are the ports of a service, and
--     Population/Patch has patchNodeStatus and createTenantKubectlContext. Agent/Template is what
--     it does to the agent's template.
--   Rancher: createClusterInRancher, findClusterIDByName and getClusterToken, on the responses of
--     Rancher.
--   Connect: connectClusterToRancher, with its throttle, the marks of connections and the loop of
--     its goroutine; Connect/RealAgent is connectClusterToRancherWithRealAgentLogic.
--   Import: transformImportYAML on decoded YAML documents; Import/Fetch has getImportYAML and
--     applyImportYAMLToKWOKCluster around it, and Import/Fetch/Isolated what two tenants have in
--     the main cluster.
--   Agent/Records, Agent/Refines: a specification of the map as one record for each name, and how
--     these change.
--   Configuration: loadConfig; Configuration/Sources has the environment, the values of YAML, and
--     the lines "key: value".
--   Readiness: waitForServiceAccountReady, testCriticalAPIEndpoints and waitForClusterReady.
--     Kwok/Main: EnsureMainCluster and ApplyPostReadyTuning.
--   Startup: main from the KWOK manager to its loops, with Startup/Default for
--     createDefaultClusterTemplate and Startup/Ticks for the periodic cleanup.
--   Lifecycle: getClusterParams, startClusterAgentTunnel with its goroutine and its dialer,
--     callConfigClientForCluster, and waitForClusterActiveAndConnect as what it starts.
--     Agent/Reconnect: which clusters a round of startWebSocketConnection connects.
--   Credentials: extractServiceAccountTokenFromKWOKCluster, on the answers of kubectl, and in
--     Credentials/Api getTokenFromAPI and extractCACertFromKubeconfig.
--   Annotator: annotateNodePodUsage of pod_usage_annotator.go.
--   Tenant: shortSuffix, tenantNamespace and tenantSAName.
--   Restart: how RehydrateFromDisk and a setup that is begun again meet.
--   MockApi: the store of startMockHTTPSAPIServer and the functions that create its objects, with
--     createSecret and the first objects in MockApi/Secrets, and in MockApi/Handlers the handlers
--     with their replies and the events of a watch.
--   Tests: runs on concrete inputs.
--
-- Each operation is a function from a state and the answers of the outside world (which commands
-- succeed, which ports are free, what a file holds) to a state and a result. A critical section
-- under a mutex is one step. CreateCluster, createClusterHandler and deleteClusterHandler let
-- other code run during their calls: create_cluster_between, create_between and delete_between
-- take the state before and after those calls, and the functions of the plain names are the case
-- in which nothing else happens meanwhile. main is followed from its start with no request served
-- yet, though its HTTP server is already running when the state file is read.
--
-- Bounds and fuel: findNextAvailablePortLocked makes 1000 rounds, as basePort+10000 is left in
-- steps of 10; nextReservablePort makes 2000 rounds and findFreePort as many as are given, each
-- written as recursion on the rounds that are left. Loops that wait or try again, such as those
-- of waitForServiceAccountReady and of the goroutines behind a connection, take what their rounds
-- meet as a list; callConfigClientForCluster makes the 6 attempts of the code. The digits of a
-- number n are found within n + 1 divisions by 10, since each makes a positive number smaller.
-- atoi refuses what is outside the 64-bit range of int, as strconv.Atoi does.
--
-- Not modelled: what kubectl, kwokctl, net/http, JSON, YAML and remotedialer do, which are
-- answers or arguments; logging; signals and the shutdown of main; how certificates are made; the
-- one command of createKWOKCluster and of createAnonymousRBAC; patchClusterActive, which nothing
-- calls; the ping server, and the mux and the listener of the mock API server; the copy of
-- remotedialer; the scripts. A failing command has no effect but its error. Numbers of ports are
-- natural numbers where the code treats a negative one as 0.
pub mod Prelude
pub mod Types
pub mod Strings
pub mod Kwok
pub mod Proxy
pub mod Persist
pub mod Agent
pub mod Restart
pub mod Tenant
pub mod Rancher
pub mod Connect
pub mod Annotator
pub mod Population
pub mod Lifecycle
pub mod Import
pub mod Configuration
pub mod Readiness
pub mod Startup
pub mod Credentials
pub mod MockApi
pub mod Tests
