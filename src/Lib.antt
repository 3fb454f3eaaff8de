-- ===== src/Lib.antt =====
-- The verification library of clusteradm, the command line tool of open-cluster-management: the
-- decisions that its commands take, over the calls that they make to a Kubernetes API server.
--
-- How a command runs (Effect). A command is a function of the trace, the lines and the calls so far,
-- to its result and its own events, the last one first. A server answers a call by the trace before
-- it, so nothing is assumed of what it keeps or of who else changes it. `Emits P m` says that all
-- events of `m` satisfy P, whatever was before. Go's `(value, error)` is a Result; where the code
-- goes on after an error, the result is made a value by `attempt`.
--
-- Interfaces. Errors is the error library: fmt.Errorf, errors.IsNotFound, errors.IsAlreadyExists and
-- utilerrors.NewAggregate, with what is documented of them as laws (IsLawful) and a concrete
-- instance (status_errors). Poll is wait.PollImmediate: a run of a condition that adds no events of
-- its own. The server, the clock and os.Args[0] are arguments.
--
-- Parts.
--   Accept, with the code of pkg/cmd/accept/exec.go: Accept.antt has the data, `complete` and the
--     tests on a request, Accept/Approve.antt `approveCSR`, Accept/Run.antt `accept`,
--     `updateManagedCluster` and `runWithClient`. Accept/Requesters.antt describes eligible requests.
--   Hub: the calls of the commands on cluster sets, and pkg/helpers/check/check.go.
--   Clusterset: pkg/cmd/clusterset/{bind,unbind,set}/exec.go and pkg/cmd/{create,delete}/clusterset/exec.go.
--     The goroutine that watches a deletion is one step, and a Boolean says whether the scheduler runs
--     it before or after the deletion.
--   Watch: `WatchUntil` of pkg/helpers/client.go, over the events until the channel is closed.
--   Printer/Trie: pkg/helpers/printer/trie.go. A node's map is a list of named children; its loops
--     over a key take fuel, and length + 2 is enough for the default segmenter, since each of its
--     segments but the last test takes at least one byte.
--   Version: `GetVersionBundle` of pkg/helpers/version/version.go.
--   Token: the bootstrap tokens of pkg/helpers/client.go in Token.antt and Token/Lookup.antt,
--     pkg/cmd/get/token/exec.go in Token/Get.antt and pkg/cmd/delete/token/exec.go in
--     Token/Delete.antt. The applier is a call with its dry-run flag and its files.
--   Removal: what pkg/cmd/clean/exec.go and pkg/cmd/unjoin/exec.go share is in Removal.antt, their runs
--     in Removal/Clean.antt and Removal/Unjoin.antt. Retry is retry.OnError, with which they wait.
--   Addon: pkg/cmd/addon/disable/exec.go in Addon/Disable.antt, pkg/cmd/addon/enable/exec.go in
--     Addon/Enable.antt. The set of k8s.io/apimachinery is a parameter (IsSorter).
--   Work: pkg/cmd/create/work/exec.go in Work/Create.antt, pkg/cmd/delete/work/exec.go in
--     Work/Delete.antt, where a Schedule stands for the choices of the scheduler between the
--     goroutines of the watch and of the timeout.
--   Preflight: pkg/helpers/preflight/interface.go in Preflight.antt, pkg/cmd/join/preflight/checks.go in
--     Preflight/HubKubeconfig.antt.
--   Install: pkg/cmd/init/exec.go (run) in Install/Init.antt, pkg/cmd/join/exec.go (run) in
--     Install/Join.antt, pkg/helpers/wait/wait.go and WaitCRDToBeReady of pkg/helpers/client.go in
--     Install/Waits.antt. The calls to the applier, the API server and the writers are in Install.antt.
--   Kubeconfig.antt: the kubeconfig that join builds and checks. Bootstrap: complete and validate of
--     pkg/cmd/join/exec.go in Bootstrap/Complete.antt, GetAPIServer and GetCACert of pkg/helpers/client.go in
--     Bootstrap/ClusterInfo.antt. Its parameters are the reading and writing of YAML.
--   Preflight/ClusterInfo: pkg/cmd/init/preflight/checks.go and utils.go, over the kubeconfig files and the
--     ConfigMaps; Install/Validate.antt has complete and validate of pkg/cmd/init/exec.go.
--   HubAddon: pkg/cmd/install/hubaddon/exec.go. Upgrade: pkg/cmd/upgrade/clustermanager/exec.go in
--     Upgrade/ClusterManager.antt, pkg/cmd/upgrade/klusterlet/exec.go in Upgrade/Klusterlet.antt, with the
--     calls and the waits of Install.
--   Printer/TreePrinter, Printer/PrinterOption: pkg/helpers/printer/treeprinter.go and option.go. A map is
--     the list of its entries in the order in which range visits them. The loop of Put has enough fuel for
--     each key, so a Put that would run out of it, where the model keeps the trie, does not occur.
--   Get: pkg/cmd/get/clusterset, cluster, work and placement (exec.go of each). Names and keys are byte
--     strings. A command returns an error, panics, or indexes out of a slice. The objects of table rows,
--     which are not printed, are left out.
--   ProxyHealth: pkg/cmd/proxy/health (cmd.go, options.go, exec.go). The transport, the tunnel and the secrets
--     are calls. The answer to a probe carries the time that it took; log lines are left out.
--   Get/Addon: pkg/cmd/get/addon/exec.go and PrintWorkDetail of pkg/helpers/printer/tree.go. Info:
--     pkg/helpers/printer/prefixwriter.go and the rest of tree.go (Info/Components.antt, Info/Deploys.antt),
--     pkg/cmd/get/hubinfo/exec.go (Info/HubInfo.antt), pkg/cmd/get/klusterletinfo/exec.go
--     (Info/KlusterletInfo.antt). Counts of replicas are not negative.
--   Sampleapp: pkg/cmd/create/sampleapp. A run-time panic is one of the errors of the model.
-- Not modelled: the making of clients from a configuration, cobra's commands and flags, klog's lines,
-- spinners, and the network servers of the proxy commands, which only call other libraries.
pub mod Base
pub mod Effect
pub mod Errors
pub mod Poll
pub mod Retry
pub mod Accept
pub mod Watch
pub mod Hub
pub mod Clusterset
pub mod Addon
pub mod Work
pub mod Preflight
pub mod Install
pub mod Kubeconfig
pub mod Bootstrap
pub mod Upgrade
pub mod Get
pub mod HubAddon
pub mod Info
pub mod ProxyHealth
pub mod Printer
pub mod Version
pub mod Sampleapp
pub mod Token
pub mod Removal
