-- ===== src/Lib.antt =====
-- Ohno, a CNI plugin that gives the pods of a Kubernetes cluster addresses and routes: a model of the
-- state that it keeps in ETCD and in memory, and of the code that works on it.
--
-- The program, as far as it is modelled. The plugin is called to add a pod to the network and to
-- delete it. It asks the IPAM for the subnet of its node and for an address of that subnet, it sets
-- addresses and routes by interface objects, which ask the kernel by netlink commands, and it writes
-- to a storage what it did, so that a later call can undo it. The IPAM and the storage keep lists of
-- texts under keys of ETCD, through a client that runs `etcdctl` in a shell. The main function reads a
-- configuration as JSON and a command from the environment. A daemon reads its options and the same
-- configuration; in one mode it sets up interfaces, in the others a thread of it asks the API server
-- for the nodes of the cluster again and again, and sets the routes to the pods of the other nodes.
--
-- Which file models what:
-- - Common: lists, texts as lists of bytes, decimal numbers, and code that keeps state and may stop
--   (Common/Exec: an action returns its outcome and the state it left, and `Returns` says that it
--   returned a value in a state with a property).
-- - Helper: src/helper/string.cc (split); Helper/Hash: src/helper/hash.cc (shortHash,
--   getShortHash) and the name of a veth in src/cni/cni.cc.
-- - Etcd/Client: src/etcd/etcd_client_if.h, as a record of operations, and the contract by which the
--   IPAM and the storage use it. Etcd/Shell: src/etcd/etcd_client_shell.cc (test, put, append, get,
--   del, list); Etcd/Shell/Maps: its get of a map and dump; Etcd/Shell/Life: its constructor and
--   destructor, and src/etcd/etcd_data.hpp. Etcd/Shell/Contract derives the contract from what
--   `etcdctl` documents. Etcd/Env: src/util/env_std.cc.
-- - Net/Boost: the functions of Boost.Asio as a parameter with named laws. Net/Cidr: the regular
--   expressions of src/net/macro.h. Net/Subnet: src/net/subnet.cc. Net/Addr: src/net/addr.cc.
-- - Net/Netlink: src/net/netlink/netlink_if.h as a parameter, and route, neigh and fdb objects.
--   Net/Nic and Net/Nic/Entries: src/net/nic.cc, an object and the kernel as one state.
-- - Ipam: src/ipam/ipam.cc. One function for each method; the loop of allocateIp is allocate_loop.
-- - Registry: src/ipam/cluster.cc, src/ipam/node.cc, src/ipam/netns.cc, maps as association lists.
-- - Storage: src/cni/storage.cc. One function for each method and each key.
-- - Net/Device: src/net/bridge.cc, src/net/veth.cc, src/net/vxlan.cc, src/net/vrf.cc and
--   src/net/underlay.hpp, a record of the base object and its class. Net/Mac: src/net/mac.cc.
-- - Net/Commands and Net/Commands/Entries: src/net/netlink/netlink_ip_cmd.cc, an instance of the
--   interface of Net/Netlink over a shell; Net/Commands/Entries/Obliging proves of it what is
--   assumed of such an interface, for arguments that are not empty, as its assertions require.
-- - Cni: the members of the plugin, what ETCD holds and the system, as one state. Cni/Restore:
--   parseConfig and the restoration of the cluster from the storage (getKubernetesCluster). Cni/Nodes:
--   getKubernetesNode with the bridge, the VXLAN interface and the root namespace, getKubernetesPod,
--   delKubernetesPod. Cni/Interfaces: getKubernetesNic, configPodNetwork, nicPluginBridge,
--   delKubernetesNic, and getUniqueId of src/helper/hash.tpp. Cni/Commands: add, del and version. All
--   others are of src/cni/cni.cc.
-- - Backend/HostGw: src/backend/host_gw.cc. Backend/Vxlan: src/backend/vxlan.cc. Backend/Center:
--   getNodeInfo of src/backend/center.cc; Backend/Center/Nodes: getNodes and its callers;
--   Backend/Center/Files: readFile, getServerUrl, getEtcdClusters and getApiServer;
--   Backend/Center/Health: the constructor, test, getToken, getCa and getSslDir.
-- - Backend/Evpn: src/backend/evpn.cc, and getEvpn of src/backend/strategy_client.cc.
-- - Backend/Thread: src/backend/backend.cc, a thread as a relation of the steps that it and the main
--   thread take. Backend/Strategy: the rest of src/backend/strategy_client.cc with
--   src/backend/scheduler.cc, a backend as a value and a started backend as another.
-- - Json: the library nlohmann::json as a record with named laws. Json/Plugin: the conversions of
--   src/cni/cni_config.cc, src/cni/cni_env.cc, src/cni/cni_error.cc and src/cni/cni_result.cc;
--   Json/Plugin/Given: parseConfig of a JSON value in src/cni/cni.cc. Json/Kube:
--   src/kube/kube_apiv1_nodes.cc.
-- - Log: the global state of src/log/logger.cc, and the names of enumerators of
--   src/common/enum_name.hpp.
-- - Program: src/ohno.cc, one function for each of its functions; main is split where it branches.
--   Daemon: src/ohnod/ohnod.cc, main up to its pause.
-- - Util/Command: src/util/shell_sync.cc. Util/Request: src/net/http_client/http_client.cc.
-- - Tests: concrete instances of the parameters, and the theorems at concrete inputs.
--
-- Conventions. A debug build is modelled: a failed OHNO_ASSERT ends the call with the fault
-- `assertion`. Pointers that the code asserts not to be null are objects. A method that takes an
-- empty `std::string &` returns it as the second part of its result. Logging is left out but in Log
-- and in the two programs, where a message is a use of the global logger, and the JSON text of a value
-- in it is dumped only if the message is made. A dump, and the question whether a log path is a
-- directory, may throw. Numbers of
-- 32 bits keep their wrap-around written out. The client's calls are one step each: two plugins that
-- change the same list at the same time are not modelled.
--
-- Fuel and bounds. The loop of split takes the length of the text as fuel, and each round takes a
-- character, so it ends with no text left. allocate_loop counts the rounds of the `for` loop. Ten
-- digits hold every number of 32 bits. The names in keys and the values in lists are words of
-- letters, digits and the characters - . / : _ since the client puts them on a command line unquoted.
--
-- The objects of the cluster are shared by pointers in the program: here they stand once in the
-- cluster of the plugin, and an operation on a pod or an interface goes through its names. Where the
-- program fills an object that is not in the cluster yet, the model passes the object on.
--
-- A thread and the main thread take their steps in any order, and the state that the thread works on
-- is its own; a callback is one step. The stop of a backend asks, and then waits by steps of the
-- relation; that there are at most four of them is counted, not a bound of the model.
--
-- Not modelled: the parser of JSON, libcurl, the sockets, the processes, the C library and the
-- files, which are parameters; the dump of an error in a `catch` clause of main and of del, which
-- ends the process where the text of the error is not UTF-8; the setters of the backends, where a
-- pointer that the program sets is an object; the texts of exceptions; what spdlog writes, its
-- failure to open a file, and the loggers of the modules; the texts on the standard error and the
-- usage of the daemon; the length of a sleep.
pub mod Common
pub mod Helper
pub mod Etcd
pub mod Ipam
pub mod Net
pub mod Registry
pub mod Backend
pub mod Cni
pub mod Tests
pub mod Storage
pub mod Json
pub mod Log
pub mod Program
pub mod Util
pub mod Daemon
