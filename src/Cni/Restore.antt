-- ===== src/Cni/Restore.antt =====
-- src/cni/cni.cc: the configuration, and the objects that are made again from what the storage keeps.
pub mod Config
pub mod Unknown
use ohno.Common.{
  Bool, true, false, not, Option, none, some, List, [], ◌∷◌, ◌&&◌, ◌||◌, if◌then◌else◌,
}
use ohno.Common.Bytes.{Bytes, codes, empty, eqb}
use ohno.Common.Exec.{Exec, cni_error, pure, stop, lift, check, ◌>>=◌, ◌>>◌}
use ohno.Net.Addr.{Addr, new}
use ohno.Net.Netlink.{RouteNhFlags, Route}
use ohno.Net.Nic.{has}
use ohno.Net.Nic
use ohno.Net.Nic.Entries
use ohno.Net.Device.{Device, Class, make, of_base, setup}
use ohno.Net.Device
use ohno.Ipam
use ohno.Storage.{given, separator}
use ohno.Storage
use ohno.Registry.{Map, Netns, Node, add_nic, add_netns, add_node}
use ohno.Registry
use ohno.Cni.{
  Mode, CniConfig, Cni, Pod, KubeNode, Parts, World, this, change, on_etcd, on_cluster, on_device,
  require, host,
}

-- `new ipam::Node{}` and `new ipam::Netns{}`
abbrev pub new_node : KubeNode
new_node = record { name = []; netns = []; underlay_addr = none; underlay_dev = []; subnet = none }

abbrev pub new_pod : Bytes → Pod
new_pod pod_name = record { name = pod_name; nic = [] }

-- `DEFAULT_CONF_PLUGINS_NAME`
abbrev pub plugin_name : Bytes
plugin_name = codes "ohno"

is_reserved : Mode → Bool
is_reserved Mode.reserved = true
is_reserved m = false

-- `getName` of a device.
abbrev pub device_name : Device → Bytes
device_name d = d.base.name

-- The gateway that is there, or the one that is offered.
abbrev keep_gateway : Option Addr → Addr → Option Addr
keep_gateway none a = some a
keep_gateway (some g) a = some g

module _ {E K : Type 0} where
  pub parse_config : CniConfig → Exec (World E K) (Unit {0})
  unfolding is_reserved
  parse_config conf = do
    change (λ c. record c { conf = conf })
    if eqb conf.type plugin_name
        then (do
          require 7 (not (empty conf.bridge))
          require 7 (not (has (separator ∷ []) conf.bridge))
          change (λ c. record c { ipam_mode = conf.ipam.mode })
          require 7 (not (is_reserved conf.ipam.mode)))
        else pure tt

module _ {E K : Type 0} (v : Parts E K) where
  storage_class : Bytes → Bytes → Cni → Class
  storage_class pod nic c =
      if eqb pod host && eqb nic c.node_underlay_dev
      then Class.underlay
      else if eqb nic c.conf.bridge
      then Class.bridge
      else Class.plain

  pub get_storage_nic : Bytes → Bytes → Exec (World E K) (Option Device)
  unfolding storage_class
  get_storage_nic pod nic = do
    c ← this
    named ← on_device (make (storage_class pod nic c)) (of_base (Nic.set_name v.netlink nic))
    ready ← on_device named.1 (setup v.netlink true)
    pure (if ready.0 then some ready.1 else none)

  -- The node object is not in the cluster yet.
  pub init_kubernetes_node : KubeNode → Bytes → Exec (World E K) KubeNode
  init_kubernetes_node node node_subnet = do
    given node_subnet
    c ← this
    let filled =
        (do
          Registry.set_name c.node_name
          Registry.set_subnet v.boost node_subnet
          Registry.set_underlay_addr v.boost c.node_underlay_addr
          Registry.set_underlay_dev c.node_underlay_dev)
          node
    lift filled.0
    pure filled.1

  -- Each loop returns the object that it fills.
  restore_addrs : Bytes → List Bytes → Device → Exec (World E K) Device
  restore_addrs nic [] d = pure d
  restore_addrs nic (addr ∷ addrs) d = do
    c ← this
    if eqb nic c.conf.bridge
        then change (λ m. record m { gateway = keep_gateway m.gateway (new v.boost addr) })
        else pure tt
    r ← on_device d (of_base (Entries.add_addr v.netlink v.boost (new v.boost addr)))
    restore_addrs nic addrs r.1

  restore_routes : List Route → Device → Exec (World E K) Device
  restore_routes [] d = pure d
  restore_routes (route ∷ routes) d = do
    r ← on_device d (of_base (Entries.add_route v.netlink route RouteNhFlags.none))
    restore_routes routes r.1

  -- An interface of a pod other than the root namespace is told its namespace.
  restore_netns : Bytes → Device → Exec (World E K) Device
  restore_netns pod d = do
    c ← this
    if eqb pod host then pure d else (do
      netns ← on_etcd (Storage.get_netns v.etcd_client c.node_name pod)
      given netns
      r ← on_device d (of_base (Nic.set_netns v.netlink netns))
      pure r.1)

  restore_nic : Bytes → Bytes → Device → Exec (World E K) Device
  unfolding restore_netns restore_addrs restore_routes
  restore_nic pod nic d = do
    c ← this
    placed ← restore_netns pod d
    addrs ← on_etcd (Storage.get_all_addrs v.etcd_client c.node_name pod nic)
    addressed ← restore_addrs nic addrs placed
    routes ← on_etcd (Storage.get_all_routes v.etcd_client c.node_name pod nic)
    restore_routes routes addressed

  -- `continue` where no object could be made.
  restore_option : Bytes → Bytes → Pod → Option Device → Exec (World E K) Pod
  unfolding restore_nic
  restore_option pod nic pod_obj none = pure pod_obj
  restore_option pod nic pod_obj (some d) = do
    filled ← restore_nic pod nic d
    pure (add_nic device_name filled pod_obj).1

  restore_nics : Bytes → List Bytes → Pod → Exec (World E K) Pod
  unfolding restore_option
  restore_nics pod [] pod_obj = pure pod_obj
  restore_nics pod (nic ∷ nics) pod_obj = do
    made ← get_storage_nic pod nic
    next ← restore_option pod nic pod_obj made
    restore_nics pod nics next

  restore_pods : List Bytes → KubeNode → Exec (World E K) KubeNode
  unfolding restore_nics
  restore_pods [] node = pure node
  restore_pods (pod ∷ pods) node = do
    c ← this
    nics ← on_etcd (Storage.get_all_nic v.etcd_client c.node_name pod)
    pod_obj ← restore_nics pod nics (new_pod pod)
    let added = add_netns pod pod_obj node
    lift added.0
    restore_pods pods added.1

  pub get_kubernetes_cluster : Exec (World E K) (Map KubeNode)
  unfolding restore_pods
  get_kubernetes_cluster = do
    c ← this
    given c.node_name
    given c.node_underlay_dev
    given c.node_underlay_addr
    subnet ← on_etcd (Ipam.get_subnet v.etcd_client c.node_name)
    if subnet.0
        then (do
          node ← init_kubernetes_node new_node subnet.1
          pod_names ← on_etcd (Storage.get_all_pods v.etcd_client c.node_name)
          full ← restore_pods pod_names node
          let added = add_node c.node_name full []
          lift added.0
          pure added.1)
        else pure []
