-- ===== src/Cni/Nodes.antt =====
-- src/cni/cni.cc: the objects of the node, its root namespace and its pods.
pub mod Lookup
use ohno.Common.{Bool, true, false, not, Option, none, some, List, [], ◌∷◌, if◌then◌else◌}
use ohno.Common.Bytes.{Bytes, empty}
use ohno.Common.Exec.{Exec, cni_error, pure, stop, lift, check, ◌>>=◌, ◌>>◌}
use ohno.Net.Addr.{new}
use ohno.Net.Netlink.{up}
use ohno.Net.Mac.{get_mac}
use ohno.Net.Nic
use ohno.Net.Nic.Entries
use ohno.Net.Subnet
use ohno.Net.Device.{Device, Class, make, new_vxlan, of_base, setup, set_status}
use ohno.Ipam
use ohno.Storage.{given}
use ohno.Storage
use ohno.Registry.{Map, Netns, Node, add_nic, add_node, get_node}
use ohno.Registry
use ohno.Cni.{
  Mode, Cni, Pod, KubeNode, Parts, World, this, change, on_etcd, on_kernel, on_cluster, on_node,
  on_device, etcd_or_throw, device_or_throw, require, host, name_vxlan, cni_errcode_ohno, is_there,
}
use ohno.Cni.Restore.{new_node, new_pod, device_name, init_kubernetes_node}

abbrev pub is_vxlan : Mode → Bool
is_vxlan Mode.vxlan = true
is_vxlan m = false

-- `host->addNic(vxlan)` where there is one.
add_option : Option Device → Pod → Pod
add_option none p = p
add_option (some d) p = (add_nic device_name d p).1

module _ {E K : Type 0} where
  pub found_pod : Bytes → Bytes → Bool → Option Pod → Exec (World E K) (Unit {0})
  found_pod node_name pod_name create (some pod) = pure tt
  found_pod node_name pod_name true none =
      on_node node_name (Registry.add_netns pod_name (new_pod pod_name))
  found_pod node_name pod_name false none = stop (cni_error 7)

  -- The pod is found in the node `node_name` of the cluster afterwards.
  pub get_kubernetes_pod : Bytes → Bytes → Bool → Exec (World E K) (Unit {0})
  unfolding found_pod
  get_kubernetes_pod node_name pod_name create = do
    pod ← on_node node_name (Registry.get_netns pod_name)
    found_pod node_name pod_name create pod

module _ {E K : Type 0} (v : Parts E K) where
  -- An address that the kernel took is stored.
  store_address : Bytes → Bytes → Bool → Exec (World E K) (Unit {0})
  store_address nic addr added = do
    c ← this
    if added
        then (do
          etcd_or_throw cni_errcode_ohno
              (Storage.add_addr v.etcd_client v.boost c.node_name host nic (new v.boost addr)))
        else pure tt

  pub get_bridge : Bytes → Exec (World E K) Device
  unfolding store_address
  get_bridge bridge_addr = do
    c ← this
    etcd_or_throw cni_errcode_ohno (Storage.add_nic v.etcd_client c.node_name host c.conf.bridge)
    named ← on_device (make Class.bridge) (of_base (Nic.set_name v.netlink c.conf.bridge))
    ready ← device_or_throw 7 named.1 (setup v.netlink true)
    addressed ←
        on_device ready (of_base (Entries.add_addr v.netlink v.boost (new v.boost bridge_addr)))
    store_address c.conf.bridge bridge_addr addressed.0
    opened ← on_device addressed.1 (set_status v.netlink up)
    pure opened.1

  pub get_vxlan : Bytes → Exec (World E K) Device
  unfolding store_address
  get_vxlan node_subnet = do
    c ← this
    etcd_or_throw cni_errcode_ohno (Storage.add_nic v.etcd_client c.node_name host name_vxlan)
    named ←
        on_device (new_vxlan v.boost c.node_underlay_addr c.node_underlay_dev)
          (of_base (Nic.set_name v.netlink name_vxlan))
    ready ← device_or_throw 7 named.1 (setup v.netlink true)
    subnet ← lift (Subnet.init v.boost node_subnet)
    vxlan_addr ← lift (Subnet.extract_addr v.boost subnet)
    addressed ←
        on_device ready (of_base (Entries.add_addr v.netlink v.boost (new v.boost vxlan_addr)))
    store_address name_vxlan vxlan_addr addressed.0
    opened ← on_device addressed.1 (set_status v.netlink up)
    vxlan_mac ← on_kernel (get_mac v.sockets name_vxlan)
    require 7 (not (empty vxlan_mac))
    etcd_or_throw cni_errcode_ohno (Storage.add_vtep v.etcd_client c.node_name vxlan_addr vxlan_mac)
    pure opened.1

  -- The node with its root namespace.
  pub get_root_pod : KubeNode → Device → Option Device → Device → Exec (World E K) KubeNode
  unfolding add_option
  get_root_pod node bridge vxlan underlay_nic = do
    c ← this
    let bridged = (add_nic device_name bridge (new_pod [])).1
    let tunnelled = if is_vxlan c.ipam_mode then add_option vxlan bridged else bridged
    let full = (add_nic device_name underlay_nic tunnelled).1
    let added = Registry.add_netns host (record full { name = host }) node
    lift added.0
    etcd_or_throw cni_errcode_ohno (Storage.add_netns v.etcd_client c.node_name host host)
    etcd_or_throw cni_errcode_ohno (Storage.add_pod v.etcd_client c.node_name host host)
    pure added.1

  -- What `getKubernetesNode` does for a node that the cluster does not have.
  create_node : Exec (World E K) (Unit {0})
  create_node = do
    c ← this
    node_subnet ← on_etcd (Ipam.allocate_subnet v.etcd_client c.node_name v.center)
    require 7 node_subnet.0
    gateway ← on_etcd (Ipam.allocate_ip v.etcd_client v.boost c.node_name)
    require 7 gateway.0
    change (λ m. record m { gateway = some (new v.boost gateway.1) })
    bridge ← get_bridge gateway.1
    vxlan ←
        (if is_vxlan c.ipam_mode
          then (do d ← get_vxlan node_subnet.1; pure (some d))
          else pure none)
    etcd_or_throw cni_errcode_ohno
        (Storage.add_nic v.etcd_client c.node_name host c.node_underlay_dev)
    underlay_nic ←
        on_device (make Class.underlay) (of_base (Nic.set_name v.netlink c.node_underlay_dev))
    rooted ← get_root_pod new_node bridge vxlan underlay_nic.1
    node ← init_kubernetes_node v rooted node_subnet.1
    on_cluster (add_node c.node_name node)

  -- Whether the cluster has the node afterwards. The callers pass a `NetlinkIf` exactly when they ask
  -- for the node to be created.
  pub get_kubernetes_node : Bool → Exec (World E K) Bool
  unfolding create_node
  get_kubernetes_node get_and_create = do
    c ← this
    given c.node_name
    given c.node_underlay_dev
    given c.node_underlay_addr
    node ← on_cluster (get_node c.node_name)
    if is_there node
        then pure true
        else if get_and_create
        then (do create_node; pure true)
        else pure false

  pub del_kubernetes_pod : Bytes → Exec (World E K) (Unit {0})
  del_kubernetes_pod pod_name = do
    c ← this
    netns_name ← on_etcd (Storage.get_netns v.etcd_client c.node_name pod_name)
    etcd_or_throw cni_errcode_ohno (Storage.del_netns v.etcd_client c.node_name pod_name)
    if empty netns_name then pure tt else (do
      etcd_or_throw cni_errcode_ohno (Storage.del_pod v.etcd_client c.node_name netns_name))
    on_node c.node_name (Registry.del_netns pod_name)
