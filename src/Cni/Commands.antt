-- ===== src/Cni/Commands.antt =====
-- src/cni/cni.cc: the commands ADD, DEL and VERSION. A result is a record; `nlohmann::json` prints it.
pub mod Quiet
use ohno.Common.{Bool, true, false, not, Option, none, some, List, [], ◌∷◌, ◌==◌, if◌then◌else◌}
use ohno.Common.Bytes.{Bytes, codes, empty}
use ohno.Common.Exec.{
  Exec, Outcome, ok, fault, exception, cni_error, pure, stop, lift, check, ◌>>=◌, ◌>>◌,
}
use ohno.Helper.Hash.{veth_name}
use ohno.Backend.Center.{get_node_info}
use ohno.Net.Addr.{Addr, get_addr_cidr}
use ohno.Net.Nic
use ohno.Net.Nic.Entries
use ohno.Net.Subnet
use ohno.Net.Device.{Device, of_base}
use ohno.Ipam
use ohno.Storage.{given}
use ohno.Registry
use ohno.Cni.{
  Cni, Parts, World, this, change, on_etcd, on_kernel, on_node, on_nic, require, host, name_vxlan,
  cni_errcode_ohno,
}
use ohno.Cni.Restore.{get_kubernetes_cluster}
use ohno.Cni.Nodes.{get_kubernetes_node, get_kubernetes_pod, del_kubernetes_pod}
use ohno.Cni.Interfaces.{get_kubernetes_nic, del_kubernetes_nic, gateway_text}

pub record CniResultIps : Type 0 where
  pub address : Bytes
  pub gateway : Bytes

pub record CniResultInterfaces : Type 0 where
  pub name : Bytes
  pub sandbox : Bytes

pub record CniResult : Type 0 where
  pub cniversion : Bytes
  pub ips : List CniResultIps
  pub interfaces : List CniResultInterfaces

pub record CniVersion : Type 0 where
  pub cni_version : Bytes
  pub supported_versions : List Bytes

-- `UNKNOWN_ADDR_V4`
abbrev unknown_addr_v4 : Bytes
unknown_addr_v4 = codes "0.0.0.0/32"

-- `catch (const CniError &)` and `catch (const std::exception &)`
pub caught : Outcome (Unit {0}) → Outcome (Unit {0})
caught (ok u) = ok u
caught (fault exception) = ok tt
caught (fault (cni_error code)) = ok tt
caught (fault e) = fault e

module _ {E K : Type 0} (v : Parts E K) where
  -- Both commands begin alike.
  pub start : Exec (World E K) (Unit {0})
  start = do
    c ← this
    info ← on_kernel (
        get_node_info v.shell (record {
          node_name = c.node_name;
          underlay_dev = c.node_underlay_dev;
          underlay_addr = c.node_underlay_addr;
        }))
    change (λ m. record m {
      node_name = info.1.node_name;
      node_underlay_dev = info.1.underlay_dev;
      node_underlay_addr = info.1.underlay_addr;
    })
    require cni_errcode_ohno info.0
    cluster ← get_kubernetes_cluster v
    change (λ m. record m { cluster = cluster })

  first_addr : Device → Exec (World E K) (Option Addr)
  first_addr d = lift (Entries.get_addr v.boost [] d.base)

  -- The address of an interface that was there, which has to lie in the configured subnet.
  known_addr : Option Addr → Exec (World E K) (Unit {0})
  known_addr none = stop (cni_error 7)
  known_addr (some a) = do
    c ← this
    text ← lift (get_addr_cidr v.boost a)
    subnet_veth ← lift (Subnet.init v.boost text)
    inside ← lift (Subnet.is_subnet_of v.boost subnet_veth c.conf.ipam.subnet)
    require 7 inside

  -- An interface that was there is renamed where the kernel does not have it.
  reuse_nic : Bytes → Bytes → Device → Exec (World E K) Device
  unfolding known_addr
  reuse_nic container_id veth_pod d = do
    c ← this
    found ← first_addr d
    known_addr found
    exists ← on_nic c.node_name container_id veth_pod (of_base (Nic.is_exist v.netlink))
    renamed ←
        (if exists
          then pure true
          else on_nic c.node_name container_id veth_pod (of_base (Nic.rename v.netlink veth_pod)))
    require 7 renamed
    pure d

  made_nic : Option Device → Exec (World E K) Device
  made_nic none = stop (cni_error 7)
  made_nic (some d) = pure d

  pod_nic : Bytes → Bytes → Bytes → Option Device → Exec (World E K) Device
  unfolding reuse_nic made_nic
  pod_nic container_id netns veth_pod (some d) = reuse_nic container_id veth_pod d
  pod_nic container_id netns veth_pod none = do
    made ← get_kubernetes_nic v container_id veth_pod true (veth_name container_id) netns
    made_nic made

  text_or_unknown : Option Addr → Outcome Bytes
  text_or_unknown none = ok unknown_addr_v4
  text_or_unknown (some a) = get_addr_cidr v.boost a

  pub add : Bytes → Bytes → Bytes → Exec (World E K) CniResult
  unfolding start first_addr pod_nic text_or_unknown
  add container_id netns nic_name = do
    given container_id
    given netns
    given nic_name
    start
    node ← get_kubernetes_node v true
    require cni_errcode_ohno node
    c ← this
    get_kubernetes_pod c.node_name container_id true
    old ← get_kubernetes_nic v container_id nic_name false [] []
    nic ← pod_nic container_id netns nic_name old
    found ← first_addr nic
    pod_addr ← lift (text_or_unknown found)
    last ← this
    gateway ← lift (gateway_text v.boost last.gateway)
    pure (record {
      cniversion = last.conf.cni_version;
      ips = record { address = pod_addr; gateway = gateway } ∷ [];
      interfaces = record { name = nic_name; sandbox = netns } ∷ [];
    })

  -- The root namespace of a node whose last pod has gone, and the node's subnet.
  retire_node : Exec (World E K) (Unit {0})
  retire_node = do
    c ← this
    get_kubernetes_pod c.node_name host false
    del_kubernetes_nic v host c.conf.bridge
    del_kubernetes_nic v host name_vxlan
    del_kubernetes_nic v host c.node_underlay_dev
    del_kubernetes_pod v host
    node_subnet ← on_node c.node_name (Registry.get_subnet v.boost)
    if empty node_subnet
        then pure tt
        else (do _ ← on_etcd (Ipam.release_subnet v.etcd_client c.node_name node_subnet); pure tt)

  pub del_body : Bytes → Bytes → Exec (World E K) (Unit {0})
  unfolding start retire_node
  del_body container_id nic_name = do
    given container_id
    given nic_name
    start
    node ← get_kubernetes_node v false
    require cni_errcode_ohno node
    c ← this
    get_kubernetes_pod c.node_name container_id false
    del_kubernetes_nic v container_id nic_name
    del_kubernetes_pod v container_id
    size ← on_node c.node_name Registry.get_netns_size
    if size == 1 then retire_node else pure tt

  pub del : Bytes → Bytes → Exec (World E K) (Unit {0})
  unfolding del_body caught
  del container_id nic_name w = let r = del_body container_id nic_name w in (caught r.0, r.1)

module _ {E K : Type 0} where
  pub version : Exec (World E K) CniVersion
  version = do
    c ← this
    pure (record {
      cni_version = c.conf.cni_version;
      supported_versions = codes "0.3.0" ∷ codes "0.3.1" ∷ codes "0.4.0" ∷ [];
    })
