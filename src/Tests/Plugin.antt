-- ===== src/Tests/Plugin.antt =====
-- The theorems on the plugin at a concrete node.
use ohno.Common.{◌≡◌, ◌≢◌, refl, Bool, true, false, none, some, [], ◌∷◌, ◌-◌, arith, if◌then◌else◌}
use ohno.Common.Bytes.{Bytes, codes, contains, eqb}
use ohno.Common.Decimal.{decimal}
use ohno.Common.Exec.{ok, Returns, ◌>>=◌, ◌>>◌}
use ohno.Etcd.Words.{IsName, IsItem, IsName-IsItem}
use ohno.Etcd.Client.{Items}
use ohno.Etcd.Shell.{Shell}
use ohno.Ipam.{Center, subnet_key, address_key}
use ohno.Ipam.Allocate.{first_free}
use ohno.Net.Boost.{NetworkV4, dotted, cidr_text}
use ohno.Net.Subnet.{ipv4}
use ohno.Net.Addr.{Addr, new, get_addr}
use ohno.Net.Addr.Parsed.{get_addr-parsed}
use ohno.Net.Subnet.Range.{IsPodCidr, size}
use ohno.Net.Netlink.{Netlink}
use ohno.Net.Commands.Entries.{netlink_ip_cmd}
use ohno.Net.Commands.Entries.Obliging.{Obliges, netlink_ip_cmd-Takes}
use ohno.Net.Mac.{Sockets}
use ohno.Net.Device.{Device, Class, make}
use ohno.Net.Nic.Entries.Table.{Table}
use ohno.Net.Nic.Entries.Takes.{Takes}
use ohno.Storage.{add_nic, get_addr_key, get_route_key, get_nic_key}
use ohno.Storage.Keys.{key_of, addr, route, nic}
use ohno.Log.{debug, logfile_default}
use ohno.Cni.{CniConfig, Mode, Cni, Parts, World, host, etcd_or_throw}
use ohno.Cni.Holds.{Holds, with_addr, with_route}
use ohno.Cni.Interfaces.{config_pod_network, forget_nic}
use ohno.Cni.Interfaces.Network.{default_route, configured, config_pod_network_lem}
use ohno.Cni.Interfaces.Removal.{without_vtep}
use ohno.Cni.Interfaces.RoundTrip.{add_then_forget}
use ohno.Tests.Networks.{asio, asio-BoostLaws}
use ohno.Tests.Values.{lists, lists-EtcdContract, lists-At, literal-IsName}
use ohno.Tests.Interfaces.{tables, no_routes}

-- A kernel that takes every address.
abbrev pub takes : Netlink Table
takes = record tables {
  address_set_entry = λ n a p ns t. (ok true, t);
  link_set_status = λ n s ns t. (ok true, t);
}

abbrev text_of : Bool → Bool → Bytes
text_of named routed =
    if named then codes "n1" else if routed then codes "ens3" else codes "192.168.1.5/24"

abbrev answer : Bytes → Bytes
answer command =
    text_of (eqb command (codes "hostname"))
      (eqb command (codes "ip route show default | awk '/default/ {print $5}'"))

abbrev pub node_shell : Shell Table
node_shell = record { execute = λ command t. (ok (true, answer command), t) }

abbrev kubernetes : Center Items
kubernetes = record {
  get_kubernetes_data = λ node f. (
    ok (record {
      name = node;
      internal_ip = codes "192.168.1.5";
      pod_cidr = codes "10.244.1.0/24";
    }),
    f,
  );
}

abbrev cards : Sockets Table
cards = record { hardware_address = λ n t. (ok (some (1, 1 ∷ 2 ∷ 3 ∷ 4 ∷ 5 ∷ 255 ∷ [])), t) }

abbrev pub parts : Parts Items Table
parts = record {
  boost = asio;
  etcd_client = lists;
  center = kubernetes;
  netlink = takes;
  shell = node_shell;
  sockets = cards;
  random = λ t. (ok 7, t);
}

abbrev pub config : CniConfig
config = record {
  cni_version = codes "0.3.1";
  name = codes "mynet";
  type = codes "ohno";
  bridge = codes "ohnobr";
  log = logfile_default;
  loglevel = debug;
  ssl = true;
  ipam = record { subnet = codes "10.244.0.0/16"; mode = Mode.vxlan };
}

abbrev pub fresh : Cni
fresh = record {
  conf = config;
  ipam_mode = Mode.vxlan;
  cluster = [];
  gateway = none;
  node_name = [];
  node_underlay_dev = [];
  node_underlay_addr = [];
}

abbrev pub nothing : Items
nothing k = []

abbrev pub fresh_world : World Items Table
fresh_world = record { cni = fresh; etcd = nothing; kernel = no_routes }

-- Every command succeeds, and the program's own `NetlinkIf` runs it.
full_answer : (first second : Bool) → text_of first second ≢ []
full_answer true second e = cc
full_answer false true e = cc
full_answer false false e = cc

pub node_shell-Obliges : Obliges node_shell
node_shell-Obliges = record { succeeds = λ command t. (answer command, full_answer _ _, refl) }

abbrev pub commanded : Parts Items Table
commanded = record parts { netlink = netlink_ip_cmd node_shell }

pub commanded-Takes : Takes commanded.netlink
commanded-Takes = netlink_ip_cmd-Takes node_shell-Obliges

-- The node `n1` with the subnet 10.244.1.0/24.
abbrev pub node : Bytes
node = codes "n1"

pub node-IsName : IsName node
node-IsName = literal-IsName b'n' (codes "1") refl

abbrev pub pod : Bytes
pod = codes "pod1"

pub pod-IsName : IsName pod
pod-IsName = literal-IsName b'p' (codes "od1") refl

abbrev pub dev : Bytes
dev = codes "eth0"

dev-IsName : IsName dev
dev-IsName = literal-IsName b'e' (codes "th0") refl

abbrev net : NetworkV4
net = record { address = 183763200; prefix_length = 24 }

net-IsPodCidr : IsPodCidr net
net-IsPodCidr = record {
  address_lt = omega arith;
  prefix_pos = omega arith;
  prefix_lt = omega arith;
  aligned = refl;
}

abbrev via : Bytes
via = codes "10.244.1.9"

via-IsItem : IsItem via
via-IsItem = IsName-IsItem via (literal-IsName b'1' (codes "0.244.1.9") refl)

abbrev gateway : Addr
gateway = record { address_v4 = 183763209; ipversion = ipv4; prefix = 24 }

gateway_text : get_addr asio gateway ≡ ok via
unfolding dotted decimal
gateway_text = get_addr-parsed asio asio-BoostLaws 183763209 24 (omega arith)

abbrev held : Items
held k = if eqb k (subnet_key node) then cidr_text 183763200 24 ∷ [] else []

abbrev pub plugin : Cni
plugin = record fresh { gateway = some gateway; node_name = node }

abbrev pub world : World Items Table
world = record { cni = plugin; etcd = held; kernel = no_routes }

abbrev pair : Device
pair =
    let d = make (Class.veth (codes "veth_1")) in
    record d { base = record d.base { locked = true; name = dev } }

held-node : held (subnet_key node) ≡ cidr_text net.address net.prefix_length ∷ []
unfolding eqb
held-node = refl

held_free :
    first_free net (size net - 2) 1 (held (address_key node)) ≡ some (cidr_text 183763201 24)
unfolding eqb first_free contains
held_free = refl

config_pod_network_lem_example :
    Returns
      (config_pod_network commanded pair dev pod world)
      (with_route (with_addr pair (new asio (cidr_text 183763201 24))) (default_route via dev))
      (Holds lists-EtcdContract plugin
        (configured held node pod dev (cidr_text 183763201 24) (default_route via dev)))
config_pod_network_lem_example =
    config_pod_network_lem commanded lists-EtcdContract asio-BoostLaws commanded-Takes net
      net-IsPodCidr pod dev via 183763201 gateway pair held world node-IsName pod-IsName dev-IsName
      via-IsItem (omega arith) refl gateway_text refl (λ e. cc) held-node held_free (lists-At held)

no_addr : held (key_of (addr node pod dev)) ≡ []
unfolding eqb get_addr_key
no_addr = refl

no_route : held (key_of (route node pod dev)) ≡ []
unfolding eqb get_route_key
no_route = refl

new_nic : contains (held (key_of (nic node pod))) dev ≡ false
unfolding eqb get_nic_key contains
new_nic = refl

not_host : eqb pod host ≡ false
unfolding eqb
not_host = refl

add_then_forget_example :
    Returns
      ((etcd_or_throw 278 (add_nic lists node pod dev)
          >> (config_pod_network commanded pair dev pod >>= λ x.
              forget_nic commanded pod dev dev (cidr_text 183763201 24)))
        world)
      tt
      (Holds lists-EtcdContract plugin (without_vtep true held node))
add_then_forget_example =
    add_then_forget commanded lists-EtcdContract asio-BoostLaws commanded-Takes net net-IsPodCidr
      pod dev dev via 183763201 gateway pair held world node-IsName pod-IsName dev-IsName via-IsItem
      (omega arith) not_host refl gateway_text refl (λ e. cc) held-node held_free no_addr no_route
      new_nic (lists-At held)
