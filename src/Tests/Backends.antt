-- ===== src/Tests/Backends.antt =====
-- The theorems on the backends, the data of Kubernetes, the derived interfaces and the `ip` commands at
-- concrete ones.
use ohno.Common.{if◌then◌else◌, ◌≡◌, ◌⊎◌, refl, Bool, true, false, none, some, [], ◌∷◌, ◌++◌}
use ohno.Common.Bytes.{codes, empty, eqb}
use ohno.Common.Exec.{ok, fault, assertion, Returns}
use ohno.Etcd.Words.{IsName}
use ohno.Etcd.Client.{Items}
use ohno.Etcd.Shell.{Shell}
use ohno.Helper.{until}
use ohno.Helper.Split.{join}
use ohno.Ipam.{NodeInfo, subnet_key}
use ohno.Net.Netlink.{down, user}
use ohno.Net.Nic.{Nic, starts_with, drop}
use ohno.Net.Nic.Entries.Table.{Table}
use ohno.Net.Device.{Device, Class, make, setup}
use ohno.Net.Device.Setup.{LinkContract, Ready, alive, setup-once}
use ohno.Registry.{Map, find}
use ohno.Backend.{Services, Worker}
use ohno.Backend.HostGw
use ohno.Backend.HostGw.Routes.{Goes, IsStored}
use ohno.Backend.HostGw.Handler.{Covers, event_handler-cached}
use ohno.Backend.Vxlan
use ohno.Backend.Vxlan.Removal.{del_nodes-gone}
use ohno.Backend.Center.Nodes.{
  Item, AddressType, Api, Access, get_kubernetes_data, get_all_kubernetes_data, caught_items,
  items_of, get_http_response, or_else,
}
use ohno.Backend.Center.Nodes.Agreement.{nothing_known, get_kubernetes_data-agrees}
use ohno.Backend.Center.Files.{
  Files, on_host, get_etcd_clusters, get_api_server, read_file, get_server_url, api_body,
  remove_newlines, opened, value_of, server_of, url_of, or_empty, find_from,
}
use ohno.Backend.Center.Health.{Disk, new_center, test}
use ohno.Backend.Center.Health.Insecure.{new_center-insecure}
use ohno.Backend.Center.Files.Address.{get_etcd_clusters-get_api_server}
use ohno.Tests.Values.{lists, lists-EtcdContract, lists-At, literal-IsName}
use ohno.Tests.Interfaces.{no_routes}
use ohno.Net.Commands.Entries.{netlink_ip_cmd}
use ohno.Net.Commands.Entries.Obliging.{netlink_ip_cmd-LinkContract}
use ohno.Tests.Plugin.{commanded-Takes, node_shell, node_shell-Obliges}

-- The program's own `NetlinkIf`, over a shell in which every command succeeds.
abbrev links : LinkContract (netlink_ip_cmd node_shell)
links = netlink_ip_cmd-LinkContract node_shell-Obliges

abbrev tunnel : Device
tunnel =
    let d = make (Class.vxlan (codes "192.168.1.5") (codes "ens3")) in
    record d { base = record d.base { name = codes "ohnov" } }

setup-once_example :
    (done : Bool) × Returns
      (setup (netlink_ip_cmd node_shell) true (tunnel, no_routes))
      done
      (λ s. (s.0 ≡ alive links tunnel) × Ready links (codes "ohnov") no_routes done s.1)
setup-once_example = setup-once links tunnel no_routes (λ e. cc) ((λ e. cc), (λ e. cc))

abbrev far : NodeInfo
far = record {
  name = codes "n2";
  internal_ip = codes "192.168.1.6";
  pod_cidr = codes "10.244.2.0/24";
}

abbrev cluster : Map NodeInfo
cluster = (codes "n1", far) ∷ (codes "n2", far) ∷ []

abbrev services : Services Items Table
services = record {
  etcd_client = lists;
  netlink = netlink_ip_cmd node_shell;
  get_kubernetes_data = λ f. (ok cluster, f);
}

-- The subnets of both nodes are stored.
abbrev far_stored : Items
far_stored k =
    if eqb k (subnet_key (codes "n1"))
    then codes "10.244.1.0/24" ∷ []
    else if eqb k (subnet_key (codes "n2"))
    then far.pod_cidr ∷ []
    else []

abbrev nothing : Items
nothing k = []

abbrev card : Nic
card = record {
  locked = true;
  type = user;
  name = codes "ens3";
  netns = [];
  status = down;
  addrs = [];
  routes = [];
  neighs = [];
  fdbs = [];
}

abbrev worker : Worker Items Table
worker = record { nic = card; node_cache = []; etcd = nothing; kernel = no_routes }

n1-IsName : IsName (codes "n1")
n1-IsName = literal-IsName b'n' (codes "1") refl

n2-IsName : IsName (codes "n2")
n2-IsName = literal-IsName b'n' (codes "2") refl

abbrev stored_worker : Worker Items Table
stored_worker = record worker { etcd = far_stored }

far_stored-n1 : IsStored far_stored (codes "n1")
unfolding eqb empty join
far_stored-n1 = refl

event_handler-cached_example :
    Returns (HostGw.event_handler services (codes "n1") stored_worker) tt (λ u.
      Goes services lists-EtcdContract commanded-Takes far_stored [] u
      × Covers (codes "n1") far_stored cluster u.node_cache)
event_handler-cached_example =
    event_handler-cached services lists-EtcdContract commanded-Takes (codes "n1") cluster far_stored
      stored_worker n1-IsName far_stored-n1 ((n1-IsName, (λ e. cc)), ((n2-IsName, (λ e. cc)), tt))
      tt refl (lists-At far_stored) (record { result = refl; after = lists-At far_stored })

del_nodes-gone_example :
    (Vxlan.del_nodes services false ((codes "n2", far) ∷ []) worker).0 ≡ fault assertion
del_nodes-gone_example =
    del_nodes-gone services lists-EtcdContract false (codes "n2") far [] nothing worker n2-IsName
      refl (lists-At nothing)

abbrev item : Item
item = record {
  metadata = record { name = codes "n2" };
  status = record {
    addresses = record { type = AddressType.internal_ip; address = codes "192.168.1.6" } ∷ [];
  };
  spec = record { pod_cidr = codes "10.244.2.0/24" };
}

abbrev api : Api Items
api = record { http_get = λ uri token ca f. (ok (200, codes "{}"), f); parse = λ s. ok (item ∷ []) }

abbrev access : Access
access = record {
  api_server = codes "https://10.0.0.1";
  ssl = true;
  ca_path = codes "ca.crt";
  token = codes "secret";
}

items_read : (caught_items api access nothing).0 ≡ ok (item ∷ [])
unfolding caught_items items_of get_http_response or_else empty
items_read = refl

get_kubernetes_data-agrees_example :
    (info : NodeInfo) × (all : Map NodeInfo) × ((get_kubernetes_data api access
        (codes "n2")
        nothing).0
      ≡ ok info)
    × ((get_all_kubernetes_data api access nothing).0 ≡ ok all)
    × ((find (codes "n2") all ≡ some info)
        ⊎ ((find (codes "n2") all ≡ none) × (info ≡ nothing_known (codes "n2"))))
get_kubernetes_data-agrees_example =
    get_kubernetes_data-agrees api access (codes "n2") (item ∷ []) nothing (λ e. cc) (λ e. cc)
      (λ e. cc) (tt, tt) items_read

abbrev kubelet : Files Items
kubelet = record {
  read = λ name f. (ok (some (codes "clusters: server: https://10.0.0.1:6443 name: k")), f);
  env = λ name. [];
}

abbrev disk : Disk Items
disk = record { exists = λ name f. (ok true, f); write = λ name text f. (ok tt, f) }

new_center-insecure_example :
    (self : Access) × (new_center kubelet disk (codes "https://10.0.0.1") false on_host nothing
      ≡ (ok self, nothing))
    × (test api self nothing ≡ (fault assertion, nothing))
    × (get_all_kubernetes_data api self nothing ≡ (fault assertion, nothing))
new_center-insecure_example =
    new_center-insecure kubelet disk api (codes "https://10.0.0.1") on_host nothing nothing
      (λ e. cc)

-- The device has the address 10.1.1.5/24, and 1.1.5/24 is found.
abbrev shell : Shell Table
shell = record {
  execute = λ command t.
      (ok (true, codes "inet " ++ (codes "10." ++ codes "1.1.5/24") ++ codes " scope"), t);
}

kubelet_told :
    (get_api_server kubelet on_host nothing).0
    ≡ ok (codes "https" ++ codes "://" ++ (codes "10.0.0.1" ++ b':' ∷ codes "6443"))
unfolding get_api_server api_body get_server_url read_file opened url_of server_of value_of
    remove_newlines or_empty find_from starts_with drop until empty
kubelet_told = refl

get_etcd_clusters-get_api_server_example :
    (get_etcd_clusters kubelet nothing).0
    ≡ ok (codes "https://" ++ codes "10.0.0.1" ++ codes ":2379")
get_etcd_clusters-get_api_server_example =
    get_etcd_clusters-get_api_server kubelet (codes "https") (codes "10.0.0.1") (codes "6443")
      nothing ((λ e. cc), ((λ e. cc), ((λ e. cc), ((λ e. cc), ((λ e. cc), tt)))))
      (
        (λ e. cc),
        (
          (λ e. cc),
          ((λ e. cc), ((λ e. cc), ((λ e. cc), ((λ e. cc), ((λ e. cc), ((λ e. cc), tt)))))),
        ),
      )
      kubelet_told
