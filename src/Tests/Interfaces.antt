-- ===== src/Tests/Interfaces.antt =====
-- The theorems on interfaces and on the objects of a cluster at concrete ones. The kernel of the
-- examples is its table of routes.
use ohno.Common.{◌≡◌, refl, Bool, true, false, [], ◌∷◌, if◌then◌else◌}
use ohno.Common.Bytes.{codes}
use ohno.Common.Exec.{ok, Returns}
use ohno.Net.Boost.{cidr_text}
use ohno.Net.Addr.{new}
use ohno.Net.Netlink.{Netlink, Route, Neigh, Fdb, RouteNhFlags, up, down, user}
use ohno.Net.Nic.{Nic, rename, set_netns, set_status}
use ohno.Net.Nic.Entries.{
  add_addr, del_addr, add_route, del_route, add_neigh, del_neigh, add_fdb, del_fdb,
}
use ohno.Net.Nic.Entries.Failures.{Keeps, operations-Keep}
use ohno.Net.Nic.Entries.Table.{Table, enter, enter_keeps, enter_self, RouteContract}
use ohno.Net.Nic.Entries.Routes.{Mirrored, add_route-Mirrored}
use ohno.Tests.Networks.{asio}

abbrev pub tables : Netlink Table
tables = record {
  link_destory = λ n ns t. (ok true, t);
  link_exist = λ n ns t. (ok true, t);
  link_set_status = λ n s ns t. (ok false, t);
  link_is_in_netns = λ n ns t. (ok false, t);
  link_to_netns = λ n ns t. (ok true, t);
  link_rename = λ n m ns t. (ok true, t);
  veth_create = λ n p t. (ok true, t);
  bridge_create = λ n t. (ok true, t);
  vxlan_create = λ n a x t. (ok true, t);
  vrf_create = λ n i t. (ok true, t);
  bridge_set_status = λ n m g mode ns t. (ok true, t);
  vxlan_set_slave = λ n s l ns t. (ok true, t);
  address_is_exist = λ n a ns t. (ok false, t);
  address_set_entry = λ n a p ns t. (ok false, t);
  route_is_exist = λ d v x ns t. (ok (t (record { dest = d; via = v; dev = x }) ns), t);
  route_set_entry =
      λ d v p x ns flags t. (ok true, enter t (record { dest = d; via = v; dev = x }) ns p);
  neigh_is_exist = λ a x ns t. (ok false, t);
  neigh_set_entry = λ a m p x ns t. (ok false, t);
  fdb_is_exist = λ m a x ns t. (ok false, t);
  fdb_set_entry = λ m a x p ns t. (ok true, t);
}

abbrev tables-RouteContract : RouteContract tables
tables-RouteContract = record {
  table = λ t. t;
  asks = λ r ns t hop. record { result = refl; after = λ q m h. h };
  adds = λ r ns flags t hop. (
    true,
    record {
      result = refl;
      after = ((λ q m h. enter_keeps t r q ns m h), λ e. enter_self t r ns true);
    },
  );
}

abbrev eth : Nic
eth = record {
  locked = true;
  type = user;
  name = codes "eth0";
  netns = codes "blue";
  status = down;
  addrs = [];
  routes = [];
  neighs = [];
  fdbs = [];
}

abbrev pub no_routes : Table
no_routes r ns = false

abbrev default : Route
default = record { dest = codes "0.0.0.0/0"; via = codes "10.244.1.1"; dev = codes "eth0" }

abbrev neighbour : Neigh
neighbour = record {
  addr = codes "10.244.1.1";
  mac = codes "aa:bb:cc:dd:ee:ff";
  dev = codes "eth0";
}

abbrev forward : Fdb
forward = record {
  mac = codes "aa:bb:cc:dd:ee:ff";
  underlay_addr = codes "192.168.1.2";
  dev = codes "ohnov";
}

add_route-Mirrored_example :
    (done : Bool) × Returns (add_route tables default RouteNhFlags.none (eth, no_routes)) done (λ s.
      Mirrored tables-RouteContract s
      × (s.0.routes ≡ (if done then default ∷ [] else []))
      × (done ≡ true → s.1 default (codes "blue") ≡ true))
add_route-Mirrored_example =
    add_route-Mirrored tables-RouteContract default RouteNhFlags.none eth no_routes (λ e. cc) tt

operations-Keep_example :
    (Keeps (add_addr tables asio (new asio (cidr_text 183763207 24)))
      × Keeps (add_route tables default RouteNhFlags.none)
      × Keeps (add_neigh tables neighbour)
      × Keeps (add_fdb tables forward))
    × (Keeps (del_addr tables asio (codes "10.244.1.7"))
        × Keeps (del_route tables default.dest default.via default.dev)
        × Keeps (del_neigh tables neighbour.addr neighbour.mac neighbour.dev)
        × Keeps (del_fdb tables forward.mac forward.underlay_addr forward.dev))
    × (Keeps (rename tables (codes "10.244.1.7"))
        × Keeps (set_netns tables (codes "10.244.1.7"))
        × Keeps (set_status tables up))
operations-Keep_example =
    operations-Keep tables asio (new asio (cidr_text 183763207 24)) default RouteNhFlags.none
      neighbour forward (codes "10.244.1.7") up
