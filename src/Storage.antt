-- ===== src/Storage.antt =====
-- src/cni/storage.cc: what the plugin remembers of its pods, in ETCD. A key function's own
-- assertions repeat its callers' and are not written twice.
pub mod Keys
pub mod Routes
pub mod Pods
pub mod Devices
pub mod Removals
use ohno.Common.{ℕ, suc, Bool, true, false, not, List, [], ◌∷◌, ◌++◌, if◌then◌else◌, ◌==◌, length}
use ohno.Common.Bytes.{Bytes, codes, empty}
use ohno.Common.Exec.{Exec, Outcome, ok, fault, and_then, pure, lift, check, assertion, ◌>>=◌, ◌>>◌}
use ohno.Helper.{split}
use ohno.Etcd.Client.{EtcdClient}
use ohno.Net.Boost.{Boost}
use ohno.Net.Addr.{Addr, get_addr_cidr}
use ohno.Net.Nic.{simple_netns}
use ohno.Net.Netlink.{Route}

abbrev pub separator : ℕ
separator = b'-'

abbrev pub etcd_key_prefix_node : Bytes
etcd_key_prefix_node = codes "/ohno/node"

unfoldable pub get_netns_key : Bytes → Bytes → Bytes
get_netns_key node pod =
    etcd_key_prefix_node ++ b'/' ∷ node ++ codes "/pod/" ++ pod ++ codes "/netns"

-- The name is the namespace's without its path.
unfoldable pub get_single_pod_key : Bytes → Bytes → Bytes
get_single_pod_key node name =
    etcd_key_prefix_node ++ b'/' ∷ node ++ codes "/netns/" ++ name ++ codes "/pod"

unfoldable pub get_all_pods_key : Bytes → Bytes
get_all_pods_key node = etcd_key_prefix_node ++ b'/' ∷ node ++ codes "/pod"

unfoldable pub get_nic_key : Bytes → Bytes → Bytes
get_nic_key node pod = etcd_key_prefix_node ++ b'/' ∷ node ++ codes "/pod/" ++ pod ++ codes "/nic"

unfoldable pub get_addr_key : Bytes → Bytes → Bytes → Bytes
get_addr_key node pod nic =
    etcd_key_prefix_node
    ++ b'/' ∷ node
    ++ codes "/pod/"
    ++ pod
    ++ codes "/nic/"
    ++ nic
    ++ codes "/addr"

unfoldable pub get_route_key : Bytes → Bytes → Bytes → Bytes
get_route_key node pod nic =
    etcd_key_prefix_node
    ++ b'/' ∷ node
    ++ codes "/pod/"
    ++ pod
    ++ codes "/nic/"
    ++ nic
    ++ codes "/route"

unfoldable pub get_vtep_key : Bytes → Bytes
get_vtep_key node = etcd_key_prefix_node ++ b'/' ∷ node ++ codes "/vtep"

unfoldable pub get_route_value : Bytes → Bytes → Bytes → Bytes
get_route_value dest via dev = dest ++ separator ∷ via ++ separator ∷ dev

unfoldable pub get_vtep_value : Bytes → Bytes → Bytes
get_vtep_value addr mac = addr ++ separator ∷ mac

-- `OHNO_ASSERT(!text.empty())`
abbrev pub given {ℓ} : {S : Type ℓ} → Bytes → Exec S (Unit {0})
given text = check (not (empty text))

-- `OHNO_ASSERT(route.size() == 3)` on the parts of one value, and the route.
route_of : List Bytes → Outcome Route
route_of (a ∷ b ∷ c ∷ []) = ok (record { dest = a; via = b; dev = c })
route_of [] = fault assertion
route_of (a ∷ []) = fault assertion
route_of (a ∷ b ∷ []) = fault assertion
route_of (a ∷ b ∷ c ∷ d ∷ r) = fault assertion

-- The loop over the values.
pub routes_of : List Bytes → Outcome (List Route)
unfolding route_of
routes_of [] = ok []
routes_of (item ∷ items) =
    and_then (route_of (split item separator)) (λ r. and_then (routes_of items) (λ rs. ok (r ∷ rs)))

-- The address and the MAC address of one value; both are empty where there is none.
vtep_of : List Bytes → Outcome (Bytes × Bytes)
vtep_of [] = ok ([], [])
vtep_of (a ∷ m ∷ []) = ok (a, m)
vtep_of (a ∷ []) = fault assertion
vtep_of (a ∷ m ∷ x ∷ r) = fault assertion

module _ {S : Type 0} (etcd_client : EtcdClient S) where
  pub init : Exec S Bool
  init = etcd_client.test

  pub add_netns : Bytes → Bytes → Bytes → Exec S Bool
  add_netns node pod netns = do
    given node
    given pod
    given netns
    etcd_client.put (get_netns_key node pod) netns

  pub del_netns : Bytes → Bytes → Exec S Bool
  del_netns node pod = do given node; given pod; etcd_client.del (get_netns_key node pod)

  pub get_netns : Bytes → Bytes → Exec S Bytes
  get_netns node pod = do
    given node
    given pod
    r ← etcd_client.get (get_netns_key node pod)
    pure r.1

  pub add_pod : Bytes → Bytes → Bytes → Exec S Bool
  add_pod node netns pod = do
    given node
    given netns
    given pod
    name ← lift (simple_netns netns)
    stored ← etcd_client.put (get_single_pod_key node name) pod
    if stored then etcd_client.append (get_all_pods_key node) pod else pure false

  pub del_pod : Bytes → Bytes → Exec S Bool
  del_pod node netns = do
    given node
    given netns
    name ← lift (simple_netns netns)
    r ← etcd_client.get (get_single_pod_key node name)
    if r.0
        then (do
          deleted ← etcd_client.del (get_single_pod_key node name)
          if deleted then etcd_client.del_value (get_all_pods_key node) r.1 else pure false)
        else pure false

  pub get_pod : Bytes → Bytes → Exec S Bytes
  get_pod node netns = do
    given node
    given netns
    name ← lift (simple_netns netns)
    r ← etcd_client.get (get_single_pod_key node name)
    pure r.1

  pub get_all_pods : Bytes → Exec S (List Bytes)
  get_all_pods node = do given node; r ← etcd_client.list (get_all_pods_key node); pure r.1

  pub add_nic : Bytes → Bytes → Bytes → Exec S Bool
  add_nic node pod nic = do
    given node
    given pod
    given nic
    etcd_client.append (get_nic_key node pod) nic

  pub del_nic : Bytes → Bytes → Bytes → Exec S Bool
  del_nic node pod nic = do
    given node
    given pod
    given nic
    etcd_client.del_value (get_nic_key node pod) nic

  pub get_all_nic : Bytes → Bytes → Exec S (List Bytes)
  get_all_nic node pod = do
    given node
    given pod
    r ← etcd_client.list (get_nic_key node pod)
    pure r.1

  -- The address object is not null.
  pub add_addr : Boost → Bytes → Bytes → Bytes → Addr → Exec S Bool
  add_addr b node pod nic addr = do
    given node
    given pod
    given nic
    text ← lift (get_addr_cidr b addr)
    etcd_client.append (get_addr_key node pod nic) text

  pub del_addr : Bytes → Bytes → Bytes → Exec S Bool
  del_addr node pod nic = do
    given node
    given pod
    given nic
    etcd_client.del (get_addr_key node pod nic)

  pub get_all_addrs : Bytes → Bytes → Bytes → Exec S (List Bytes)
  get_all_addrs node pod nic = do
    given node
    given pod
    given nic
    r ← etcd_client.list (get_addr_key node pod nic)
    pure r.1

  -- The route object is not null; `getRouteValue` asserts that `via` and `dev` are not empty.
  pub add_route : Bytes → Bytes → Bytes → Route → Exec S Bool
  add_route node pod nic route = do
    given node
    given pod
    given nic
    given route.via
    given route.dev
    etcd_client.append (get_route_key node pod nic) (get_route_value route.dest route.via route.dev)

  pub del_route : Bytes → Bytes → Bytes → Exec S Bool
  del_route node pod nic = do
    given node
    given pod
    given nic
    etcd_client.del (get_route_key node pod nic)

  pub get_all_routes : Bytes → Bytes → Bytes → Exec S (List Route)
  get_all_routes node pod nic = do
    given node
    given pod
    given nic
    r ← etcd_client.list (get_route_key node pod nic)
    lift (routes_of r.1)

  pub add_vtep : Bytes → Bytes → Bytes → Exec S Bool
  add_vtep node addr mac = do
    given node
    given addr
    given mac
    etcd_client.put (get_vtep_key node) (get_vtep_value addr mac)

  pub del_vtep : Bytes → Exec S Bool
  del_vtep node = do given node; etcd_client.del (get_vtep_key node)

  pub get_vtep : Bytes → Exec S (Bytes × Bytes)
  unfolding vtep_of
  get_vtep node = do
    given node
    r ← etcd_client.get (get_vtep_key node)
    if r.0 then lift (vtep_of (split r.1 separator)) else pure ([], [])
