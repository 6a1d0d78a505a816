-- ===== src/Ipam.antt =====
-- src/ipam/ipam.cc: subnets of nodes and addresses of pods, kept in ETCD as lists of texts. Only
-- `std::string &` parameters that are empty at the call are modelled, as the result's second part.
pub mod Keys
pub mod Allocate
pub mod Lowest
pub mod Fleet
pub mod Subnets
use ohno.Common.{ℕ, zero, suc, ◌+◌, ◌-◌, Bool, true, false, not, List, [], ◌∷◌, ◌++◌, if◌then◌else◌}
use ohno.Common.Bytes.{Bytes, codes, empty, contains}
use ohno.Common.Exec.{Exec, pure, lift, check, ◌>>=◌, ◌>>◌}
use ohno.Etcd.Client.{EtcdClient}
use ohno.Net.Boost.{Boost}
use ohno.Net.Subnet.{Subnet}
use ohno.Net.Subnet

-- `backend::NodeInfo`
pub record NodeInfo : Type 0 where
  pub name : Bytes
  pub internal_ip : Bytes
  pub pod_cidr : Bytes

-- `backend::CenterIf::getKubernetesData(node_name)`
pub record Center (S : Type 0) : Type 0 where
  pub get_kubernetes_data : Bytes → Exec S NodeInfo

abbrev pub etcd_key_subnet : Bytes
etcd_key_subnet = codes "/ohno/subnets"

abbrev pub etcd_key_address : Bytes
etcd_key_address = codes "/ohno/addresses"

abbrev pub subnet_key : Bytes → Bytes
subnet_key node_name = etcd_key_subnet ++ b'/' ∷ node_name

abbrev pub address_key : Bytes → Bytes
address_key node_name = etcd_key_address ++ b'/' ∷ node_name

-- `all_ip.empty()`
no_value : List Bytes → Bool
no_value [] = true
no_value (x ∷ xs) = false

module _ {S : Type 0} (etcd_client : EtcdClient S) where
  unfoldable pub init : Exec S Bool
  init = etcd_client.test

  pub get_subnet : Bytes → Exec S (Bool × Bytes)
  get_subnet node_name = do
    check (not (empty node_name))
    r ← etcd_client.get (subnet_key node_name)
    pure (if r.0 then (not (empty r.1), r.1) else (false, r.1))

  pub allocate_subnet : Bytes → Center S → Exec S (Bool × Bytes)
  unfolding get_subnet
  allocate_subnet node_name center = do
    old ← get_subnet node_name
    if old.0 then pure (true, old.1) else do
      node_info ← center.get_kubernetes_data node_name
      appended ← etcd_client.append etcd_key_subnet node_info.pod_cidr
      if appended
          then (do
            stored ← etcd_client.put (subnet_key node_name) node_info.pod_cidr
            if stored then pure (true, node_info.pod_cidr) else (do
              _ ← etcd_client.del_value etcd_key_subnet node_info.pod_cidr
              pure (false, [])))
          else pure (false, [])

  pub release_subnet : Bytes → Bytes → Exec S Bool
  release_subnet node_name subnet = do
    check (not (empty node_name))
    deleted ← etcd_client.del (subnet_key node_name)
    if deleted then etcd_client.del_value etcd_key_subnet subnet else pure false

  pub is_ip_available : Bytes → Bytes → Exec S Bool
  is_ip_available node_name ip_to_confirm = do
    check (not (empty node_name))
    check (not (empty ip_to_confirm))
    r ← etcd_client.list (address_key node_name)
    pure (if r.0 then not (contains r.1 ip_to_confirm) else true)

  pub get_all_ip : Bytes → Exec S (Bool × List Bytes)
  unfolding no_value
  get_all_ip node_name = do
    check (not (empty node_name))
    r ← etcd_client.list (address_key node_name)
    pure (if r.0 then (not (no_value r.1), r.1) else (false, r.1))

  pub release_ip : Bytes → Bytes → Exec S Bool
  release_ip node_name ip_to_del = do
    check (not (empty node_name))
    etcd_client.del_value (address_key node_name) ip_to_del

  module _ (b : Boost) where
    -- The rounds that are left, and the next host number.
    allocate_loop : ℕ → ℕ → Bytes → Subnet → Exec S (Bool × Bytes)
    allocate_loop zero i node_name subnet_obj = pure (false, [])
    allocate_loop (suc n) i node_name subnet_obj =
        let next = allocate_loop n (i + 1) node_name subnet_obj in
        do
          candidate_ip ← lift (Subnet.generate_ip b subnet_obj i)
          available ← is_ip_available node_name candidate_ip
          if available
              then (do
                appended ← etcd_client.append (address_key node_name) candidate_ip
                if appended then pure (true, candidate_ip) else next)
              else next

    -- `for (i = 1; i < max_hosts - 1; ++i)` makes `max_hosts - 2` rounds; `max_hosts` is at least 2.
    pub allocate_ip : Bytes → Exec S (Bool × Bytes)
    unfolding get_subnet is_ip_available allocate_loop
    allocate_ip node_name = do
      subnet ← get_subnet node_name
      if subnet.0
          then (do
            subnet_obj ← lift (Subnet.init b subnet.1)
            max_hosts ← lift (Subnet.get_max_hosts b subnet_obj)
            allocate_loop (max_hosts - 2) 1 node_name subnet_obj)
          else pure (false, [])
