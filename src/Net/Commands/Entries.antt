-- ===== src/Net/Commands/Entries.antt =====
-- src/net/netlink/netlink_ip_cmd.cc: the commands for addresses, routes, neighbours and forwarding entries.
pub mod Suffix
pub mod Obliging
use ohno.Common.{ℕ, Bool, true, false, not, List, [], ◌∷◌, ◌++◌, if◌then◌else◌}
use ohno.Common.Bytes.{Bytes, codes, empty}
use ohno.Common.Exec.{Exec, pure, check, ◌>>=◌, ◌>>◌}
use ohno.Etcd.Shell.{Shell}
use ohno.Net.Netlink.{Netlink, RouteNhFlags}
use ohno.Net.Commands.{
  given, words, execute_command, output_has, output_any, add_word, dest_word, device_words,
  link_destory, link_exist, link_set_status, link_is_in_netns, link_to_netns, link_rename,
  veth_create, bridge_create, vxlan_create, vrf_create, bridge_set_status, vxlan_set_slave,
}

-- `enumName` of the flags, where they are not the first.
flags_word : RouteNhFlags → Bytes
flags_word RouteNhFlags.none = []
flags_word RouteNhFlags.onlink = codes "onlink"
flags_word RouteNhFlags.pervasive = codes "pervasive"

module _ {K : Type 0} (shell : Shell K) where
  pub address_is_exist : Bytes → Bytes → Bytes → Exec K Bool
  unfolding output_has words
  address_is_exist name addr netns = do
    given name
    given addr
    output_has shell addr (words (codes "ip addr show dev" ∷ name ∷ [])) netns

  pub address_set_entry : Bytes → Bytes → Bool → Bytes → Exec K Bool
  unfolding execute_command words
  address_set_entry name addr add netns = do
    given name
    given addr
    execute_command shell (words (codes "ip addr" ∷ add_word add ∷ addr ∷ codes "dev" ∷ name ∷ []))
        netns

  pub route_is_exist : Bytes → Bytes → Bytes → Bytes → Exec K Bool
  unfolding output_any words
  route_is_exist dst via dev netns = do
    given via
    output_any shell
        (words (codes "ip route show" ∷ dest_word dst ∷ codes "via" ∷ via ∷ device_words dev ∷ []))
        netns

  pub route_set_entry : Bytes → Bytes → Bool → Bytes → Bytes → RouteNhFlags → Exec K Bool
  unfolding execute_command words flags_word
  route_set_entry dst via add dev netns nhflags = do
    given via
    execute_command shell
        (words (
          codes "ip route"
          ∷ add_word add
          ∷ dest_word dst
          ∷ codes "via"
          ∷ via
          ∷ device_words dev
          ∷ flags_word nhflags
          ∷ []))
        netns

  pub neigh_is_exist : Bytes → Bytes → Bytes → Exec K Bool
  unfolding output_any words
  neigh_is_exist addr dev netns = do
    given addr
    output_any shell (words (codes "ip neigh show" ∷ addr ∷ device_words dev ∷ [])) netns

  pub neigh_set_entry : Bytes → Bytes → Bool → Bytes → Bytes → Exec K Bool
  unfolding execute_command words
  neigh_set_entry addr mac add dev netns = do
    given addr
    given mac
    execute_command shell
        (words
          (codes "ip neigh" ∷ add_word add ∷ addr ∷ codes "lladdr" ∷ mac ∷ device_words dev ∷ []))
        netns

  pub fdb_is_exist : Bytes → Bytes → Bytes → Bytes → Exec K Bool
  unfolding output_any words
  fdb_is_exist mac underlay_addr dev netns = do
    given mac
    given underlay_addr
    given dev
    output_any shell
        (words (
          codes "bridge fdb show dev"
          ∷ dev
          ∷ codes "| grep"
          ∷ mac
          ∷ codes "| grep"
          ∷ underlay_addr
          ∷ []))
        netns

  pub fdb_set_entry : Bytes → Bytes → Bytes → Bool → Bytes → Exec K Bool
  unfolding execute_command words
  fdb_set_entry mac underlay_addr dev add netns = do
    given mac
    given underlay_addr
    given dev
    execute_command shell
        (words (
          codes "bridge fdb"
          ∷ add_word add
          ∷ mac
          ∷ codes "dev"
          ∷ dev
          ∷ codes "dst"
          ∷ underlay_addr
          ∷ []))
        netns

  -- `NetlinkIpCmd` as a `NetlinkIf`.
  abbrev pub netlink_ip_cmd : Netlink K
  netlink_ip_cmd = record {
    link_destory = link_destory shell;
    link_exist = link_exist shell;
    link_set_status = link_set_status shell;
    link_is_in_netns = link_is_in_netns shell;
    link_to_netns = link_to_netns shell;
    link_rename = link_rename shell;
    veth_create = veth_create shell;
    bridge_create = bridge_create shell;
    vxlan_create = vxlan_create shell;
    vrf_create = vrf_create shell;
    bridge_set_status = bridge_set_status shell;
    vxlan_set_slave = vxlan_set_slave shell;
    address_is_exist = address_is_exist;
    address_set_entry = address_set_entry;
    route_is_exist = route_is_exist;
    route_set_entry = route_set_entry;
    neigh_is_exist = neigh_is_exist;
    neigh_set_entry = neigh_set_entry;
    fdb_is_exist = fdb_is_exist;
    fdb_set_entry = fdb_set_entry;
  }
