-- ===== src/Net/Commands.antt =====
-- src/net/netlink/netlink_ip_cmd.cc: `NetlinkIf` by commands of `ip` and `bridge` in a shell. The shell is
-- a parameter: a command answers whether its exit status is zero, and its output.
pub mod Entries
pub mod Arguments
use ohno.Common.{ℕ, Bool, true, false, not, List, [], ◌∷◌, ◌++◌, if◌then◌else◌}
use ohno.Common.Bytes.{Bytes, codes, empty}
use ohno.Common.Decimal.{decimal}
use ohno.Common.Exec.{Exec, pure, check, ◌>>=◌, ◌>>◌}
use ohno.Etcd.Shell.{Shell}
use ohno.Net.Nic.{has}
use ohno.Net.Netlink.{Netlink, LinkStatus, up, RouteNhFlags, BridgeAddrGenMode}

-- `VXLAN_VNI` and `PORT_VXLAN`
abbrev vxlan_vni : ℕ
vxlan_vni = 42

abbrev port_vxlan : ℕ
port_vxlan = 4789

abbrev pub given {ℓ} : {S : Type ℓ} → Bytes → Exec S (Unit {0})
given text = check (not (empty text))

-- A command is not empty here, as `addNetns` asserts.
unfoldable pub add_netns : Bytes → Bytes → Bytes
add_netns command netns =
    if empty netns then command else codes "ip netns exec " ++ netns ++ b' ' ∷ command

status_word : LinkStatus → Bytes
status_word up = codes " up"
status_word s = codes " down"

-- `enumName` of the mode, where it is not the first.
mode_words : BridgeAddrGenMode → Bytes
mode_words BridgeAddrGenMode.reserved = []
mode_words BridgeAddrGenMode.none = codes "addrgenmode none"

abbrev pub add_word : Bool → Bytes
add_word add = if add then codes "add" else codes "del"

abbrev on_word : Bool → Bytes
on_word on = if on then codes "on" else codes "off"

-- `dst.empty() ? "default" : dst` and `dev.empty() ? "" : "dev {}"`.
abbrev pub dest_word : Bytes → Bytes
dest_word dst = if empty dst then codes "default" else dst

abbrev pub device_words : Bytes → Bytes
device_words dev = if empty dev then [] else codes "dev " ++ dev

-- Words with a space between each two.
pub words : List Bytes → Bytes
words [] = []
words (x ∷ []) = x
words (x ∷ y ∷ r) = x ++ b' ' ∷ words (y ∷ r)

module _ {K : Type 0} (shell : Shell K) where
  -- `executeCommand`
  pub execute_command : Bytes → Bytes → Exec K Bool
  execute_command command netns = do r ← shell.execute (add_netns command netns); pure r.0

  -- The text is somewhere in the output.
  pub output_has : Bytes → Bytes → Bytes → Exec K Bool
  output_has text command netns = do
    r ← shell.execute (add_netns command netns)
    pure (if r.0 then has text r.1 else false)

  -- There is an output.
  pub output_any : Bytes → Bytes → Exec K Bool
  output_any command netns = do
    r ← shell.execute (add_netns command netns)
    pure (if r.0 then not (empty r.1) else false)

  pub link_destory : Bytes → Bytes → Exec K Bool
  unfolding execute_command words
  link_destory name netns = do
    given name
    execute_command (words (codes "ip link del dev" ∷ name ∷ [])) netns

  pub link_exist : Bytes → Bytes → Exec K Bool
  unfolding execute_command words
  link_exist name netns = do
    given name
    execute_command (words (codes "ip link show" ∷ name ∷ [])) netns

  pub link_set_status : Bytes → LinkStatus → Bytes → Exec K Bool
  unfolding execute_command words status_word
  link_set_status name status netns = do
    given name
    execute_command (words (codes "ip link set dev" ∷ name ∷ status_word status ∷ [])) netns

  pub link_is_in_netns : Bytes → Bytes → Exec K Bool
  unfolding output_has words
  link_is_in_netns name netns = do
    given name
    given netns
    output_has name (words (codes "ip link show dev" ∷ name ∷ [])) netns

  pub link_to_netns : Bytes → Bytes → Exec K Bool
  unfolding execute_command words
  link_to_netns name netns = do
    given name
    given netns
    execute_command (words (codes "ip link set dev" ∷ name ∷ codes "netns" ∷ netns ∷ [])) []

  pub link_rename : Bytes → Bytes → Bytes → Exec K Bool
  unfolding execute_command words
  link_rename name new_name netns = do
    given name
    given new_name
    execute_command (words (codes "ip link set dev" ∷ name ∷ codes "name" ∷ new_name ∷ [])) netns

  pub veth_create : Bytes → Bytes → Exec K Bool
  unfolding execute_command words
  veth_create name1 name2 = do
    given name1
    given name2
    execute_command (words (codes "ip link add dev" ∷ name1 ∷ codes "type veth peer" ∷ name2 ∷ []))
        []

  pub bridge_create : Bytes → Exec K Bool
  unfolding execute_command words
  bridge_create name = do
    given name
    execute_command (words (codes "ip link add dev" ∷ name ∷ codes "type bridge" ∷ [])) []

  pub vxlan_create : Bytes → Bytes → Bytes → Exec K Bool
  unfolding execute_command words
  vxlan_create name underlay_addr underlay_dev = do
    given name
    given underlay_addr
    given underlay_dev
    execute_command
        (words (
          codes "ip link add dev"
          ∷ name
          ∷ codes "type vxlan id"
          ∷ decimal vxlan_vni
          ∷ codes "dstport"
          ∷ decimal port_vxlan
          ∷ codes "local"
          ∷ underlay_addr
          ∷ codes "dev"
          ∷ underlay_dev
          ∷ codes "nolearning proxy"
          ∷ []))
        []

  pub vrf_create : Bytes → ℕ → Exec K Bool
  unfolding execute_command words
  vrf_create name table = do
    given name
    execute_command
        (words (codes "ip link add name" ∷ name ∷ codes "type vrf table" ∷ decimal table ∷ [])) []

  pub bridge_set_status : Bytes → Bool → Bytes → BridgeAddrGenMode → Bytes → Exec K Bool
  unfolding execute_command words mode_words
  bridge_set_status name master bridge mode netns = do
    given name
    given bridge
    let action = if master then codes "master" else codes "nomaster"
    execute_command
        (words (codes "ip link set dev" ∷ name ∷ action ∷ bridge ∷ mode_words mode ∷ [])) netns

  pub vxlan_set_slave : Bytes → Bool → Bool → Bytes → Exec K Bool
  unfolding execute_command words
  vxlan_set_slave name neigh_suppress learning netns = do
    given name
    execute_command
        (words (
          codes "ip link set"
          ∷ name
          ∷ codes "type bridge_slave neigh_suppress"
          ∷ on_word neigh_suppress
          ∷ codes "learning"
          ∷ on_word learning
          ∷ []))
        netns
