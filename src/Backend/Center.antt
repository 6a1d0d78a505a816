-- ===== src/Backend/Center.antt =====
-- src/backend/center.cc: what is asked of the node that the program runs on. `ShellIf` is a
-- parameter.
pub mod Nodes
pub mod Files
pub mod Health
use ohno.Common.{Bool, true, false, not, ◌||◌, ◌++◌, if◌then◌else◌}
use ohno.Common.Bytes.{Bytes, codes, empty}
use ohno.Common.Exec.{Exec, pure, ◌>>=◌}
use ohno.Etcd.Shell.{Shell}

-- The members that `getNodeInfo` is given by reference.
pub record NodeFacts : Type 0 where
  pub node_name : Bytes
  pub underlay_dev : Bytes
  pub underlay_addr : Bytes

abbrev pub device_command : Bytes
device_command = codes "ip route show default | awk '/default/ {print $5}'"

abbrev pub address_command : Bytes → Bytes
address_command underlay_dev =
    codes "ip addr show " ++ underlay_dev ++ codes " | grep 'inet ' | awk '{print $2}'"

-- `!ret || text.empty()`
abbrev pub missing : Bool → Bytes → Bool
missing ret text = not ret || empty text

module _ {K : Type 0} (shell : Shell K) where
  -- The result, and the members as they are left.
  unfoldable pub get_node_info : NodeFacts → Exec K (Bool × NodeFacts)
  get_node_info old = do
    name ← shell.execute (codes "hostname")
    let named = record old { node_name = name.1 }
    if missing name.0 name.1 then pure (false, named) else (do
      dev ← shell.execute device_command
      let placed = record named { underlay_dev = dev.1 }
      if missing dev.0 dev.1 then pure (false, placed) else (do
        addr ← shell.execute (address_command dev.1)
        pure (not (missing addr.0 addr.1), record placed { underlay_addr = addr.1 })))
