-- ===== src/Etcd/Shell/Maps/Lines.antt =====
-- src/etcd/etcd_client_shell.cc: the lines that etcdctl prints for a prefix, and the map that is read from
-- them.
use ohno.Common.{Option, some, List, [], ◌∷◌, ◌++◌, if◌then◌else◌}
use ohno.Common.Bytes.{Bytes, eqb}
use ohno.Helper.Split.{Lacks}
use ohno.Registry.{Map}
use ohno.Etcd.Shell.{Shell}

-- Each key and each value on a line.
pub printed : Map Bytes → Bytes
printed [] = []
printed ((key, text) ∷ m) = key ++ b'\n' ∷ (text ++ b'\n' ∷ printed m)

-- The lines, without the line feeds.
lines : Map Bytes → List Bytes
lines [] = []
lines ((key, text) ∷ m) = key ∷ text ∷ lines m

abbrev pub IsLine : Bytes × Bytes → Type 0
IsLine p = Lacks b'\n' p.0 × Lacks b'\n' p.1

-- The last value of a key.
pub last : Bytes → Map Bytes → Option Bytes → Option Bytes
last key [] old = old
last key ((j, text) ∷ m) old = last key m (if eqb j key then some text else old)
