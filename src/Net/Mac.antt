-- ===== src/Net/Mac.antt =====
-- src/net/mac.cc: the hardware address of an interface as a text. The `ioctl` of a socket is a
-- parameter.
use ohno.Common.{ℕ, ◌-◌, ◌/◌, ◌%◌, Option, none, some, List, [], ◌∷◌, ◌++◌, ◌==◌, if◌then◌else◌}
use ohno.Common.Bytes.{Bytes}
use ohno.Common.Exec.{Exec, pure, ◌>>=◌}
use ohno.Helper.Hash.{ifnamsiz, hex_digit, take}

-- `SIOCGIFHWADDR` for a name: the family and the first six bytes of the data, or no answer where a
-- call fails or throws.
pub record Sockets (K : Type 0) : Type 0 where
  pub hardware_address : Bytes → Exec K (Option (ℕ × List ℕ))

-- `ARPHRD_ETHER`
abbrev pub arphrd_ether : ℕ
arphrd_ether = 1

-- `%02x` of a byte.
hex_byte : ℕ → Bytes
hex_byte n = hex_digit (n / 16 % 16) ∷ hex_digit (n % 16) ∷ []

-- `%02x:%02x:...`
set_mac_str : List ℕ → Bytes
unfolding hex_byte
set_mac_str [] = []
set_mac_str (n ∷ []) = hex_byte n
set_mac_str (n ∷ m ∷ ns) = hex_byte n ++ b':' ∷ set_mac_str (m ∷ ns)

mac_of : Option (ℕ × List ℕ) → Bytes
unfolding set_mac_str
mac_of none = []
mac_of (some (family, bytes)) = if family == arphrd_ether then set_mac_str bytes else []

module _ {K : Type 0} (sockets : Sockets K) where
  -- `Mac{nic_name}.getMac()`: empty where there is no address. The name is cut to 15 bytes.
  pub get_mac : Bytes → Exec K Bytes
  unfolding mac_of
  get_mac nic_name = do
    answer ← sockets.hardware_address (take (ifnamsiz - 1) nic_name)
    pure (mac_of answer)
