-- ===== src/Tests/Texts.antt =====
-- The theorems on texts and networks at concrete ones.
use ohno.Common.{ℕ, ◌/◌, ◌%◌, ◌^◌, ◌<◌, ◌≡◌, refl, List, [], ◌∷◌, arith}
use ohno.Common.Bytes.{Bytes, codes}
use ohno.Common.Exec.{ok}
use ohno.Net.Boost.{NetworkV4, cidr_text}
use ohno.Net.Subnet.{generate_ip}
use ohno.Net.Subnet.Range.{IsPodCidr, size, subnet_of, generate_ip-InSubnet}
use ohno.Tests.Networks.{asio, asio-BoostLaws}

-- `a`, nothing, and `b`.
abbrev pieces : List Bytes
pieces = codes "a" ∷ [] ∷ codes "b" ∷ []

-- 10.244.1.0/24
abbrev net : NetworkV4
net = record { address = 183763200; prefix_length = 24 }

net-IsPodCidr : IsPodCidr net
net-IsPodCidr = record {
  address_lt = omega arith;
  prefix_pos = omega arith;
  prefix_lt = omega arith;
  aligned = refl;
}

generate_ip-InSubnet_example :
    (a : ℕ) × (generate_ip asio (subnet_of net) 7 ≡ ok (cidr_text a 24))
    × (a < 2 ^ 32)
    × (a / size net ≡ net.address / size net)
    × (a % size net ≡ 7)
generate_ip-InSubnet_example =
    generate_ip-InSubnet asio asio-BoostLaws net 7 net-IsPodCidr (omega arith) (omega arith)
