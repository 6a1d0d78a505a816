-- ===== src/Net/Subnet/Reading.antt =====
-- What is read from a subnet that was initialised from a CIDR text.
use ohno.Common.{◌≡◌, refl, Bool}
use ohno.Common.Decimal.{decimal}
use ohno.Common.Exec.{ok, and_then}
use ohno.Helper.Split.{until-append}
use ohno.Net.Boost.{Boost, BoostLaws, NetworkV4, IsNetwork, cidr_text, dotted}
use ohno.Net.Addr.Parsed.{dotted-Lacks_slash}
use ohno.Net.Subnet.{init, get_subnet, get_prefix, extract_addr}
use ohno.Net.Subnet.Range.{subnet_of, init-cidr_text}

ok_injective : {x y : Bool} → ok x ≡ ok y → x ≡ y
ok_injective e = cc

module _ (b : Boost) (laws : BoostLaws b) where
  extract_addr_lem :
      (n : NetworkV4) → IsNetwork n → extract_addr b (subnet_of n) ≡ ok (dotted n.address)
  unfolding extract_addr
  extract_addr_lem n h =
      rw
        (
          laws.network_text n h,
          until-append b'/' (dotted n.address) (decimal n.prefix_length)
              (dotted-Lacks_slash n.address),
        )
        refl

  -- For every 32-bit address and prefix of at most 32: a subnet initialised from the CIDR text gives
  -- that text, that prefix and that address back.
  pub init-reads :
      (n : NetworkV4)
      → IsNetwork n
      → (let s = init b (cidr_text n.address n.prefix_length) in
          (and_then s (get_subnet b) ≡ ok (cidr_text n.address n.prefix_length))
          × (and_then s (get_prefix b) ≡ ok n.prefix_length)
          × (and_then s (extract_addr b) ≡ ok (dotted n.address)))
  unfolding get_subnet get_prefix
  init-reads n h =
      rw (init-cidr_text b laws n.address n.prefix_length h.0 h.1)
        (rw (laws.network_text n h) refl, refl, extract_addr_lem n h)
