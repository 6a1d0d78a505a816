-- ===== src/Tests/Addresses.antt =====
-- The theorems on the IPAM at a cluster of two nodes.
use ohno.Common.{
  ℕ, ◌+◌, ◌-◌, ◌<◌, ◌≡◌, ◌≢◌, ◌⊎◌, inl, inr, refl, sym, ◌∙◌, subst, Bool, true, false, [], ◌∷◌,
  some, arith, length, if◌then◌else◌,
}
use ohno.Common.Bytes.{Bytes, codes, contains, eqb, eqb_iff, eqb_refl}
use ohno.Common.Exec.{Returns, ok, ◌>>=◌, pure}
use ohno.Etcd.Words.{IsName}
use ohno.Etcd.Client.{Items, At}
use ohno.Net.Boost.{NetworkV4, cidr_text, dotted}
use ohno.Net.Subnet.Range.{IsPodCidr, size}
use ohno.Ipam.{
  Center, NodeInfo, subnet_key, address_key, allocate_ip, release_ip, allocate_subnet,
  release_subnet,
}
use ohno.Ipam.Allocate.{candidate, grant, cidr_text-IsItem}
use ohno.Ipam.Lowest.{
  IsFirst, AllTaken, allocate_ip-lowest, allocate_ip-succeeds, release_ip-allocate_ip,
}
use ohno.Ipam.Subnets.{registered, allocate_subnet-twice, release_subnet-allocate_subnet}
use ohno.Ipam.Fleet.{
  Fleet, start, allocated, released, WellFormed, Listed, reached-WellFormed, reached-apart,
}
use ohno.Tests.Networks.{asio, asio-BoostLaws}
use ohno.Tests.Values.{lists, lists-EtcdContract, lists-At, literal-IsName}

abbrev east : Bytes
east = codes "east"

abbrev west : Bytes
west = codes "west"

east-ne-west : east ≢ west
unfolding eqb
east-ne-west e = cc ((eqb_iff east west).1 e)

east-IsName : IsName east
east-IsName = literal-IsName b'e' (codes "ast") refl

west-IsName : IsName west
west-IsName = literal-IsName b'w' (codes "est") refl

-- 10.244.1.0/24
abbrev net_east : NetworkV4
net_east = record { address = 183763200; prefix_length = 24 }

-- 10.244.2.0/24
abbrev net_west : NetworkV4
net_west = record { address = 183763456; prefix_length = 24 }

net_east-IsPodCidr : IsPodCidr net_east
net_east-IsPodCidr = record {
  address_lt = omega arith;
  prefix_pos = omega arith;
  prefix_lt = omega arith;
  aligned = refl;
}

net_west-IsPodCidr : IsPodCidr net_west
net_west-IsPodCidr = record {
  address_lt = omega arith;
  prefix_pos = omega arith;
  prefix_lt = omega arith;
  aligned = refl;
}

-- Both nodes have their subnets; the first address of the eastern one is taken.
abbrev held : Items
held k =
    if eqb k (subnet_key east)
    then cidr_text 183763200 24 ∷ []
    else if eqb k (subnet_key west)
    then cidr_text 183763456 24 ∷ []
    else if eqb k (address_key east)
    then candidate net_east 1 ∷ []
    else []

held-east : held (subnet_key east) ≡ cidr_text net_east.address net_east.prefix_length ∷ []
unfolding eqb
held-east = refl

held_first : contains (held (address_key east)) (candidate net_east 1) ≡ true
unfolding contains eqb
held_first = ground (arith, eqb_refl (candidate net_east 1))

held_room : length (held (address_key east)) < size net_east - 2
unfolding eqb
held_room = omega arith

allocate_ip-lowest_example :
    ((h : ℕ) × IsFirst net_east (size net_east - 2) 1 (held (address_key east)) h
      × Returns
          (allocate_ip lists asio east held)
          (true, candidate net_east h)
          (At lists-EtcdContract (grant held east (some (candidate net_east h)))))
    ⊎ (AllTaken net_east (size net_east - 2) 1 (held (address_key east))
        × Returns (allocate_ip lists asio east held) (false, []) (At lists-EtcdContract held))
allocate_ip-lowest_example =
    allocate_ip-lowest asio asio-BoostLaws net_east net_east-IsPodCidr lists-EtcdContract east
      east-IsName held held held-east (lists-At held)

allocate_ip-succeeds_example :
    (h : ℕ) × (contains (held (address_key east)) (candidate net_east h) ≡ false)
    × Returns
        (allocate_ip lists asio east held)
        (true, candidate net_east h)
        (At lists-EtcdContract (grant held east (some (candidate net_east h))))
allocate_ip-succeeds_example =
    allocate_ip-succeeds asio asio-BoostLaws net_east net_east-IsPodCidr lists-EtcdContract east
      east-IsName held held held-east held_room (lists-At held)

release_ip-allocate_ip_example :
    Returns
      ((allocate_ip lists asio east >>= λ r. release_ip lists east r.1) held)
      true
      (At lists-EtcdContract held)
release_ip-allocate_ip_example =
    release_ip-allocate_ip asio asio-BoostLaws net_east net_east-IsPodCidr lists-EtcdContract east
      east-IsName held held held-east held_room (lists-At held)

-- No list has a value yet.
abbrev blank : Items
blank k = []

abbrev east_info : NodeInfo
east_info = record {
  name = east;
  pod_cidr = cidr_text 183763200 24;
  internal_ip = dotted 3232235777;
}

abbrev api_server : Center Items
api_server = record { get_kubernetes_data = λ node f. (ok east_info, f) }

abbrev answers :
    (f : Items) → Returns (api_server.get_kubernetes_data east f) east_info (λ t. t ≡ f)
answers f = record { result = refl; after = refl }

allocate_subnet-twice_example :
    Returns {A = (Bool × Bytes) × (Bool × Bytes)}
      ((do
        first ← allocate_subnet lists east api_server
        second ← allocate_subnet lists east api_server
        pure (first, second))
        blank)
      ((true, east_info.pod_cidr), (true, east_info.pod_cidr))
      (At lists-EtcdContract (registered blank east east_info.pod_cidr))
allocate_subnet-twice_example =
    allocate_subnet-twice lists-EtcdContract east east-IsName api_server east_info
      (cidr_text-IsItem 183763200 24) answers blank blank refl (lists-At blank)

release_subnet-allocate_subnet_example :
    Returns
      ((allocate_subnet lists east api_server >>= λ r. release_subnet lists east r.1) blank)
      true
      (At lists-EtcdContract blank)
release_subnet-allocate_subnet_example =
    release_subnet-allocate_subnet lists-EtcdContract east east-IsName api_server east_info
      (cidr_text-IsItem 183763200 24) answers blank blank refl (unfold contains in refl)
      (lists-At blank)

abbrev IsMember : Bytes → Type 0
IsMember n = (n ≡ east) ⊎ (n ≡ west)

abbrev net_of : Bytes → NetworkV4
net_of n = if eqb n east then net_east else net_west

-- A fact of both nodes.
both : (P : Bytes → Type 0) → P east → P west → (n : Bytes) → IsMember n → P n
both P e w n (inl h) = subst P (sym h) e
both P e w n (inr h) = subst P (sym h) w

disjoint :
    (m n : Bytes) (i j : ℕ)
    → IsMember m
    → IsMember n
    → m ≢ n
    → i < size (net_of m)
    → j < size (net_of n)
    → (net_of m).address + i ≢ (net_of n).address + j
unfolding eqb
disjoint m n i j (inl hm) (inl hn) ne = absurd (ne (hm ∙ sym hn))
disjoint m n i j (inl hm) (inr hn) ne = rw (hm, hn) (λ hi hj e. omega (arith, hi, hj, e))
disjoint m n i j (inr hm) (inl hn) ne = rw (hm, hn) (λ hi hj e. omega (arith, hi, hj, e))
disjoint m n i j (inr hm) (inr hn) ne = absurd (ne (hm ∙ sym hn))

abbrev two_nodes : Fleet
two_nodes = record {
  IsNode = IsMember;
  net = net_of;
  named = both IsName east-IsName west-IsName;
  pod =
      both (λ n. IsPodCidr (net_of n)) (unfold eqb in net_east-IsPodCidr)
        (unfold eqb in net_west-IsPodCidr);
  apart = disjoint;
}

held-WellFormed : WellFormed two_nodes held
unfolding eqb contains
held-WellFormed =
    both
      (λ n.
        (held (subnet_key n) ≡ cidr_text (net_of n).address (net_of n).prefix_length ∷ [])
        × Listed (net_of n) (held (address_key n)))
      (refl, ((refl, tt), ((1, omega arith, omega arith, refl), tt))) (refl, (tt, tt))

-- One allocation, and the release of another address.
reached-WellFormed_example :
    (g : Items) × At lists-EtcdContract g
      (release_ip lists east (candidate (net_of east) 1) (allocate_ip lists asio west held).1).1
    × WellFormed two_nodes g
reached-WellFormed_example =
    reached-WellFormed two_nodes lists-EtcdContract asio asio-BoostLaws held _
      (released held _ east 1 (allocated held held west (start held) (inr refl)) (inl refl)) held
      (lists-At held) held-WellFormed

reached-apart_example :
    (g : Items) × At lists-EtcdContract g
      (release_ip lists east (candidate (net_of east) 1) (allocate_ip lists asio west held).1).1
    × ((m n x : Bytes)
        → two_nodes.IsNode m
        → two_nodes.IsNode n
        → m ≢ n
        → contains (g (address_key m)) x ≡ true
        → contains (g (address_key n)) x ≡ false)
reached-apart_example =
    reached-apart two_nodes lists-EtcdContract asio asio-BoostLaws held _
      (released held _ east 1 (allocated held held west (start held) (inr refl)) (inl refl)) held
      (lists-At held) held-WellFormed
