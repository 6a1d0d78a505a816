-- ===== src/Tests/Records.antt =====
-- The theorems on the storage at one pod.
use ohno.Common.{ℕ, ◌≡◌, refl, Bool, true, not, ◌&&◌, ◌==◌, and_true, [], ◌∷◌, arith}
use ohno.Common.Bytes.{Bytes, codes}
use ohno.Common.Exec.{Returns, ok, fault, assertion, ◌>>=◌}
use ohno.Etcd.Words.{IsName, IsName-IsItem}
use ohno.Etcd.Client.{Items, At, update}
use ohno.Helper.Split.{Lacks}
use ohno.Net.Nic.{simple_netns}
use ohno.Net.Netlink.{Route}
use ohno.Storage.{separator, add_route, get_all_routes}
use ohno.Storage.Keys.{nic, route, key_of, key_of-injective}
use ohno.Storage.Routes.{
  IsPart, IsRoute, values, dashed, get_all_routes-add_route, get_all_routes-dashed,
}
use ohno.Tests.Values.{lists, lists-EtcdContract, lists-At, literal-IsName, name_chars}

abbrev node : Bytes
node = codes "n1"

abbrev pod : Bytes
pod = codes "web-1"

abbrev eth : Bytes
eth = codes "eth0"

node-IsName : IsName node
node-IsName = literal-IsName b'n' (codes "1") refl

pod-IsName : IsName pod
pod-IsName = literal-IsName b'w' (codes "eb-1") refl

eth-IsName : IsName eth
eth-IsName = literal-IsName b'e' (codes "th0") refl

abbrev no_dash : Bytes → Bool
no_dash [] = true
no_dash (c ∷ s) = not (c == separator) && no_dash s

literal-Lacks : (s : Bytes) → no_dash s ≡ true → Lacks separator s
literal-Lacks [] h = tt
literal-Lacks (c ∷ s) h =
    let (hc, hs) = and_true (not (c == separator)) (no_dash s) h in
    (ground (arith, hc), literal-Lacks s hs)

part : (c : ℕ) (s : Bytes) → name_chars (c ∷ s) ≡ true → no_dash (c ∷ s) ≡ true → IsPart (c ∷ s)
part c s h d = (IsName-IsItem (c ∷ s) (literal-IsName c s h), literal-Lacks (c ∷ s) d)

abbrev default : Route
default = record { dest = codes "0.0.0.0"; via = codes "10.244.1.1"; dev = eth }

default-IsRoute : IsRoute default
default-IsRoute = record {
  dest_part = part b'0' (codes ".0.0.0") refl refl;
  via_part = part b'1' (codes "0.244.1.1") refl refl;
  dev_part = part b'e' (codes "th0") refl refl;
}

abbrev blank : Items
blank k = []

get_all_routes-add_route_example :
    Returns
      ((add_route lists node pod eth default >>= λ _. get_all_routes lists node pod eth) blank)
      (default ∷ [])
      (At lists-EtcdContract (update blank (key_of (route node pod eth)) (values (default ∷ []))))
get_all_routes-add_route_example =
    get_all_routes-add_route lists-EtcdContract node pod eth (node-IsName, pod-IsName, eth-IsName)
      [] default blank blank tt default-IsRoute refl (lists-At blank)

-- A route by the device `br-x`.
get_all_routes-dashed_example :
    (let added = add_route lists node pod eth (dashed default (codes "br") (codes "x")) blank in
      (added.0 ≡ ok true) × ((get_all_routes lists node pod eth added.1).0 ≡ fault assertion))
get_all_routes-dashed_example =
    get_all_routes-dashed lists-EtcdContract node pod eth (node-IsName, pod-IsName, eth-IsName) []
      default (codes "br") (codes "x") blank blank tt default-IsRoute
      (part b'b' (codes "r") refl refl) (part b'x' [] refl refl) refl (lists-At blank)

key_of-injective_example : nic node pod ≡ nic node pod
key_of-injective_example =
    key_of-injective (nic node pod) (nic node pod) (node-IsName, pod-IsName)
      (node-IsName, pod-IsName) refl

abbrev space : Bytes
space = codes "/var/run/netns/blue"

space_simple : simple_netns space ≡ ok (codes "blue")
unfolding simple_netns
space_simple = refl

blue-IsName : IsName (codes "blue")
blue-IsName = literal-IsName b'b' (codes "lue") refl

-- A namespace is stored.
abbrev stored : Items
stored k = eth ∷ []
