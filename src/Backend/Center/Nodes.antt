-- ===== src/Backend/Center/Nodes.antt =====
-- src/backend/center.cc: the nodes that the API server tells of. The HTTP client and the JSON parser are
-- parameters.
pub mod Agreement
use ohno.Common.{
  ℕ, Bool, true, false, not, ◌&&◌, ◌||◌, ◌==◌, Option, none, some, List, [], ◌∷◌, ◌++◌,
  if◌then◌else◌,
}
use ohno.Common.Bytes.{Bytes, codes, empty, eqb}
use ohno.Common.Exec.{Exec, Outcome, ok, fault, exception, pure, lift, check, ◌>>=◌, ◌>>◌}
use ohno.Ipam.{NodeInfo}
use ohno.Registry.{Map, erase}

-- `kube::apiv1`: what the answer of the API server is read into.
pub data AddressType : Type 0 where
  reserved internal_ip hostname : AddressType

pub record Address : Type 0 where
  pub type : AddressType
  pub address : Bytes

pub record Metadata : Type 0 where
  pub name : Bytes

pub record Spec : Type 0 where
  pub pod_cidr : Bytes

pub record Status : Type 0 where
  pub addresses : List Address

pub record Item : Type 0 where
  pub metadata : Metadata
  pub status : Status
  pub spec : Spec

-- `httpRequest` of GET: the code and the response; it may throw. `parse` gives the items of
-- `KubeApiv1Nodes`, or throws.
pub record Api (K : Type 0) : Type 0 where
  pub http_get : Bytes → Bytes → Bytes → Exec K (ℕ × Bytes)
  pub parse : Bytes → Outcome (List Item)

-- The members of `Center`.
pub record Access : Type 0 where
  pub api_server : Bytes
  pub ssl : Bool
  pub ca_path : Bytes
  pub token : Bytes

abbrev given {ℓ} : {S : Type ℓ} → Bytes → Exec S (Unit {0})
given text = check (not (empty text))

is_internal : AddressType → Bool
is_internal AddressType.internal_ip = true
is_internal t = false

-- The first address of the type `InternalIP`.
first_internal : List Address → Bytes
unfolding is_internal
first_internal [] = []
first_internal (a ∷ addresses) =
    let rest = first_internal addresses in if is_internal a.type then a.address else rest

pub info_of : Item → NodeInfo
unfolding first_internal
info_of i = record {
  name = i.metadata.name;
  internal_ip = first_internal i.status.addresses;
  pod_cidr = i.spec.pod_cidr;
}

-- The loop for one node, which ends at the first item of that name.
pub single_of : NodeInfo → List Item → NodeInfo
unfolding info_of
single_of single [] = single
single_of single (i ∷ items) =
    let rest = single_of single items in if eqb single.name i.metadata.name then info_of i else rest

-- `all[info.name_] = info`
pub put : Bytes → NodeInfo → Map NodeInfo → Map NodeInfo
put name info m = (name, info) ∷ erase name m

-- The loop for all nodes.
pub all_of : List Item → Map NodeInfo → Map NodeInfo
unfolding put
all_of [] all = all
all_of (i ∷ items) all = all_of items (put i.metadata.name (info_of i) all)

-- Exceptions are caught, and what was read before is returned.
unfoldable pub or_else {ℓ} : {A : Type ℓ} → A → Outcome A → Outcome A
or_else a (ok x) = ok x
or_else a (fault exception) = ok a
or_else a (fault e) = fault e

module _ {K : Type 0} (api : Api K) (self : Access) where
  unfoldable pub get_http_response : Bytes → Exec K (ℕ × Bytes)
  get_http_response uri = do
    given uri
    given self.api_server
    given self.token
    check (self.ssl && not (empty self.ca_path))
    api.http_get uri self.token (if self.ssl then self.ca_path else [])

  -- The body of the `try`.
  unfoldable pub items_of : Exec K (List Item)
  unfolding get_http_response
  items_of = do
    r ← get_http_response (self.api_server ++ codes "/api/v1/nodes")
    lift (if r.0 == 200 then api.parse r.1 else fault exception)

  -- The items, or none where the `try` throws.
  unfoldable pub caught_items : Exec K (List Item)
  unfolding items_of or_else
  caught_items k = let r = items_of k in (or_else [] r.0, r.1)

  unfoldable pub get_nodes : Bool → NodeInfo → Exec K (NodeInfo × Map NodeInfo)
  unfolding caught_items all_of single_of
  get_nodes is_all single = do
    check (is_all || not (empty single.name))
    given self.api_server
    given self.token
    items ← caught_items
    pure (if is_all then (single, all_of items []) else (single_of single items, []))

  -- `getKubernetesData` for one node, and for all.
  pub get_kubernetes_data : Bytes → Exec K NodeInfo
  unfolding get_nodes
  get_kubernetes_data node_name = do
    r ← get_nodes false (record { name = node_name; internal_ip = []; pod_cidr = [] })
    pure r.0

  unfoldable pub get_all_kubernetes_data : Exec K (Map NodeInfo)
  unfolding get_nodes
  get_all_kubernetes_data = do
    r ← get_nodes true (record { name = []; internal_ip = []; pod_cidr = [] })
    pure r.1
