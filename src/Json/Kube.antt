-- ===== src/Json/Kube.antt =====
-- src/kube/kube_apiv1_nodes.cc: the nodes of the API server as values of the JSON library.
pub mod RoundTrip
use ohno.Common.{List, [], ◌∷◌, none, some}
use ohno.Common.Bytes.{Bytes, codes}
use ohno.Common.Exec.{Outcome, ok, and_then}
use ohno.Log.{named}
use ohno.Backend.Center.Nodes.{AddressType, Address, Metadata, Spec, Status, Item}
use ohno.Json.{Json, member, map, array_of}

-- `enumName` of a type of address.
pub type_name : AddressType → Bytes
type_name AddressType.reserved = codes "Reserved"
type_name AddressType.internal_ip = codes "InternalIP"
type_name AddressType.hostname = codes "Hostname"

abbrev pub types : List AddressType
types = AddressType.reserved ∷ AddressType.internal_ip ∷ AddressType.hostname ∷ []

-- A type that has no such name is `Reserved`.
pub type_of : Bytes → AddressType
unfolding type_name
type_of s = elim (named type_name types s) [ none ↦ AddressType.reserved | some t ↦ t ]

module _ {J : Type 0} (j : Json J) where
  pub from_metadata : J → Outcome Metadata
  from_metadata json =
      and_then (member j json (codes "name") [] j.get_string) (λ name. ok (record { name = name }))

  pub to_metadata : Metadata → J
  to_metadata meta = j.object ((codes "name", j.string meta.name) ∷ [])

  -- `Address::type_` has no initial value; the members of a new object are zero.
  pub from_address : J → Outcome Address
  unfolding type_of
  from_address json =
      and_then
        (member j json (codes "type") AddressType.reserved
          (λ v. and_then (j.get_string v) (λ s. ok (type_of s))))
        (λ type.
          and_then (member j json (codes "address") [] j.get_string)
            (λ address. ok (record { type = type; address = address })))

  pub to_address : Address → J
  to_address addr = j.object (
      (codes "type", j.string (type_name addr.type))
      ∷ (codes "address", j.string addr.address)
      ∷ [])

  pub from_status : J → Outcome Status
  unfolding from_address
  from_status json =
      and_then (member j json (codes "addresses") [] (array_of j from_address))
        (λ addresses. ok (record { addresses = addresses }))

  pub to_status : Status → J
  unfolding to_address
  to_status status = j.object ((codes "addresses", j.array (map to_address status.addresses)) ∷ [])

  pub from_spec : J → Outcome Spec
  from_spec json =
      and_then (member j json (codes "podCIDR") [] j.get_string)
        (λ pod_cidr. ok (record { pod_cidr = pod_cidr }))

  pub to_spec : Spec → J
  to_spec spec = j.object ((codes "podCIDR", j.string spec.pod_cidr) ∷ [])

  pub from_item : J → Outcome Item
  unfolding from_metadata from_spec from_status
  from_item json =
      and_then (member j json (codes "metadata") (record { name = [] }) from_metadata) (λ metadata.
        and_then (member j json (codes "spec") (record { pod_cidr = [] }) from_spec) (λ spec.
          and_then (member j json (codes "status") (record { addresses = [] }) from_status)
            (λ status. ok (record { metadata = metadata; status = status; spec = spec }))))

  pub to_item : Item → J
  unfolding to_metadata to_spec to_status
  to_item item = j.object (
      (codes "metadata", to_metadata item.metadata)
      ∷ (codes "spec", to_spec item.spec)
      ∷ (codes "status", to_status item.status)
      ∷ [])

  -- `KubeApiv1Nodes` has the one member `items_`.
  pub from_nodes : J → Outcome (List Item)
  unfolding from_item
  from_nodes json = member j json (codes "items") [] (array_of j from_item)

  pub to_nodes : List Item → J
  unfolding to_item
  to_nodes items = j.object ((codes "items", j.array (map to_item items)) ∷ [])
