-- ===== src/Json/Kube/RoundTrip.antt =====
-- What is printed of the nodes of the API server is read again.
use ohno.Common.{List, ◌≡◌, refl, ap}
use ohno.Common.Bytes.{eqb}
use ohno.Common.Exec.{ok}
use ohno.Log.{named}
use ohno.Backend.Center.Nodes.{AddressType, Address, Item}
use ohno.Registry.{find}
use ohno.Json.{Json, JsonLaws, member, array_of-map}
use ohno.Json.Kube.{
  type_name, type_of, from_metadata, to_metadata, from_address, to_address, from_status, to_status,
  from_spec, to_spec, from_item, to_item, from_nodes, to_nodes,
}

type_of-type_name : (t : AddressType) → type_of (type_name t) ≡ t
unfolding type_of type_name named eqb
type_of-type_name AddressType.reserved = refl
type_of-type_name AddressType.internal_ip = refl
type_of-type_name AddressType.hostname = refl

module _ {J : Type 0} (j : Json J) (laws : JsonLaws j) where
  from_address-to_address : (a : Address) → from_address j (to_address j a) ≡ ok a
  unfolding from_address to_address type_of member find eqb
  from_address-to_address a =
      simp (laws.contains_object, laws.at_object, laws.string_read)
        (ap (λ t. ok (record a { type = t })) (type_of-type_name a.type))

  from_item-to_item : (i : Item) → from_item j (to_item j i) ≡ ok i
  unfolding from_item from_metadata from_spec from_status to_item to_metadata to_spec to_status
      member find eqb
  from_item-to_item i = simp (
    laws.contains_object,
    laws.at_object,
    laws.string_read,
    array_of-map j laws (to_address j) (from_address j) from_address-to_address i.status.addresses,
  )

  -- Where a value of the JSON library holds the members that it is made of and is read as what it was
  -- made of: what is printed of a list of nodes is read again as the same list, with the name, the
  -- subnet and every address of every node.
  pub from_nodes-to_nodes : (items : List Item) → from_nodes j (to_nodes j items) ≡ ok items
  unfolding from_nodes to_nodes member find eqb
  from_nodes-to_nodes items = simp (
    laws.contains_object,
    laws.at_object,
    array_of-map j laws (to_item j) (from_item j) from_item-to_item items,
  )
