-- ===== src/Ipam/Keys.antt =====
-- The keys of the IPAM: they are keys of the program, and no two of them are the same.
use ohno.Common.{◌≡◌, ◌≢◌, refl, ◌++◌, arith, All, All-append, append_cancel}
use ohno.Common.Bytes.{Bytes, codes}
use ohno.Etcd.Words.{
  IsKey, key, IsName, IsName-IsItem, IsItem-IsWord, IsWordChar, literal-IsWordChar,
}
use ohno.Ipam.{etcd_key_subnet, subnet_key, address_key}

name-IsWordChar : (x : Bytes) → IsName x → All IsWordChar x
name-IsWordChar x h = (IsItem-IsWord x (IsName-IsItem x h)).1

pub etcd_key_subnet-IsKey : IsKey etcd_key_subnet
etcd_key_subnet-IsKey = key (codes "/subnets") (literal-IsWordChar (codes "/subnets") refl)

pub subnet_key-IsKey : (node : Bytes) → IsName node → IsKey (subnet_key node)
subnet_key-IsKey node h = key (codes "/subnets/" ++ node) (
    All-append IsWordChar (codes "/subnets/") node (literal-IsWordChar (codes "/subnets/") refl)
      (name-IsWordChar node h))

pub address_key-IsKey : (node : Bytes) → IsName node → IsKey (address_key node)
address_key-IsKey node h = key (codes "/addresses/" ++ node) (
    All-append IsWordChar (codes "/addresses/") node (literal-IsWordChar (codes "/addresses/") refl)
      (name-IsWordChar node h))

pub subnets-ne-subnet : (node : Bytes) → etcd_key_subnet ≢ subnet_key node
subnets-ne-subnet node e = cc (append_cancel etcd_key_subnet e)

pub subnet-ne-address : (m n : Bytes) → subnet_key m ≢ address_key n
subnet-ne-address m n e = ground arith

pub subnets-ne-address : (n : Bytes) → etcd_key_subnet ≢ address_key n
subnets-ne-address n e = ground arith

pub address_key_injective : (m n : Bytes) → address_key m ≡ address_key n → m ≡ n
address_key_injective m n e = append_cancel (codes "/ohno/addresses/") e

pub subnet_key_injective : (m n : Bytes) → subnet_key m ≡ subnet_key n → m ≡ n
subnet_key_injective m n e = append_cancel (codes "/ohno/subnets/") e
