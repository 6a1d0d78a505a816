-- ===== src/Etcd/Shell/Life.antt =====
-- src/etcd/etcd_data.hpp, and the constructor and the destructor of the client of
-- src/etcd/etcd_client_shell.cc.
use ohno.Common.{◌≡◌, ◌≢◌, refl, true, [], ◌∷◌, ◌++◌, Option, none, some, if◌then◌else◌, arith}
use ohno.Common.Bytes.{Bytes, codes, empty}
use ohno.Common.Exec.{Exec, pure, ◌>>=◌, ◌>>◌}
use ohno.Etcd.Env.{Posix, PosixLaws, get, exist, set, unset, text_or_empty}

-- `EtcdData`
pub record EtcdData : Type 0 where
  pub endpoints : Bytes
  pub ca_cert : Bytes
  pub cert : Bytes
  pub key : Bytes

-- `ETCDCTL_VERSION` and `ETCDCTL_VERSION_VALUE`
abbrev pub etcdctl_version : Bytes
etcdctl_version = codes "ETCDCTL_API"

abbrev pub etcdctl_version_value : Bytes
etcdctl_version_value = codes "3"

abbrev or_default : Bytes → Bytes → Bytes
or_default d text = if empty text then d else text

-- What the variable has for an object: "3" in place of no text.
abbrev pub version_for : Option Bytes → Bytes
version_for old = or_default etcdctl_version_value (text_or_empty old)

module _ {S : Type 0} (c : Posix S) where
  -- `EtcdData{endpoints}`: the addresses are those that are given; the files are looked up first.
  pub etcd_data : Bytes → Exec S EtcdData
  etcd_data endpoints = do
    _ ← get c (codes "ETCDCTL_ENDPOINTS")
    ca_cert ← get c (codes "ETCDCTL_CACERT")
    cert ← get c (codes "ETCDCTL_CERT")
    key ← get c (codes "ETCDCTL_KEY")
    pure (record {
      endpoints = endpoints;
      ca_cert = or_default (codes "/etc/kubernetes/pki/etcd/ca.crt") ca_cert;
      cert = or_default (codes "/etc/kubernetes/pki/etcd/healthcheck-client.crt") cert;
      key = or_default (codes "/etc/kubernetes/pki/etcd/healthcheck-client.key") key;
    })

  -- The constructor: the variable is set where it is not there; the result is the prefix of the
  -- commands.
  pub constructed : EtcdData → Exec S Bytes
  constructed d = do
    there ← exist c etcdctl_version
    if there then pure tt else (do _ ← set c etcdctl_version etcdctl_version_value; pure tt)
    pure (
        codes "etcdctl --endpoints="
        ++ d.endpoints
        ++ codes " --cacert="
        ++ d.ca_cert
        ++ codes " --cert="
        ++ d.cert
        ++ codes " --key="
        ++ d.key
        ++ codes " ")

  -- The destructor.
  pub destructed : Exec S (Unit {0})
  destructed = do
    there ← exist c etcdctl_version
    if there then (do _ ← unset c etcdctl_version; pure tt) else pure tt

  module _ (laws : PosixLaws c) where
    constructed_lem :
        (d : EtcdData) (s : S) (o : Option Bytes)
        → ((value : Bytes) (t : S) → (c.setenv etcdctl_version value t).0 ≡ true)
        → c.getenv etcdctl_version s ≡ o
        → c.getenv etcdctl_version (constructed d s).1 ≡ some (version_for o)
    unfolding constructed exist get set text_or_empty empty
    constructed_lem d s none sets e =
        rw e (laws.set_here etcdctl_version etcdctl_version_value s (sets _ s))
    constructed_lem d s (some []) sets e =
        rw e (laws.set_here etcdctl_version etcdctl_version_value s (sets _ s))
    constructed_lem d s (some (x ∷ v)) sets e = rw e e

    destructed_lem :
        (t : S) (v : Bytes)
        → ((t : S) → (c.unsetenv etcdctl_version t).0 ≡ true)
        → v ≢ []
        → c.getenv etcdctl_version t ≡ some v
        → c.getenv etcdctl_version (destructed t).1 ≡ none
    unfolding destructed exist get unset text_or_empty empty
    destructed_lem t [] unsets ne e = absurd (ne refl)
    destructed_lem t (x ∷ v) unsets ne e = rw e (laws.unset_here etcdctl_version t (unsets t))

    version_for_ne : (o : Option Bytes) → version_for o ≢ []
    unfolding text_or_empty empty
    version_for_ne none = ground arith
    version_for_ne (some []) = ground arith
    version_for_ne (some (x ∷ v)) = ground arith

    -- For every environment in which setting and unsetting the variable succeeds: behind the
    -- constructor ETCDCTL_API has the value that it had, or "3" if it was not set or was empty; behind
    -- the destructor it is not set, even where it was set before the object was made.
    pub destructed-constructed :
        (d : EtcdData) (s : S)
        → ((value : Bytes) (t : S) → (c.setenv etcdctl_version value t).0 ≡ true)
        → ((t : S) → (c.unsetenv etcdctl_version t).0 ≡ true)
        → (c.getenv etcdctl_version (constructed d s).1
            ≡ some (version_for (c.getenv etcdctl_version s)))
          × (c.getenv etcdctl_version (destructed (constructed d s).1).1 ≡ none)
    destructed-constructed d s sets unsets =
        let o = c.getenv etcdctl_version s in
        let kept = constructed_lem d s o sets refl in
        (kept, destructed_lem (constructed d s).1 (version_for o) unsets (version_for_ne o) kept)
