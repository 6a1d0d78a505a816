-- ===== src/Net/Device/Setup.antt =====
-- src/net: `setup` of the interfaces that are created once, and what `setStatus` of a pair keeps.
use ohno.Common.{
  ◌≡◌, ◌≢◌, refl, sym, ap, ◌∙◌, subst, Bool, true, false, [], inl, inr, if◌then◌else◌, Bool-cases,
  ℕ,
}
use ohno.Common.Bytes.{Bytes, empty_ne}
use ohno.Common.Exec.{Exec, ok, pure, check, continue, Returns, Returns-bind, ◌>>=◌, ◌>>◌}
use ohno.Net.Netlink.{Netlink}
use ohno.Net.Device.{
  Device, Class, setup, create_link, create_bridge, create_vxlan, create_vrf, vtep_given,
}

-- The links of the root namespace, for arguments that are not empty: a call that creates one succeeds
-- and the link is there, or it fails.
pub record LinkContract {K : Type 0} (ntl : Netlink K) : Type 1 where
  pub links : K → Bytes → Bool
  pub asks :
      (name : Bytes) (k : K)
      → name ≢ []
      → Returns (ntl.link_exist name [] k) (links k name) (λ l. links l ≡ links k)
  pub bridges :
      (name : Bytes) (k : K)
      → name ≢ []
      → (done : Bool) × Returns
          (ntl.bridge_create name k)
          done
          (λ l. done ≡ true → links l name ≡ true)
  pub vxlans :
      (name addr dev : Bytes) (k : K)
      → name ≢ []
      → addr ≢ []
      → dev ≢ []
      → (done : Bool) × Returns
          (ntl.vxlan_create name addr dev k)
          done
          (λ l. done ≡ true → links l name ≡ true)
  pub vrfs :
      (name : Bytes) (table : ℕ) (k : K)
      → name ≢ []
      → (done : Bool) × Returns
          (ntl.vrf_create name table k)
          done
          (λ l. done ≡ true → links l name ≡ true)

-- The classes that look before they create.
abbrev pub IsShared : Class → Type 0
IsShared Class.bridge = Unit {0}
IsShared (Class.vxlan addr dev) = (addr ≢ []) × (dev ≢ [])
IsShared (Class.vrf table) = Unit {0}
IsShared c = ⊥

module _ {K : Type 0} {ntl : Netlink K} (c : LinkContract ntl) where
  -- After a call that returned `done`: the link is there if it succeeded, and if it was there before
  -- then it succeeded and no link was created.
  abbrev pub Ready : Bytes → K → Bool → K → Type 0
  Ready name k done l =
      (done ≡ true → c.links l name ≡ true)
      × (c.links k name ≡ true → (done ≡ true) × (c.links l ≡ c.links k))

  once :
      (make : Exec K Bool) (name : Bytes) (k : K)
      → name ≢ []
      → ((l : K) → (done : Bool) × Returns (make l) done (λ m. done ≡ true → c.links m name ≡ true))
      → (done : Bool) × Returns
          ((ntl.link_exist name [] >>= λ exists. if exists then pure true else make) k)
          done
          (Ready name k done)
  once make name k named creates = elim (Bool-cases (c.links k name)) [
    | inl there ↦ (
      true,
      Returns-bind (ntl.link_exist name []) _ k
          (subst (λ b. Returns (ntl.link_exist name [] k) b (λ l. c.links l ≡ c.links k)) there
            (c.asks name k named))
          (λ l same. record {
            result = refl;
            after = ((λ e. ap (λ t. t name) same ∙ there), (λ e. (refl, same)));
          }),
    )
    | inr absent ↦
        (let after = (ntl.link_exist name [] k).1 in
          let (done, made) = creates after in
          (
            done,
            subst
                (λ o.
                  Returns (continue o (λ exists. if exists then pure true else make) after) done
                    (Ready name k done))
                (sym ((c.asks name k named).result ∙ ap ok absent))
                (record { result = made.result; after = (made.after, λ e. cc) }),
          ))
  ]

  created :
      (cl : Class) (name : Bytes) (k : K)
      → name ≢ []
      → IsShared cl
      → (done : Bool) × Returns (create_link ntl cl name k) done (Ready name k done)
  unfolding create_link create_bridge create_vxlan create_vrf
  created Class.bridge name k ne h =
      once (ntl.bridge_create name) name k ne (λ l. c.bridges name l ne)
  created (Class.vxlan addr dev) name k ne h =
      once (ntl.vxlan_create name addr dev) name k ne (λ l. c.vxlans name addr dev l ne h.0 h.1)
  created (Class.vrf table) name k ne h =
      once (ntl.vrf_create name table) name k ne (λ l. c.vrfs name table l ne)
  created Class.plain name k ne h = absurd h
  created Class.underlay name k ne h = absurd h
  created (Class.veth peer) name k ne h = absurd h

  shared_given : (cl : Class) → IsShared cl → vtep_given cl ≡ true
  unfolding vtep_given
  shared_given Class.bridge h = refl
  shared_given (Class.vxlan addr dev) h = rw (empty_ne addr h.0, empty_ne dev h.1) refl
  shared_given (Class.vrf table) h = refl
  shared_given Class.plain h = refl
  shared_given Class.underlay h = refl
  shared_given (Class.veth peer) h = refl

  check_class :
      {R : Device × K → Type 0} (t : Bool) (m : Exec (Device × K) Bool) (s : Device × K) {a : Bool}
      → t ≡ true
      → Returns (m s) a R
      → Returns ((check t >> m) s) a R
  check_class true m s e h = h
  check_class false m s e h = cc

  -- The object that can reach the kernel.
  abbrev pub alive : Device → Device
  alive d = record d { base = record d.base { locked = true } }

  -- For every kernel that answers whether a link exists, and in which a link that it says to have
  -- created exists, where its arguments are not empty: `setup` of a named bridge, of a named VRF or of
  -- a named VXLAN interface whose address and device are given returns; the object can then reach the kernel; if it returns `true` the link exists;
  -- and if the link existed before, it returns `true` and creates none.
  pub setup-once :
      (d : Device) (k : K)
      → d.base.name ≢ []
      → IsShared d.class
      → (done : Bool) × Returns
          (setup ntl true (d, k))
          done
          (λ s. (s.0 ≡ alive d) × Ready d.base.name k done s.1)
  unfolding setup
  setup-once d k named shared =
      let (done, made) = created d.class d.base.name k named shared in
      (
        done,
        check_class (vtep_given d.class) _ (d, k) (shared_given d.class shared)
            (record { result = made.result; after = (refl, made.after) }),
      )
