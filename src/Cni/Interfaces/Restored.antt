-- ===== src/Cni/Interfaces/Restored.antt =====
-- src/cni/cni.cc: removing the interface of a pod undoes what its configuration stored.
use ohno.Common.{◌≡◌, ◌≢◌, sym, ap, ◌∙◌, fun_ext, false, List, [], ◌∷◌, ◌++◌, arith}
use ohno.Common.Bytes.{Bytes, contains, eqb_iff}
use ohno.Etcd.Words.{IsName}
use ohno.Etcd.Client.{Items, update, update_self, update_ne, without}
use ohno.Etcd.Values.{without-concat}
use ohno.Ipam.{address_key}
use ohno.Net.Netlink.{Route}
use ohno.Storage.{get_addr_key, get_route_key, get_nic_key}
use ohno.Storage.Routes.{value_of}
use ohno.Storage.Keys.{Slot, key_of, key_of-injective, addr, route, nic, IsNamed}
use ohno.Cni.Interfaces.Network.{configured}
use ohno.Cni.Interfaces.Removal.{forgotten}

-- Four keys, written one after the other and then written back.
module _ (f : Items) (a b c d : Bytes) (ab : a ≢ b) (ac : a ≢ c) (ad : a ≢ d) (bd : b ≢ d)
    (cd : c ≢ d) where
  abbrev four : List Bytes → List Bytes → List Bytes → List Bytes → Items
  four x y z t = update (update (update (update f d t) a x) b y) c z

  four-a : (x y z t : List Bytes) → four x y z t a ≡ x
  four-a x y z t =
      update_ne (update (update (update f d t) a x) b y) c a z (λ e. ac (sym e))
      ∙ update_ne (update (update f d t) a x) b a y (λ e. ab (sym e))
      ∙ update_self (update f d t) a x

  -- The three that come back first.
  abbrev three : List Bytes → List Bytes → List Bytes → List Bytes → Items
  three x y z t = update (update (update (four x y z t) a (f a)) b []) c []

  three-d : (x y z t : List Bytes) → three x y z t d ≡ t
  three-d x y z t =
      let back = four x y z t in
      update_ne (update (update back a (f a)) b []) c d [] cd
      ∙ update_ne (update back a (f a)) b d [] bd
      ∙ update_ne back a d (f a) ad
      ∙ update_ne (update (update (update f d t) a x) b y) c d z cd
      ∙ update_ne (update (update f d t) a x) b d y bd
      ∙ update_ne (update f d t) a d x ad
      ∙ update_self f d t

  all_back :
      (x y z t : List Bytes) (j : Bytes)
      → f b ≡ []
      → f c ≡ []
      → update (three x y z t) d (f d) j ≡ f j
  unfolding update
  all_back x y z t j hb hc = ground (arith, eqb_iff a j, eqb_iff b j, eqb_iff c j, eqb_iff d j)

pub address-ne-key :
    (n m p x : Bytes)
    → (address_key n ≢ key_of (addr m p x))
      × (address_key n ≢ key_of (route m p x))
      × (address_key n ≢ key_of (nic m p))
unfolding get_addr_key get_route_key get_nic_key
address-ne-key n m p x = ((λ e. ground arith), (λ e. ground arith), (λ e. ground arith))

slots_differ : (a b : Slot) → IsNamed a → IsNamed b → a ≢ b → key_of a ≢ key_of b
slots_differ a b ha hb ne e = ne (key_of-injective a b ha hb e)

-- Forgetting an interface right after it was stored and configured restores every list.
pub forgotten-configured :
    (f : Items) (node pod dev ip : Bytes) (r : Route)
    → IsName node
    → IsName pod
    → IsName dev
    → f (key_of (addr node pod dev)) ≡ []
    → f (key_of (route node pod dev)) ≡ []
    → contains (f (address_key node)) ip ≡ false
    → contains (f (key_of (nic node pod))) dev ≡ false
    → (let d = key_of (nic node pod) in
        forgotten (configured (update f d (f d ++ dev ∷ [])) node pod dev ip r) node pod dev ip ≡ f)
forgotten-configured f node pod dev ip r hn hp hd no_addr no_route fresh new_nic =
    let a = address_key node in
    let b = key_of (addr node pod dev) in
    let c = key_of (route node pod dev) in
    let d = key_of (nic node pod) in
    let (ab, ac, ad) = address-ne-key node node pod dev in
    let bd = slots_differ (addr node pod dev) (nic node pod) (hn, hp, hd) (hn, hp) (λ e. cc) in
    let cd = slots_differ (route node pod dev) (nic node pod) (hn, hp, hd) (hn, hp) (λ e. cc) in
    let listed = update f d (f d ++ dev ∷ []) in
    let granted = update listed a (listed a ++ ip ∷ []) in
    let stored = update granted b (granted b ++ ip ∷ []) in
    let x = listed a ++ ip ∷ [] in
    let y = granted b ++ ip ∷ [] in
    let z = stored c ++ value_of r ∷ [] in
    let t = f d ++ dev ∷ [] in
    let pool : without ip (four f a b c d ab ac ad bd cd x y z t a) ≡ f a =
      ap (without ip) (
        four-a f a b c d ab ac ad bd cd x y z t
        ∙ ap (λ xs. xs ++ ip ∷ []) (update_ne f d a t (λ e. ad (sym e))))
      ∙ without-concat ip (f a) fresh in
    let nics : without dev (three f a b c d ab ac ad bd cd x y z t d) ≡ f d =
      ap (without dev) (three-d f a b c d ab ac ad bd cd x y z t)
      ∙ without-concat dev (f d) new_nic in
    ap
      (λ xs.
        let back =
          update (update (update (four f a b c d ab ac ad bd cd x y z t) a xs) b []) c [] in
        update back d (without dev (back d)))
      pool
    ∙ ap (λ xs. update (three f a b c d ab ac ad bd cd x y z t) d xs) nics
    ∙ fun_ext (λ j. all_back f a b c d ab ac ad bd cd x y z t j no_addr no_route)
