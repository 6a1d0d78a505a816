-- ===== src/Cni/Holds.antt =====
-- A step of the plugin at a state whose ETCD lists are known.
use ohno.Common.{◌≡◌, refl, sym, ◌∙◌, ap, subst, Bool, true, false, not, ◌≢◌, ℕ, [], ◌∷◌, ◌++◌}
use ohno.Common.Bytes.{Bytes, empty, empty_ne}
use ohno.Common.Exec.{
  Exec, Outcome, Fault, ok, Throws, and_then, continue, check, lift, Returns, Returns-bind, pure,
  ◌>>=◌, ◌>>◌,
}
use ohno.Etcd.Client.{EtcdClient, EtcdContract, Items, At}
use ohno.Net.Addr.{Addr}
use ohno.Net.Netlink.{Route}
use ohno.Net.Nic.{Nic}
use ohno.Net.Nic.Entries.Takes.{Is}
use ohno.Net.Device.{Device, of_base}
use ohno.Storage.{given}
use ohno.Registry.{Map}
use ohno.Cni.{
  Cni, World, KubeNode, on_cluster, on_etcd, on_kernel, on_device, require, require_malformed,
  etcd_or_throw, etcd_or_malformed, device_or_malformed, device_or_throw,
}

abbrev pub with_addr : Device → Addr → Device
with_addr d a = record d { base = record d.base { addrs = d.base.addrs ++ a ∷ [] } }

abbrev pub with_route : Device → Route → Device
with_route d r = record d { base = record d.base { routes = d.base.routes ++ r ∷ [] } }

module _ {S B : Type 0} {Q : S → Type 0} where
  -- An assertion that holds, and a value that is known.
  pub check-step :
      (t : Bool) (m : Exec S B) (s : S) {b : B}
      → t ≡ true
      → Returns (m s) b Q
      → Returns ((check t >> m) s) b Q
  check-step true m s e h = h
  check-step false m s e h = cc

  pub given-step :
      (x : Bytes) (m : Exec S B) (s : S) {b : B}
      → x ≢ []
      → Returns (m s) b Q
      → Returns ((given x >> m) s) b Q
  given-step x m s ne h = check-step (not (empty x)) m s (rw (empty_ne x ne) refl) h

module _ {S B : Type 0} {Q : S → Type 0} where
  check-throw :
      (t : Bool) (m : Exec S B) (s : S) {e : Fault}
      → t ≡ true
      → Throws (m s) e Q
      → Throws ((check t >> m) s) e Q
  check-throw true m s p h = h
  check-throw false m s p h = cc

  pub given-throw :
      (x : Bytes) (m : Exec S B) (s : S) {e : Fault}
      → x ≢ []
      → Throws (m s) e Q
      → Throws ((given x >> m) s) e Q
  given-throw x m s ne h = check-throw (not (empty x)) m s (rw (empty_ne x ne) refl) h

module _ {S A B : Type 0} {Q : S → Type 0} where
  pub lift-step :
      (o : Outcome A) (f : A → Exec S B) (s : S) {a : A} {b : B}
      → o ≡ ok a
      → Returns (f a s) b Q
      → Returns ((lift o >>= f) s) b Q
  lift-step o f s {a} {b} e h = subst (λ x. Returns (continue x f s) b Q) (sym e) h

module _ {E K A B : Type 0} {Q : World E K → Type 0} where
  -- An operation of the cluster whose result is known.
  pub cluster-step :
      (m : Exec (Map KubeNode) A) (f : A → Exec (World E K) B) (w : World E K) {a : A}
      {c : Map KubeNode} {b : B}
      → m w.cni.cluster ≡ (ok a, c)
      → Returns (f a (record w { cni = record w.cni { cluster = c } })) b Q
      → Returns ((on_cluster m >>= f) w) b Q
  cluster-step m f w {a} {c} {b} e h =
      subst (λ p. Returns (continue p.0 f (record w { cni = record w.cni { cluster = p.1 } })) b Q)
        (sym e) h

  -- A call of the system whose result is known.
  pub kernel-step :
      (m : Exec K A) (f : A → Exec (World E K) B) (w : World E K) {a : A} {b : B}
      → (m w.kernel).0 ≡ ok a
      → Returns (f a (record w { kernel = (m w.kernel).1 })) b Q
      → Returns ((on_kernel m >>= f) w) b Q
  kernel-step m f w {a} {b} e h =
      subst (λ o. Returns (continue o f (record w { kernel = (m w.kernel).1 })) b Q) (sym e) h

module _ {E K : Type 0} {c : EtcdClient E} (k : EtcdContract c) where
  -- The plugin's members, and the lists that ETCD holds.
  abbrev pub Holds : Cni → Items → World E K → Type 0
  Holds m f w = (w.cni ≡ m) × At k f w.etcd

  pub on_etcd-Holds :
      {A : Type 0} (m : Exec E A) (w : World E K) (n : Cni) {a : A} (g : Items)
      → w.cni ≡ n
      → Returns (m w.etcd) a (At k g)
      → Returns (on_etcd m w) a (Holds n g)
  on_etcd-Holds m w n g e h = record { result = h.result; after = (e, h.after) }

  pub etcd_or_throw-Holds :
      (code : ℕ) (m : Exec E Bool) (w : World E K) (n : Cni) (g : Items)
      → w.cni ≡ n
      → Returns (m w.etcd) true (At k g)
      → Returns (etcd_or_throw code m w) tt (Holds n g)
  etcd_or_throw-Holds code m w n g e h =
      Returns-bind (on_etcd m) (require code) w (on_etcd-Holds m w n g e h)
        (λ t q. record { result = refl; after = q })

  -- An operation of a device changes neither.
  on_device-Holds :
      {A : Type 0} (m : Exec (Nic × K) A) (w : World E K) (n : Cni) (d : Device) {a : A}
      (base : Nic) (g : Items)
      → Holds n g w
      → Returns (m (d.base, w.kernel)) a (Is base)
      → Returns (on_device d (of_base m) w) (a, record d { base = base }) (Holds n g)
  on_device-Holds m w n d {a} base g at h = record {
    result =
        ap (λ o. and_then o (λ x. ok (x, (of_base m (d, w.kernel)).1.0))) h.result
        ∙ ap (λ x. ok (a, record d { base = x })) h.after;
    after = at;
  }

  device_or_throw-Holds :
      (code : ℕ) (m : Exec (Nic × K) Bool) (w : World E K) (n : Cni) (d : Device) (base : Nic)
      (g : Items)
      → Holds n g w
      → Returns (m (d.base, w.kernel)) true (Is base)
      → Returns (device_or_throw code d (of_base m) w) (record d { base = base }) (Holds n g)
  device_or_throw-Holds code m w n d base g at h =
      Returns-bind (on_device d (of_base m)) (λ r. require code r.0 >> pure r.1) w
        (on_device-Holds m w n d base g at h) (λ t q. record { result = refl; after = q })

  module _ {B : Type 0} {Q : World E K → Type 0} where
    pub etcd-bind :
        {A : Type 0} (m : Exec E A) (f : A → Exec (World E K) B) (w : World E K) (n : Cni) {a : A}
        {b : B} (g : Items)
        → w.cni ≡ n
        → Returns (m w.etcd) a (At k g)
        → ((u : World E K) → Holds n g u → Returns (f a u) b Q)
        → Returns ((on_etcd m >>= f) w) b Q
    etcd-bind m f w n g e h next = Returns-bind (on_etcd m) f w (on_etcd-Holds m w n g e h) next

    pub etcd_or_throw-bind :
        (code : ℕ) (m : Exec E Bool) (rest : Exec (World E K) B) (w : World E K) (n : Cni) {b : B}
        (g : Items)
        → w.cni ≡ n
        → Returns (m w.etcd) true (At k g)
        → ((u : World E K) → Holds n g u → Returns (rest u) b Q)
        → Returns ((etcd_or_throw code m >> rest) w) b Q
    etcd_or_throw-bind code m rest w n g e h next =
        Returns-bind (etcd_or_throw code m) (λ _. rest) w (etcd_or_throw-Holds code m w n g e h)
          next

    pub etcd_or_malformed-bind :
        (m : Exec E Bool) (rest : Exec (World E K) B) (w : World E K) (n : Cni) {b : B} (g : Items)
        → w.cni ≡ n
        → Returns (m w.etcd) true (At k g)
        → ((u : World E K) → Holds n g u → Returns (rest u) b Q)
        → Returns ((etcd_or_malformed m >> rest) w) b Q
    etcd_or_malformed-bind m rest w n g e h next =
        Returns-bind {Q = Holds n g} (etcd_or_malformed m) (λ _. rest) w
          (Returns-bind (on_etcd m) require_malformed w (on_etcd-Holds m w n g e h)
            (λ t q. record { result = refl; after = q }))
          next

    pub device_or_malformed-bind :
        (m : Exec (Nic × K) Bool) (f : Device → Exec (World E K) B) (w : World E K) (n : Cni)
        (d : Device) {b : B} (base : Nic) (g : Items)
        → Holds n g w
        → Returns (m (d.base, w.kernel)) true (Is base)
        → ((u : World E K) → Holds n g u → Returns (f (record d { base = base }) u) b Q)
        → Returns ((device_or_malformed d (of_base m) >>= f) w) b Q
    device_or_malformed-bind m f w n d base g at h next =
        Returns-bind {Q = Holds n g} (device_or_malformed d (of_base m)) f w
          (Returns-bind (on_device d (of_base m)) (λ r. require_malformed r.0 >> pure r.1) w
            (on_device-Holds m w n d base g at h) (λ t q. record { result = refl; after = q }))
          next

    pub device_or_throw-bind :
        (code : ℕ) (m : Exec (Nic × K) Bool) (f : Device → Exec (World E K) B) (w : World E K)
        (n : Cni) (d : Device) {b : B} (base : Nic) (g : Items)
        → Holds n g w
        → Returns (m (d.base, w.kernel)) true (Is base)
        → ((u : World E K) → Holds n g u → Returns (f (record d { base = base }) u) b Q)
        → Returns ((device_or_throw code d (of_base m) >>= f) w) b Q
    device_or_throw-bind code m f w n d base g at h next =
        Returns-bind (device_or_throw code d (of_base m)) f w
          (device_or_throw-Holds code m w n d base g at h) next
