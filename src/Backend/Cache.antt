-- ===== src/Backend/Cache.antt =====
-- The cache of the nodes that a backend has routes to.
use ohno.Common.{◌≡◌, ◌≢◌, ap, ◌∙◌, sym, subst, true, false, if◌then◌else◌, inl, inr, Bool-cases}
use ohno.Common.Bytes.{Bytes, eqb, eqb_sound, eqb_iff}
use ohno.Ipam.{NodeInfo}
use ohno.Registry.{Map, emplace, erase}
use ohno.Common.Exec.{Exec, pure, Keeps}
use ohno.Registry.Lookup.{find-emplace_self, find-emplace_ne, find-erase_self, find-erase_ne}
use ohno.Backend.{Worker, is_cached, is_there, remember, forget}

pub emplace_cached :
    (name : Bytes) (info : NodeInfo) (m : Map NodeInfo)
    → is_cached name (emplace name info m) ≡ true
emplace_cached name info m = ap is_there (find-emplace_self name info m)

differs : (a b : Bytes) → eqb a b ≡ false → a ≢ b
differs a b e q = cc (sym e ∙ (eqb_iff a b).1 q)

pub emplace_kept :
    (name x : Bytes) (info : NodeInfo) (m : Map NodeInfo)
    → is_cached x m ≡ true
    → is_cached x (emplace name info m) ≡ true
emplace_kept name x info m h = elim (Bool-cases (eqb name x)) [
  | inl e ↦
      subst (λ y. is_cached y (emplace name info m) ≡ true) (eqb_sound name x e)
        (emplace_cached name info m)
  | inr e ↦ ap is_there (find-emplace_ne name x info m (λ q. differs name x e q)) ∙ h
]

pub emplace_uncached :
    (name x : Bytes) (info : NodeInfo) (m : Map NodeInfo)
    → name ≢ x
    → is_cached x m ≡ false
    → is_cached x (emplace name info m) ≡ false
emplace_uncached name x info m ne h = ap is_there (find-emplace_ne name x info m ne) ∙ h

pub erase_uncached :
    (name x : Bytes) (m : Map NodeInfo) → is_cached x m ≡ false → is_cached x (erase name m) ≡ false
erase_uncached name x m h = elim (Bool-cases (eqb name x)) [
  | inl e ↦
      subst (λ y. is_cached y (erase name m) ≡ false) (eqb_sound name x e)
        (ap is_there (find-erase_self name m))
  | inr e ↦ ap is_there (find-erase_ne name x m (λ q. differs name x e q)) ∙ h
]

module _ {E K : Type 0} (x : Bytes) where
  -- The node is not in the cache.
  abbrev pub Lacks : Worker E K → Type 0
  Lacks w = is_cached x w.node_cache ≡ false

  pub remember-Keeps :
      (name : Bytes) (info : NodeInfo) → name ≢ x → Keeps Lacks (remember name info)
  unfolding remember
  remember-Keeps name info ne w h = emplace_uncached name x info w.node_cache ne h

  pub forget-Keeps : (name : Bytes) → Keeps Lacks (forget name)
  unfolding forget
  forget-Keeps name w h = erase_uncached name x w.node_cache h

  -- A step for the nodes other than this one.
  pub other-Keeps :
      (name : Bytes) (m : Exec (Worker E K) (Unit {0}))
      → (name ≢ x → Keeps Lacks m)
      → Keeps Lacks (if eqb x name then pure tt else m)
  other-Keeps name m k w h = elim (Bool-cases (eqb x name)) [
    | inl e ↦ rw e h
    | inr e ↦ rw e (k (λ q. differs x name e (sym q)) w h)
  ]
