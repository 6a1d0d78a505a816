-- ===== src/Backend/Strategy/Watched.antt =====
-- src/backend/strategy_client.cc: what holds of the thread that the daemon starts, at any time.
use ohno.Common.{ℕ, ◌≡◌, ◌≢◌, refl, subst, arith}
use ohno.Common.Bytes.{Bytes}
use ohno.Common.Exec.{Exec, Outcome, ok, fault, and_then, continue, lift, ◌>>=◌, ◌>>◌}
use ohno.Storage.{given}
use ohno.Net.Nic.{Nic}
use ohno.Registry.{find}
use ohno.Backend.{Worker}
use ohno.Backend.Cache.{Lacks}
use ohno.Backend.Thread
use ohno.Backend.Thread.{Thread, Reach, new_thread, made, later, starts}
use ohno.Backend.Thread.Reached.{Orderly, Reach-Orderly}
use ohno.Backend.HostGw
use ohno.Backend.HostGw.Itself as HostGwItself
use ohno.Backend.Vxlan
use ohno.Backend.Vxlan.Itself as VxlanItself
use ohno.Backend.Evpn.{Evpn, env_setup}
use ohno.Backend.Strategy.{
  BackendInfo, Equipment, Backend, Running, monitored, placed, monitor, worker, config_of,
  get_strategy, start_evpn, start_backend, execute_strategy,
}

-- The bits of the interval are not all zero; the thread is one that was started; and in every state that it reaches it
-- is orderly, and the node is not in the cache.
module _ {E K : Type 0} where
  pub Watched : Bytes → Running E K → Type 0
  Watched node (monitored callback interval t) =
      (interval ≢ 0)
      × Reach callback t.world t
      × ((u : Thread (Worker E K)) → Reach callback t.world u → Orderly (Lacks node) u)
  Watched node (placed e etcd) = Unit {0}

module _ {S A : Type 0} where
  -- If it returns, the result has `Q`.
  abbrev Gives : (A → Type 0) → Exec S A → Type 0
  Gives Q m = (s : S) (a : A) → (m s).0 ≡ ok a → Q a

module _ {S A B : Type 0} (Q : B → Type 0) where
  Gives-bind : (m : Exec S A) (f : A → Exec S B) → ((a : A) → Gives Q (f a)) → Gives Q (m >>= f)
  Gives-bind m f h s b e = go (m s).0 (m s).1 e
    where
      go : (o : Outcome A) (t : S) → (continue o f t).0 ≡ ok b → Q b
      go (ok a) t e = h a t b e
      go (fault x) t e = cc e

interval_ne : (interval : ℕ) → Thread.interval_of interval ≢ 0
unfolding Thread.interval_of
interval_ne interval = ground arith

module _ {E K : Type 0} (node : Bytes) where
  abbrev given_or : Running E K → Outcome (Running E K) → Running E K
  given_or r (ok a) = a
  given_or r (fault e) = r

  monitor-Watched :
      (callback : Exec (Worker E K) (Unit {0})) (interval : ℕ) (nic : Nic)
      → interval ≢ 0
      → ((w : Worker E K) → Lacks node w → Lacks node (callback w).1)
      → Gives (Watched node) (monitor callback interval nic)
  unfolding Watched Thread.start new_thread find
  monitor-Watched callback interval nic ne keeps s r e =
      subst (λ o. Watched node (given_or r o)) e
        (
          ne,
          later made (starts (new_thread (worker nic s)) refl),
          (λ u reach. Reach-Orderly (Lacks node) callback keeps {w = worker nic s} refl reach),
        )

  started-Watched :
      (callback : Exec (Worker E K) (Unit {0})) (interval : ℕ) (nic : Nic)
      → ((w : Worker E K) → Lacks node w → Lacks node (callback w).1)
      → Gives (Watched node) (do given node; monitor callback (Thread.interval_of interval) nic)
  started-Watched callback interval nic keeps =
      Gives-bind (Watched node) (given node)
        (λ u. monitor callback (Thread.interval_of interval) nic)
        (λ u.
          monitor-Watched callback (Thread.interval_of interval) nic (interval_ne interval) keeps)

  placed-Watched :
      (o : Outcome (Unit {0})) (e : Evpn K) (etcd : E) (r : Running E K)
      → and_then o (λ u. ok (placed e etcd)) ≡ ok r
      → Watched node r
  unfolding Watched
  placed-Watched (ok u) e etcd r h = subst (λ o. Watched node (given_or r o)) h tt
  placed-Watched (fault x) e etcd r h = cc

module _ {J E K : Type 0} (q : Equipment J E K) where
  start_evpn-Watched : (e : Evpn (Unit {0})) (node : Bytes) → Gives (Watched node) (start_evpn q e)
  unfolding start_evpn
  start_evpn-Watched e node s r h =
      placed-Watched node
        (env_setup q.boost q.netlink (record {
          vrf = e.vrf;
          bridge_l3 = e.bridge_l3;
          bridge_l2 = e.bridge_l2;
          vxlan = e.vxlan;
          kernel = s.1;
        })).0
        _ s.0 r h

  start_backend-Watched :
      (b : Backend E K) (node : Bytes) → Gives (Watched node) (start_backend q b node)
  unfolding start_backend
  start_backend-Watched (Backend.hostgw v interval nic) node =
      started-Watched node (HostGw.event_handler v node) interval nic
        (HostGwItself.event_handler-Keeps v node)
  start_backend-Watched (Backend.vxlan v interval nic) node =
      started-Watched node (Vxlan.event_handler v node) interval nic
        (VxlanItself.event_handler-Keeps v node)
  start_backend-Watched (Backend.evpn e) node = start_evpn-Watched e node

  -- For every configuration that is read and every state of ETCD and of the system: if
  -- `executeStrategy` returns and a thread runs, the 32 bits of the interval between two rounds are not
  -- all zero, which a negative interval satisfies too; and whatever it and the main thread do later, in any order: it is never replaced by another thread,
  -- outside `stop` the flag is false only where there is no thread, and its cache, the nodes that it has
  -- made routes to, never has its own node.
  pub execute_strategy-Watched :
      (bkinfo : BackendInfo) (node : Bytes) (s : E × K) (r : Running E K)
      → (execute_strategy q bkinfo node s).0 ≡ ok r
      → Watched node r
  unfolding execute_strategy
  execute_strategy-Watched bkinfo node = Gives-bind (Watched node) _ _ (λ text.
      Gives-bind (Watched node) (lift (config_of q text)) _ (λ conf.
        Gives-bind (Watched node) (get_strategy q bkinfo conf.ipam.mode conf.bridge) _
          (λ b. start_backend-Watched b node)))
