-- ===== src/Backend/Strategy.antt =====
-- src/backend/strategy_client.cc, src/backend/scheduler.cc and the `start` of each backend: which backend
-- the daemon runs. `netlink_` is not null.
pub mod Watched
use ohno.Common.{ℕ, ◌==◌, Bool, true, false, not, Option, none, some, [], if◌then◌else◌}
use ohno.Common.Bytes.{Bytes, codes, empty}
use ohno.Common.Exec.{
  Exec, Outcome, ok, fault, exception, pure, stop, lift, check, and_then, ◌>>=◌, ◌>>◌,
}
use ohno.Json.{Json}
use ohno.Json.Plugin.{default_config, from_config}
use ohno.Etcd.Client.{EtcdClient}
use ohno.Etcd.Shell.{Shell}
use ohno.Ipam
use ohno.Ipam.{NodeInfo}
use ohno.Storage
use ohno.Storage.{given}
use ohno.Registry.{Map}
use ohno.Net.Boost.{Boost}
use ohno.Net.Netlink.{Netlink}
use ohno.Net.Nic.{Nic}
use ohno.Net.Device.{Device, Class, make}
use ohno.Cni.{Mode, CniConfig}
use ohno.Backend.{Services, Worker}
use ohno.Backend.Center.Nodes.{Api, Access}
use ohno.Backend.Center.Files.{Files, in_pod, get_etcd_clusters}
use ohno.Backend.Center.Health.{Disk, new_center, test}
use ohno.Backend.HostGw
use ohno.Backend.Vxlan
use ohno.Backend.Evpn
use ohno.Backend.Evpn.{Evpn, get_evpn, env_setup, env_cleanup}
use ohno.Backend.Thread
use ohno.Backend.Thread.{Thread, new_thread}

-- `refresh_interval_` is an `int`, here by its 32 bits.
pub record BackendInfo : Type 0 where
  pub api_server : Bytes
  pub ssl : Bool
  pub refresh_interval : ℕ

-- What the strategies are made of: the file system, the API server, the shell, the netlink object, the
-- clients of ETCD by its addresses, all nodes by the members of the `Center`, and the JSON library.
pub record Equipment (J E K : Type 0) : Type 0 where
  pub boost : Boost
  pub files : Files K
  pub disk : Disk K
  pub api : Api K
  pub shell : Shell K
  pub netlink : Netlink K
  pub client : Bytes → EtcdClient E
  pub nodes : Access → Exec E (Map NodeInfo)
  pub json : Json J
  pub parse : Bytes → Outcome J

-- A `HostGw`, a `Vxlan` or an `Evpn`: the first two have an interval and an interface, the third has
-- four interfaces, which keep no state of the system.
pub data Backend (E K : Type 0) : Type 0 where
  hostgw : Services E K → ℕ → Nic → Backend E K
  vxlan : Services E K → ℕ → Nic → Backend E K
  evpn : Evpn (Unit {0}) → Backend E K

-- A backend that was started: its callback, the interval, and its thread, which works on ETCD and on
-- the system from then on; or the interfaces, which have no thread.
pub data Running (E K : Type 0) : Type 0 where
  monitored : Exec (Worker E K) (Unit {0}) → ℕ → Thread (Worker E K) → Running E K
  placed : Evpn K → E → Running E K

-- `PATH_CNI_CONF`
abbrev pub path_cni_conf : Bytes
path_cni_conf = codes "/etc/cni/net.d/ohno.json"

module _ {E K : Type 0} where
  abbrev on_etcd : {A : Type 0} → Exec E A → Exec (E × K) A
  on_etcd m s = let r = m s.0 in (r.0, (r.1, s.1))

  abbrev on_kernel : {A : Type 0} → Exec K A → Exec (E × K) A
  on_kernel m s = let r = m s.1 in (r.0, (s.0, r.1))

  -- What a started thread works on.
  abbrev pub worker : Nic → E × K → Worker E K
  worker nic s = record { nic = nic; node_cache = []; etcd = s.0; kernel = s.1 }

  -- The backend's thread, started on the state as it is.
  abbrev pub monitor : Exec (Worker E K) (Unit {0}) → ℕ → Nic → Exec (E × K) (Running E K)
  monitor callback interval nic s =
      (ok (monitored callback interval (Thread.start (new_thread (worker nic s)))), s)

-- A new interface that has its netlink object.
abbrev pub set_up : Nic
set_up = record (make Class.plain).base { locked = true }

module _ {J E K : Type 0} (q : Equipment J E K) where
  unfoldable pub etcd_client : Exec (E × K) (EtcdClient E)
  etcd_client = do etcd_server ← on_kernel (get_etcd_clusters q.files); pure (q.client etcd_server)

  unfoldable pub services : EtcdClient E → Access → Services E K
  services client center = record {
    etcd_client = client;
    netlink = q.netlink;
    get_kubernetes_data = q.nodes center;
  }

  -- `getHostgw` and `getVxlan`: the client of the `Ipam` and of the `Storage`.
  unfoldable pub get_hostgw : Exec (E × K) (EtcdClient E)
  unfolding etcd_client
  get_hostgw = do
    client ← etcd_client
    ready ← on_etcd (Ipam.init client)
    if ready then pure client else stop exception

  pub get_vxlan : Exec (E × K) (EtcdClient E)
  unfolding etcd_client
  get_vxlan = do
    client ← etcd_client
    ready ← on_etcd (Storage.init client)
    if ready then pure client else stop exception

  -- The object of the mode, which waits for its `Center`, its interval and its interface.
  unfoldable pub chosen : ℕ → Mode → Bytes → Exec (E × K) (Access → Backend E K)
  unfolding services get_hostgw get_vxlan
  chosen interval Mode.host_gw l2svi = do
    client ← get_hostgw
    pure (λ center. Backend.hostgw (services client center) interval set_up)
  chosen interval Mode.vxlan l2svi = do
    client ← get_vxlan
    pure (λ center. Backend.vxlan (services client center) interval set_up)
  chosen interval Mode.evpn l2svi = do
    d ← on_kernel (get_evpn q.boost q.netlink q.shell l2svi)
    pure (λ center.
        Backend.evpn
          (record { vrf = d.0; bridge_l3 = d.1; bridge_l2 = d.2; vxlan = d.3; kernel = tt }))
  chosen interval Mode.reserved l2svi = stop exception

  unfoldable pub get_strategy : BackendInfo → Mode → Bytes → Exec (E × K) (Backend E K)
  unfolding chosen
  get_strategy bkinfo mode l2svi = do
    given bkinfo.api_server
    check (not (bkinfo.refresh_interval == 0))
    strategy ← chosen bkinfo.refresh_interval mode l2svi
    center ← on_kernel (new_center q.files q.disk bkinfo.api_server bkinfo.ssl in_pod)
    healthy ← on_kernel (test q.api center)
    if healthy then pure (strategy center) else stop exception

  -- `Evpn::start`
  start_evpn : Evpn (Unit {0}) → Exec (E × K) (Running E K)
  start_evpn e s =
      let r = env_setup q.boost q.netlink (record {
        vrf = e.vrf;
        bridge_l3 = e.bridge_l3;
        bridge_l2 = e.bridge_l2;
        vxlan = e.vxlan;
        kernel = s.1;
      }) in
      (and_then r.0 (λ u. ok (placed r.1 s.0)), (s.0, r.1.kernel))

  -- `start` of the backend.
  unfoldable pub start_backend : Backend E K → Bytes → Exec (E × K) (Running E K)
  unfolding start_evpn
  start_backend (Backend.hostgw v interval nic) node_name = do
    given node_name
    monitor (HostGw.event_handler v node_name) (Thread.interval_of interval) nic
  start_backend (Backend.vxlan v interval nic) node_name = do
    given node_name
    monitor (Vxlan.event_handler v node_name) (Thread.interval_of interval) nic
  start_backend (Backend.evpn e) node_name = start_evpn e

  unfoldable pub config_of : Option Bytes → Outcome CniConfig
  config_of none = fault exception
  config_of (some text) = and_then (q.parse text) (from_config q.json default_config)

  -- `executeStrategy`, with `start` of the scheduler.
  unfoldable pub execute_strategy : BackendInfo → Bytes → Exec (E × K) (Running E K)
  unfolding config_of get_strategy start_backend
  execute_strategy bkinfo node_name = do
    text ← on_kernel (q.files.read path_cni_conf)
    cni_conf ← lift (config_of text)
    strategy ← get_strategy bkinfo cni_conf.ipam.mode cni_conf.bridge
    start_backend strategy node_name

  -- `stopStrategy`, with `stop` of the scheduler; a thread is waited for by the steps that follow.
  pub stop_strategy : Running E K → Outcome (Running E K)
  stop_strategy (monitored callback interval t) = ok (monitored callback interval (Thread.stop t))
  stop_strategy (placed e etcd) =
      let r = env_cleanup q.boost q.netlink e in and_then r.0 (λ u. ok (placed r.1 etcd))
