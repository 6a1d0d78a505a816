-- ===== src/Etcd.antt =====
-- src/etcd: the ETCD client. `Client` is the interface with what its users rely on, `Shell` the
-- implementation that runs `etcdctl`.
pub mod Words
pub mod Client
pub mod Values
pub mod Shell
pub mod Env
