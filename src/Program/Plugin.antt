-- ===== src/Program/Plugin.antt =====
-- src/ohno.cc: `getCniPlugin` changes ETCD and the system, and nothing else of the process.
use ohno.Common.{Bool, if◌then◌else◌}
use ohno.Common.Exec.{Exec, Fault, Keeps, Keeps-bind, Keeps-if, cni_error, pure, stop}
use ohno.Backend.Center.Files.{on_host, get_api_server, get_etcd_clusters}
use ohno.Backend.Center.Health.{new_center, test}
use ohno.Ipam
use ohno.Storage
use ohno.Cni.{CniConfig, Cni, Parts, World, cni_errcode_ohno}
use ohno.Cni.Restore.{parse_config}
use ohno.Program.{Machine, Process, on_etcd, on_kernel, on_world, get_cni_plugin, new_cni, connect}

module _ {J E K : Type 0} (m : Machine J E K) (P : Process J E K → Type 0)
    (free : (e : E) (k : K) (p : Process J E K) → P p → P (record p { etcd = e; kernel = k })) where
  etcd_free : {A : Type 0} (c : Exec E A) → Keeps P (on_etcd c)
  etcd_free c p h = free (c p.etcd).1 p.kernel p h

  kernel_free : {A : Type 0} (c : Exec K A) → Keeps P (on_kernel c)
  kernel_free c p h = free p.etcd (c p.kernel).1 p h

  pub world_free : {A : Type 0} (c : Cni) (w : Exec (World E K) A) → Keeps P (on_world c w)
  world_free c w p h =
      let r = w (record { cni = c; etcd = p.etcd; kernel = p.kernel }) in
      free r.1.etcd r.1.kernel p h

  stop_or_go : (b : Bool) (e : Fault) → Keeps {A = Unit {0}} P (if b then pure tt else stop e)
  stop_or_go b e = Keeps-if P b (pure tt) (stop e) (λ p h. h) (λ p h. h)

  connect-Keeps : (config : CniConfig) (v : Parts E K) → Keeps P (connect m config v)
  unfolding connect
  connect-Keeps config v =
      Keeps-bind P (on_etcd (Ipam.init v.etcd_client)) _ (etcd_free (Ipam.init v.etcd_client))
        (λ ipam.
          Keeps-bind P (if ipam then pure tt else stop (cni_error cni_errcode_ohno)) _
            (stop_or_go ipam (cni_error cni_errcode_ohno))
            (λ u.
              Keeps-bind P (on_etcd (Storage.init v.etcd_client)) _
                (etcd_free (Storage.init v.etcd_client))
                (λ storage.
                  Keeps-bind P (if storage then pure tt else stop (cni_error cni_errcode_ohno)) _
                    (stop_or_go storage (cni_error cni_errcode_ohno))
                    (λ u.
                      Keeps-bind P (on_world (new_cni m config) (parse_config config)) _
                        (world_free (new_cni m config) (parse_config config)) (λ made p h. h)))))

  pub get_cni_plugin-Keeps : (config : CniConfig) → Keeps P (get_cni_plugin m config)
  unfolding get_cni_plugin
  get_cni_plugin-Keeps config =
      Keeps-bind P (on_kernel (get_api_server m.files on_host)) _
        (kernel_free (get_api_server m.files on_host))
        (λ api_server.
          Keeps-bind P (on_kernel (new_center m.files m.disk api_server config.ssl on_host)) _
            (kernel_free (new_center m.files m.disk api_server config.ssl on_host))
            (λ center.
              Keeps-bind P (on_kernel (test m.api center)) _ (kernel_free (test m.api center))
                (λ healthy.
                  Keeps-bind P (if healthy then pure tt else stop (cni_error 7)) _
                    (stop_or_go healthy (cni_error 7))
                    (λ u.
                      Keeps-bind P (on_kernel (get_etcd_clusters m.files)) _
                        (kernel_free (get_etcd_clusters m.files))
                        (λ etcd_server. connect-Keeps config (m.parts etcd_server center))))))
