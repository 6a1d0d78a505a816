-- ===== src/Backend/Center/Health/Insecure.antt =====
-- src/backend/center.cc: a `Center` that is made without SSL.
use mathlib.Core.List.{append-ne-nil_of_right_ne-nil, cons-ne-nil}
use ohno.Common.{◌≡◌, ◌≢◌, refl, false, [], ◌++◌}
use ohno.Common.Bytes.{Bytes, codes, empty, empty_ne}
use ohno.Common.Exec.{ok, fault, assertion}
use ohno.Backend.Center.Nodes.{
  Api, Access, get_nodes, get_all_kubernetes_data, get_http_response, or_else,
}
use ohno.Backend.Center.Files.{Files, Environment}
use ohno.Backend.Center.Health.{Disk, new_center, test, test_body}

module _ {K : Type 0} (files : Files K) (disk : Disk K) (api : Api K) where
  -- For every file system, every API server that is not empty and both environments: the constructor
  -- without SSL returns and reads no file; `test` of the object that it makes, and every request for
  -- all nodes, end by a failed assertion and ask the server nothing.
  pub new_center-insecure :
      (api_server : Bytes) (type : Environment) (k l : K)
      → api_server ≢ []
      → (self : Access) × (new_center files disk api_server false type k ≡ (ok self, k))
        × (test api self l ≡ (fault assertion, l))
        × (get_all_kubernetes_data api self l ≡ (fault assertion, l))
  unfolding new_center test test_body get_http_response or_else get_all_kubernetes_data get_nodes
      empty
  new_center-insecure api_server type k l given =
      let self : Access = record {
        api_server = api_server;
        ssl = false;
        ca_path = [];
        token = [];
      } in
      let uri = api_server ++ codes "/healthz" in
      (
        self,
        refl,
        rw
            (
              empty_ne uri
                  (append-ne-nil_of_right_ne-nil api_server (cons-ne-nil b'/' (codes "healthz"))),
              empty_ne api_server given,
            )
            refl,
        rw (empty_ne api_server given) refl,
      )
