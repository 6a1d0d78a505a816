-- ===== src/Backend/Center/Files.antt =====
-- src/backend/center.cc: the addresses of the API server and of ETCD, from a file or from the
-- environment. The file system and the environment are parameters.
pub mod Address
use ohno.Common.{
  ℕ, zero, suc, ◌+◌, Bool, true, false, not, ◌&&◌, ◌||◌, ◌==◌, leb, length, Option, none, some,
  List, [], ◌∷◌, ◌++◌, if◌then◌else◌,
}
use ohno.Common.Bytes.{Bytes, codes, empty}
use ohno.Common.Exec.{
  Exec, Outcome, ok, fault, exception, assertion, pure, lift, check, and_then, ◌>>=◌, ◌>>◌,
}
use ohno.Helper.{until}
use ohno.Net.Nic.{starts_with, drop}

-- `Center::Type`
pub data Environment : Type 0 where
  on_host in_pod : Environment

-- The text of a file that can be opened.
pub record Files (K : Type 0) : Type 0 where
  pub read : Bytes → Exec K (Option Bytes)
  pub env : Bytes → Bytes

-- `HOST_FILE`
abbrev pub host_file : Bytes
host_file = codes "/etc/kubernetes/kubelet.conf"

-- `content.erase(std::remove(begin, end, '\n'), end)`
unfoldable pub remove_newlines : Bytes → Bytes
remove_newlines [] = []
remove_newlines (c ∷ s) = let rest = remove_newlines s in if c == 10 then rest else c ∷ rest

-- `s.substr(s.find(p))`, or none where `p` is not found.
unfoldable pub find_from : Bytes → Bytes → Option Bytes
find_from p [] = if starts_with p [] then some [] else none
find_from p (c ∷ s) =
    let rest = find_from p s in if starts_with p (c ∷ s) then some (c ∷ s) else rest

unfoldable pub opened : Option Bytes → Outcome Bytes
unfolding remove_newlines
opened none = fault exception
opened (some text) = ok (remove_newlines text)

-- Behind the name of the field and one more character; `substr` throws behind the end.
unfoldable pub value_of : Option Bytes → Outcome Bytes
value_of none = ok []
value_of (some field) =
    if leb 8 (length field) then ok (until 32 (drop 8 field)).0 else fault exception

unfoldable pub server_of : Option Bytes → Outcome Bytes
unfolding value_of
server_of none = ok []
server_of (some clusters) = value_of (find_from (codes "server:") clusters)

-- What `getServerUrl` makes of the file's text.
unfoldable pub url_of : Bytes → Outcome Bytes
unfolding server_of
url_of yaml = if empty yaml then ok [] else server_of (find_from (codes "clusters:") yaml)

-- The host of an address, up to a colon or to the end.
unfoldable pub host_of : Option Bytes → Outcome Bytes
host_of none = fault assertion
host_of (some rest) = ok (until b':' (drop 3 rest)).0

unfoldable pub etcd_of : Bytes → Outcome Bytes
unfolding host_of
etcd_of uri =
    and_then (host_of (find_from (codes "://") uri))
      (λ name. ok (codes "https://" ++ name ++ codes ":2379"))

-- Exceptions are caught, and the result is empty.
unfoldable pub or_empty : Outcome Bytes → Outcome Bytes
or_empty (ok x) = ok x
or_empty (fault exception) = ok []
or_empty (fault e) = fault e

abbrev or_default : Bytes → Bytes → Bytes
or_default d text = if empty text then d else text

module _ {K : Type 0} (files : Files K) where
  unfoldable pub read_file : Bytes → Exec K Bytes
  unfolding opened
  read_file filename = do
    check (not (empty filename))
    text ← files.read filename
    lift (opened text)

  unfoldable pub get_server_url : Bytes → Exec K Bytes
  unfolding read_file url_of
  get_server_url conf_path = do yaml ← read_file conf_path; lift (url_of yaml)

  unfoldable pub etcd_body : Exec K Bytes
  unfolding get_server_url etcd_of
  etcd_body = do uri ← get_server_url host_file; lift (etcd_of uri)

  unfoldable pub get_etcd_clusters : Exec K Bytes
  unfolding etcd_body or_empty
  get_etcd_clusters k = let r = etcd_body k in (or_empty r.0, r.1)

  unfoldable pub api_body : Environment → Exec K Bytes
  unfolding get_server_url
  api_body on_host = get_server_url host_file
  api_body in_pod =
      let name = files.env (codes "KUBERNETES_SERVICE_HOST") in
      let port = files.env (codes "KUBERNETES_SERVICE_PORT") in
      pure (
        if empty name
        then codes "https://kubernetes.default.svc.cluster.local"
        else codes "https://" ++ name ++ b':' ∷ or_default (codes "443") port)

  unfoldable pub get_api_server : Environment → Exec K Bytes
  unfolding api_body or_empty
  get_api_server type k = let r = api_body type k in (or_empty r.0, r.1)
