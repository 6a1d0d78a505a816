-- ===== src/Backend/Center/Health.antt =====
-- src/backend/center.cc: what the constructor reads from the file system, and `test`. The file system is a
-- parameter.
pub mod Insecure
use ohno.Common.{Bool, true, false, ◌==◌, ◌&&◌, ◌||◌, [], ◌++◌, if◌then◌else◌}
use ohno.Common.Bytes.{Bytes, codes, empty}
use ohno.Common.Exec.{Exec, exception, pure, stop, ◌>>=◌, ◌>>◌}
use ohno.Backend.Center.Nodes.{Api, Access, get_http_response, or_else}
use ohno.Backend.Center.Files.{Files, Environment, on_host, in_pod, read_file, or_empty}

-- `std::filesystem::exists`, and a file that is opened for writing and written to, where it can be
-- opened.
pub record Disk (K : Type 0) : Type 0 where
  pub exists : Bytes → Exec K Bool
  pub write : Bytes → Bytes → Exec K (Unit {0})

unfoldable pub is_pod : Environment → Bool
is_pod in_pod = true
is_pod on_host = false

-- `PATH_CA_POD`, `PATH_CA_HOST` and `PATH_TOKEN_HOST`
unfoldable pub get_ssl_dir : Environment → Bool → Bytes
get_ssl_dir in_pod host_ca = codes "/var/run/secrets/kubernetes.io/serviceaccount"
get_ssl_dir on_host host_ca = if host_ca then codes "/etc/kubernetes/pki" else codes "/var/run/ohno"

unfoldable pub token_path : Environment → Bytes
unfolding get_ssl_dir
token_path type = get_ssl_dir type false ++ codes "/token"

module _ {K : Type 0} (files : Files K) (disk : Disk K) where
  -- The body of the `try`: in a pod the token is written to the host too.
  unfoldable pub token_body : Environment → Exec K Bytes
  unfolding token_path is_pod
  token_body type = do
    token ← read_file files (token_path type)
    if is_pod type then disk.write (token_path on_host) token else pure tt
    pure token

  unfoldable pub get_token : Environment → Exec K Bytes
  unfolding token_body
  get_token type k = let r = token_body type k in (or_empty r.0, r.1)

  unfoldable pub get_ca : Environment → Exec K Bytes
  unfolding get_ssl_dir
  get_ca type = do
    let pathname = get_ssl_dir type true ++ codes "/ca.crt"
    there ← disk.exists pathname
    pure (if there then pathname else [])

  -- `Center::Center`
  unfoldable pub new_center : Bytes → Bool → Environment → Exec K Access
  unfolding get_token get_ca
  new_center api_server insecure type = do
    ca_path ← if insecure then get_ca type else pure []
    token ← if insecure then get_token type else pure []
    pure (record { api_server = api_server; ssl = insecure; ca_path = ca_path; token = token })

module _ {K : Type 0} (api : Api K) (self : Access) where
  unfoldable pub test_body : Exec K Bool
  test_body = if self.ssl && (empty self.ca_path || empty self.token) then stop exception else (do
    r ← get_http_response api self (self.api_server ++ codes "/healthz")
    if r.0 == 200 then pure true else stop exception)

  unfoldable pub test : Exec K Bool
  unfolding test_body
  test k = let r = test_body k in (or_else false r.0, r.1)
