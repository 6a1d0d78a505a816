-- ===== src/Tests/Documents.antt =====
-- A JSON library, an environment, and a process; the theorems on them.
use ohno.Common.{
  ◌↔◌, ◌≢◌, ◌++◌, ℕ, ◌≡◌, refl, ap, Bool, true, Option, none, some, List, [], ◌∷◌, if◌then◌else◌,
}
use ohno.Common.Bytes.{Bytes, codes, eqb, eqb_refl}
use ohno.Common.Exec.{Outcome, ok, fault, exception}
use ohno.Registry.{Map, find}
use ohno.Log.{warn}
use ohno.Cni.{Mode, CniConfig}
use ohno.Common.Exec.{or_throw}
use ohno.Json.{Json, JsonLaws, given_member}
use ohno.Json.Plugin.{
  CniEnv, CniError, new_error, default_config, from_config, to_config, from_env, to_env, from_error,
  to_error, from_result, to_result, from_version, to_version,
}
use ohno.Json.Plugin.RoundTrip.{from_json-to_json}
use ohno.Cni.Commands.{CniResult, CniVersion}
use ohno.Util.Command.{Ended, Child, ExitCode, IsLast, execute, execute_with_error, execute_lem}
use ohno.Etcd.Env.{Posix, PosixLaws}
use ohno.Etcd.Shell.Life.{
  EtcdData, constructed, destructed, etcdctl_version, version_for, destructed-constructed,
}

-- Lists and objects end with `nothing`.
pub data Value : Type 0 where
  nothing : Value
  text : Bytes → Value
  flag : Bool → Value
  count : ℕ → Value
  item : Value → Value → Value
  entry : Bytes → Value → Value → Value

pub of_list : List Value → Value
of_list [] = nothing
of_list (x ∷ xs) = item x (of_list xs)

pub to_list : Value → List Value
to_list nothing = []
to_list (text s) = []
to_list (flag b) = []
to_list (count n) = []
to_list (item x rest) = x ∷ to_list rest
to_list (entry k x rest) = []

pub of_map : Map Value → Value
of_map [] = nothing
of_map ((k, x) ∷ m) = entry k x (of_map m)

pub to_map : Value → Map Value
to_map nothing = []
to_map (text s) = []
to_map (flag b) = []
to_map (count n) = []
to_map (item x rest) = []
to_map (entry k x rest) = (k, x) ∷ to_map rest

abbrev as_text : Value → Outcome Bytes
as_text (text s) = ok s
as_text v = fault exception

abbrev as_flag : Value → Outcome Bool
as_flag (flag b) = ok b
as_flag v = fault exception

abbrev as_count : Value → Outcome ℕ
as_count (count n) = ok n
as_count v = fault exception

to_list-of_list : (xs : List Value) → to_list (of_list xs) ≡ xs
unfolding of_list to_list
to_list-of_list [] = refl
to_list-of_list (x ∷ xs) = ap (λ l. x ∷ l) (to_list-of_list xs)

to_map-of_map : (m : Map Value) → to_map (of_map m) ≡ m
unfolding of_map to_map
to_map-of_map [] = refl
to_map-of_map ((k, x) ∷ m) = ap (λ l. (k, x) ∷ l) (to_map-of_map m)

abbrev pub documents : Json Value
documents = record {
  string = text;
  boolean = flag;
  number = count;
  array = of_list;
  object = of_map;
  contains = λ v key. given_member (find key (to_map v));
  at = λ v key. or_throw (find key (to_map v));
  get_string = as_text;
  get_boolean = as_flag;
  get_number = as_count;
  get_array = λ v. ok (to_list v);
}

pub documents-JsonLaws : JsonLaws documents
documents-JsonLaws = record {
  contains_object = λ members key. ap (λ m. given_member (find key m)) (to_map-of_map members);
  at_object = λ members key. ap (λ m. or_throw (find key m)) (to_map-of_map members);
  string_read = λ s. refl;
  boolean_read = λ b. refl;
  number_read = λ n. refl;
  array_read = λ xs. ap ok (to_list-of_list xs);
}

abbrev pub host_gw_config : CniConfig
host_gw_config = record default_config {
  name = codes "podnet";
  loglevel = warn;
  ipam = record { subnet = codes "10.244.0.0/16"; mode = Mode.host_gw };
}

abbrev env : CniEnv
env = record {
  command = codes "ADD";
  container_id = codes "c1";
  netns = codes "/var/run/netns/c1";
  ifname = codes "eth0";
}

abbrev empty_env : CniEnv
empty_env = record { command = []; container_id = []; netns = []; ifname = [] }

abbrev result : CniResult
result = record {
  cniversion = codes "0.3.1";
  ips = record { address = codes "10.244.1.2/24"; gateway = codes "10.244.1.1" } ∷ [];
  interfaces = record { name = codes "eth0"; sandbox = codes "/var/run/netns/c1" } ∷ [];
}

abbrev pub empty_result : CniResult
empty_result = record { cniversion = []; ips = []; interfaces = [] }

abbrev versions : CniVersion
versions = record {
  cni_version = codes "0.3.1";
  supported_versions = codes "0.3.0" ∷ codes "0.3.1" ∷ [];
}

abbrev no_version : CniVersion
no_version = record { cni_version = []; supported_versions = [] }

abbrev error : CniError
error = new_error 7 (codes "Bridge name is empty")

abbrev no_error : CniError
no_error = new_error 0 []

from_json-to_json_example :
    (from_config documents default_config (to_config documents host_gw_config) ≡ ok host_gw_config)
    × (from_env documents empty_env (to_env documents env) ≡ ok env)
    × (from_error documents no_error (to_error documents error) ≡ ok error)
    × (from_result documents empty_result (to_result documents result) ≡ ok result)
    × (from_version documents no_version (to_version documents versions) ≡ ok versions)
from_json-to_json_example =
    from_json-to_json documents documents-JsonLaws host_gw_config default_config env empty_env error
      no_error result empty_result versions no_version

-- Variables as a function.
abbrev variables : Posix (Bytes → Option Bytes)
variables = record {
  getenv = λ name s. s name;
  setenv = λ name value s. (true, λ k. if eqb name k then some value else s k);
  unsetenv = λ name s. (true, λ k. if eqb name k then none else s k);
}

variables-PosixLaws : PosixLaws variables
variables-PosixLaws = record {
  set_here = λ name value s done. rw (eqb_refl name) refl;
  unset_here = λ name s done. rw (eqb_refl name) refl;
}

-- An older version of the interface was chosen.
abbrev old_api : Bytes → Option Bytes
old_api name = if eqb name etcdctl_version then some (codes "2") else none

abbrev local : EtcdData
local = record {
  endpoints = codes "https://127.0.0.1:2379";
  ca_cert = codes "/ca.crt";
  cert = codes "/client.crt";
  key = codes "/client.key";
}

destructed-constructed_example :
    ((constructed variables local old_api).1 etcdctl_version
      ≡ some (version_for (old_api etcdctl_version)))
    × ((destructed variables (constructed variables local old_api).1).1 etcdctl_version ≡ none)
destructed-constructed_example =
    destructed-constructed variables variables-PosixLaws local old_api (λ value t. refl) (λ t. refl)

-- A command that prints a line and fails.
abbrev left : Ended
left = record { status = 2; output = codes "up\n"; error = codes "no route" }

abbrev process : Child (Unit {0})
process = record { run = λ command s. (ok left, s) }

execute_lem_example :
    (shown : Bytes) × (b : Bool) × IsLast left.output shown
    × ((execute process (codes "ip route") [] tt).0 ≡ ok (b, shown))
    × ((b ≡ true) ↔ (left.status ≡ 0))
    × (left.status ≢ 0
        → (execute_with_error process (codes "ip route") [] [] tt).0
          ≡ ok (ExitCode.status left.status, shown, left.output ++ left.error))
execute_lem_example = execute_lem process (codes "ip route") tt (λ e. cc) refl
