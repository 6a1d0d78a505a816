-- ===== src/Json/Plugin.antt =====
-- src/cni/cni_config.cc, src/cni/cni_env.cc, src/cni/cni_error.cc and src/cni/cni_result.cc: the texts
-- that the plugin reads and prints, as values of the JSON library.
pub mod RoundTrip
pub mod Given
use ohno.Common.{ℕ, ◌==◌, Bool, true, List, [], ◌∷◌, none, some, if◌then◌else◌}
use ohno.Common.Bytes.{Bytes, codes}
use ohno.Common.Exec.{Outcome, ok, and_then}
use ohno.Log.{Level, level_name, level_or, named, info, debug, logfile_default}
use ohno.Cni.{Mode, CniConfig, CniConfigIpam}
use ohno.Cni.Commands.{CniResult, CniResultIps, CniResultInterfaces, CniVersion}
use ohno.Json.{Json, member, map, array_of}

-- `enumName` of a mode.
pub mode_name : Mode → Bytes
mode_name Mode.reserved = codes "RESERVED"
mode_name Mode.host_gw = codes "host_gw"
mode_name Mode.vxlan = codes "vxlan"
mode_name Mode.evpn = codes "evpn"

abbrev pub modes : List Mode
modes = Mode.reserved ∷ Mode.host_gw ∷ Mode.vxlan ∷ Mode.evpn ∷ []

-- A mode that has no such name is `host_gw`.
pub mode_of : Bytes → Mode
unfolding mode_name
mode_of s = elim (named mode_name modes s) [ none ↦ Mode.host_gw | some m ↦ m ]

-- The members of a new `CniConfigIpam` and of a new `CniConfig`.
abbrev pub default_ipam : CniConfigIpam
default_ipam = record { subnet = codes "10.244.0.0/16"; mode = Mode.evpn }

abbrev pub default_config : CniConfig
default_config = record {
  cni_version = codes "0.3.1";
  name = codes "mynet";
  type = codes "ohno";
  bridge = codes "ohnobr";
  log = logfile_default;
  loglevel = debug;
  ssl = true;
  ipam = default_ipam;
}

pub record CniEnv : Type 0 where
  pub command : Bytes
  pub container_id : Bytes
  pub netns : Bytes
  pub ifname : Bytes

-- `CniError`, with the message of its base class.
pub record CniError : Type 0 where
  pub cniversion : Bytes
  pub code : ℕ
  pub msg : Bytes
  pub details : Bytes

-- The message that the constructor chooses by the code.
abbrev message_of : ℕ → Bytes
message_of code =
    if code == 1
    then codes "Incompatible CNI version"
    else if code == 2
    then codes
        "Unsupported field in network configuration. The error message must contain the key and value of the unsupported field."
    else if code == 3
    then codes
        "Container unknown or does not exist. This error implies the runtime does not need to perform any container network cleanup (for example, calling the DEL action on the container)."
    else if code == 4
    then codes
        "Invalid necessary environment variables, like CNI_COMMAND, CNI_CONTAINERID, etc. The error message must contain the names of invalid variables."
    else if code == 5
    then codes "I/O failure. For example, failed to read network config bytes from stdin."
    else if code == 6
    then codes
        "Failed to decode content. For example, failed to unmarshal network config from bytes or failed to decode version info from string."
    else if code == 7
    then codes
        "Invalid network config. If some validations on network configs do not pass, this error will be raised."
    else if code == 11
    then codes
        "Try again later. If the plugin detects some transient condition that should clear up, it can use this code to notify the runtime it should re-try the operation later."
    else if code == 278
    then codes "Kubernetes cluster environment troubles (by ohno)"
    else if code == 287
    then codes "Not supported (by ohno)"
    else codes "Custom error code supported by specific vendors."

pub new_error : ℕ → Bytes → CniError
new_error code details = record {
  cniversion = codes "1.1.0";
  code = code;
  msg = message_of code;
  details = details;
}

module _ {J : Type 0} (j : Json J) where
  pub from_ipam : CniConfigIpam → J → Outcome CniConfigIpam
  unfolding mode_of
  from_ipam ipam json =
      and_then (member j json (codes "subnet") ipam.subnet j.get_string) (λ subnet.
        and_then
          (member j json (codes "mode") ipam.mode
            (λ v. and_then (j.get_string v) (λ s. ok (mode_of s))))
          (λ mode. ok (record { subnet = subnet; mode = mode })))

  pub to_ipam : CniConfigIpam → J
  to_ipam ipam =
      j.object (
        (codes "subnet", j.string ipam.subnet)
        ∷ (codes "mode", j.string (mode_name ipam.mode))
        ∷ [])

  -- The object is filled member by member; `get<CniConfigIpam>` fills a new one.
  pub from_config : CniConfig → J → Outcome CniConfig
  unfolding from_ipam
  from_config conf json =
      and_then (member j json (codes "cniVersion") conf.cni_version j.get_string) (λ cni_version.
        and_then (member j json (codes "name") conf.name j.get_string) (λ name.
          and_then (member j json (codes "type") conf.type j.get_string) (λ type.
            and_then (member j json (codes "bridge") conf.bridge j.get_string) (λ bridge.
              and_then (member j json (codes "log") conf.log j.get_string) (λ log.
                and_then
                  (member j json (codes "logLevel") conf.loglevel
                    (λ v. and_then (j.get_string v) (λ s. ok (level_or info s))))
                  (λ loglevel. and_then (member j json (codes "ssl") conf.ssl j.get_boolean) (λ ssl.
                    and_then (member j json (codes "ipam") conf.ipam (from_ipam default_ipam))
                      (λ ipam. ok (record {
                        cni_version = cni_version;
                        name = name;
                        type = type;
                        bridge = bridge;
                        log = log;
                        loglevel = loglevel;
                        ssl = ssl;
                        ipam = ipam;
                      })))))))))

  pub to_config : CniConfig → J
  unfolding to_ipam
  to_config conf = j.object (
      (codes "cniVersion", j.string conf.cni_version)
      ∷ (codes "name", j.string conf.name)
      ∷ (codes "type", j.string conf.type)
      ∷ (codes "bridge", j.string conf.bridge)
      ∷ (codes "log", j.string conf.log)
      ∷ (codes "logLevel", j.string (level_name conf.loglevel))
      ∷ (codes "ssl", j.boolean conf.ssl)
      ∷ (codes "ipam", to_ipam conf.ipam)
      ∷ [])

  pub from_env : CniEnv → J → Outcome CniEnv
  from_env env json =
      and_then (member j json (codes "CNI_COMMAND") env.command j.get_string) (λ command.
        and_then (member j json (codes "CNI_CONTAINERID") env.container_id j.get_string)
          (λ container_id.
            and_then (member j json (codes "CNI_NETNS") env.netns j.get_string) (λ netns.
              and_then (member j json (codes "CNI_IFNAME") env.ifname j.get_string) (λ ifname.
                ok (record {
                  command = command;
                  container_id = container_id;
                  netns = netns;
                  ifname = ifname;
                })))))

  pub to_env : CniEnv → J
  to_env env = j.object (
      (codes "CNI_COMMAND", j.string env.command)
      ∷ (codes "CNI_CONTAINERID", j.string env.container_id)
      ∷ (codes "CNI_NETNS", j.string env.netns)
      ∷ (codes "CNI_IFNAME", j.string env.ifname)
      ∷ [])

  pub from_error : CniError → J → Outcome CniError
  from_error error json =
      and_then (member j json (codes "cniVersion") error.cniversion j.get_string) (λ cniversion.
        and_then (member j json (codes "code") error.code j.get_number) (λ code.
          and_then (member j json (codes "msg") error.msg j.get_string) (λ msg.
            and_then (member j json (codes "details") error.details j.get_string) (λ details.
              ok (record { cniversion = cniversion; code = code; msg = msg; details = details })))))

  pub to_error : CniError → J
  to_error error = j.object (
      (codes "cniVersion", j.string error.cniversion)
      ∷ (codes "code", j.number error.code)
      ∷ (codes "msg", j.string error.msg)
      ∷ (codes "details", j.string error.details)
      ∷ [])

  pub from_ips : J → Outcome CniResultIps
  from_ips json = and_then (member j json (codes "address") [] j.get_string) (λ address.
      and_then (member j json (codes "gateway") [] j.get_string)
        (λ gateway. ok (record { address = address; gateway = gateway })))

  pub to_ips : CniResultIps → J
  to_ips ips =
      j.object
        ((codes "address", j.string ips.address) ∷ (codes "gateway", j.string ips.gateway) ∷ [])

  pub from_interfaces : J → Outcome CniResultInterfaces
  from_interfaces json = and_then (member j json (codes "name") [] j.get_string) (λ name.
      and_then (member j json (codes "sandbox") [] j.get_string)
        (λ sandbox. ok (record { name = name; sandbox = sandbox })))

  pub to_interfaces : CniResultInterfaces → J
  to_interfaces i =
      j.object ((codes "name", j.string i.name) ∷ (codes "sandbox", j.string i.sandbox) ∷ [])

  pub from_result : CniResult → J → Outcome CniResult
  unfolding from_ips from_interfaces
  from_result result json =
      and_then (member j json (codes "cniVersion") result.cniversion j.get_string) (λ cniversion.
        and_then (member j json (codes "interfaces") result.interfaces (array_of j from_interfaces))
          (λ interfaces.
            and_then (member j json (codes "ips") result.ips (array_of j from_ips))
              (λ ips. ok (record { cniversion = cniversion; ips = ips; interfaces = interfaces }))))

  pub to_result : CniResult → J
  unfolding to_ips to_interfaces
  to_result result = j.object (
      (codes "cniVersion", j.string result.cniversion)
      ∷ (codes "interfaces", j.array (map to_interfaces result.interfaces))
      ∷ (codes "ips", j.array (map to_ips result.ips))
      ∷ [])

  pub from_version : CniVersion → J → Outcome CniVersion
  from_version version json =
      and_then (member j json (codes "cniVersion") version.cni_version j.get_string) (λ cni_version.
        and_then
          (member j json (codes "supportedVersions") version.supported_versions
            (array_of j j.get_string))
          (λ supported_versions.
            ok (record { cni_version = cni_version; supported_versions = supported_versions })))

  pub to_version : CniVersion → J
  to_version version = j.object (
      (codes "cniVersion", j.string version.cni_version)
      ∷ (codes "supportedVersions", j.array (map j.string version.supported_versions))
      ∷ [])
