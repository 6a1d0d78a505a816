-- ===== src/Json/Plugin/RoundTrip.antt =====
-- What the plugin prints is read again.
use ohno.Common.{◌≡◌, refl, ap}
use ohno.Common.Bytes.{eqb}
use ohno.Common.Exec.{ok}
use ohno.Log.{named, level_or-level_name}
use ohno.Cni.{Mode, CniConfig, CniConfigIpam}
use ohno.Cni.Commands.{CniResult, CniResultIps, CniResultInterfaces, CniVersion}
use ohno.Registry.{find}
use ohno.Json.{Json, JsonLaws, member, array_of-map}
use ohno.Json.Plugin.{
  mode_name, mode_of, CniEnv, CniError, from_ipam, to_ipam, from_config, to_config, from_env,
  to_env, from_error, to_error, from_ips, to_ips, from_interfaces, to_interfaces, from_result,
  to_result, from_version, to_version,
}

mode_of-mode_name : (m : Mode) → mode_of (mode_name m) ≡ m
unfolding mode_of mode_name named eqb
mode_of-mode_name Mode.reserved = refl
mode_of-mode_name Mode.host_gw = refl
mode_of-mode_name Mode.vxlan = refl
mode_of-mode_name Mode.evpn = refl

module _ {J : Type 0} (j : Json J) (laws : JsonLaws j) where
  from_ipam-to_ipam : (old ipam : CniConfigIpam) → from_ipam j old (to_ipam j ipam) ≡ ok ipam
  unfolding from_ipam to_ipam mode_of member find eqb
  from_ipam-to_ipam old ipam =
      simp (laws.contains_object, laws.at_object, laws.string_read)
        (ap (λ m. ok (record ipam { mode = m })) (mode_of-mode_name ipam.mode))

  pub from_config-to_config :
      (old conf : CniConfig) → from_config j old (to_config j conf) ≡ ok conf
  unfolding from_config to_config mode_of member find eqb
  from_config-to_config old conf =
      simp
        (
          laws.contains_object, laws.at_object, laws.string_read, laws.boolean_read,
          level_or-level_name,
        )
        (ap (λ m. ok (record conf { ipam = record conf.ipam { mode = m } }))
          (mode_of-mode_name conf.ipam.mode))

  from_env-to_env : (old env : CniEnv) → from_env j old (to_env j env) ≡ ok env
  unfolding from_env to_env member find eqb
  from_env-to_env old env = simp (laws.contains_object, laws.at_object, laws.string_read)

  from_error-to_error : (old error : CniError) → from_error j old (to_error j error) ≡ ok error
  unfolding from_error to_error member find eqb
  from_error-to_error old error =
      simp (laws.contains_object, laws.at_object, laws.string_read, laws.number_read)

  from_ips-to_ips : (ips : CniResultIps) → from_ips j (to_ips j ips) ≡ ok ips
  unfolding from_ips to_ips member find eqb
  from_ips-to_ips ips = simp (laws.contains_object, laws.at_object, laws.string_read)

  from_interfaces-to_interfaces :
      (i : CniResultInterfaces) → from_interfaces j (to_interfaces j i) ≡ ok i
  unfolding from_interfaces to_interfaces member find eqb
  from_interfaces-to_interfaces i = simp (laws.contains_object, laws.at_object, laws.string_read)

  pub from_result-to_result :
      (old result : CniResult) → from_result j old (to_result j result) ≡ ok result
  unfolding from_result to_result member find eqb
  from_result-to_result old result = simp (
    laws.contains_object,
    laws.at_object,
    laws.string_read,
    array_of-map j laws (to_ips j) (from_ips j) from_ips-to_ips result.ips,
    array_of-map j laws (to_interfaces j) (from_interfaces j) from_interfaces-to_interfaces
        result.interfaces,
  )

  from_version-to_version :
      (old version : CniVersion) → from_version j old (to_version j version) ≡ ok version
  unfolding from_version to_version member find eqb
  from_version-to_version old version = simp (
    laws.contains_object,
    laws.at_object,
    laws.string_read,
    array_of-map j laws j.string j.get_string laws.string_read version.supported_versions,
  )

  -- Where a value of the JSON library holds the members that it is made of and is read as what it was
  -- made of: what is printed of a configuration, of the environment, of an error, of a result and of
  -- a version is read again as the same, whatever the object held that it is read into.
  pub from_json-to_json :
      (conf conf_old : CniConfig) (env env_old : CniEnv) (error error_old : CniError)
      (result result_old : CniResult) (version version_old : CniVersion)
      → (from_config j conf_old (to_config j conf) ≡ ok conf)
        × (from_env j env_old (to_env j env) ≡ ok env)
        × (from_error j error_old (to_error j error) ≡ ok error)
        × (from_result j result_old (to_result j result) ≡ ok result)
        × (from_version j version_old (to_version j version) ≡ ok version)
  from_json-to_json conf conf_old env env_old error error_old result result_old version
        version_old =
      (
        from_config-to_config conf_old conf,
        from_env-to_env env_old env,
        from_error-to_error error_old error,
        from_result-to_result result_old result,
        from_version-to_version version_old version,
      )
