-- ===== src/Tests/Daemons.antt =====
-- The theorems on the daemon and on the strategy that it starts at concrete ones.
use ohno.Common.{◌≡◌, refl, inl, true, none, List, [], ◌∷◌, ◌++◌, arith}
use ohno.Common.Bytes.{codes, empty, eqb}
use ohno.Common.Exec.{ok}
use ohno.Log.{initial, warn}
use ohno.Etcd.Client.{Items}
use ohno.Net.Nic.Entries.Table.{Table}
use ohno.Ipam
use ohno.Ipam.{NodeInfo}
use ohno.Json.Plugin.{default_config, to_config}
use ohno.Json.Plugin.RoundTrip.{from_config-to_config}
use ohno.Backend.{Services}
use ohno.Backend.Thread.{start, new_thread, interval_of}
use ohno.Backend.HostGw
use ohno.Backend.Center.Nodes.{get_http_response, or_else}
use ohno.Backend.Center.Files.{
  find_from, remove_newlines, opened, value_of, server_of, url_of, host_of, etcd_of, or_empty,
  read_file, get_server_url, etcd_body, get_etcd_clusters,
}
use ohno.Backend.Center.Health.{
  is_pod, get_ssl_dir, token_path, token_body, get_token, get_ca, new_center, test_body, test,
}
use ohno.Cni.{Mode}
use ohno.Helper.{until}
use ohno.Net.Nic.{starts_with, drop}
use ohno.Backend.Strategy.{
  Backend, BackendInfo, Equipment, Running, monitored, worker, set_up, etcd_client, services,
  get_hostgw, chosen, get_strategy, start_backend, config_of, execute_strategy,
}
use ohno.Backend.Strategy.Watched.{Watched, execute_strategy-Watched}
use ohno.Daemon.{Daemon, default, word_of, parse_arguments, main, exited}
use ohno.Daemon.Options.{
  Setting, level, server, insecure, interval, spell_all, set, set_all, parse_arguments-spell_all,
  main-Ends,
}
use ohno.Program.{success}
use ohno.Tests.Networks.{asio}
use ohno.Tests.Values.{lists}
use ohno.Tests.Interfaces.{no_routes}
use ohno.Tests.Plugin.{takes, node_shell}
use ohno.Tests.Documents.{Value, documents, documents-JsonLaws, host_gw_config}
use ohno.Tests.Programs.{nothing, system, disk, healthy}

abbrev equipment : Equipment Value Items Table
equipment = record {
  boost = asio;
  files = system [];
  disk = disk;
  api = healthy;
  shell = node_shell;
  netlink = takes;
  client = λ servers. lists;
  nodes = λ access f. (ok [], f);
  json = documents;
  parse = λ text. ok (to_config documents host_gw_config);
}

abbrev told : BackendInfo
told = record { api_server = codes "https://10.0.0.1"; ssl = true; refresh_interval = 5 }

abbrev host_gw : Services Items Table
host_gw = record { etcd_client = lists; netlink = takes; get_kubernetes_data = λ f. (ok [], f) }

abbrev started : Running Items Table
started =
    monitored (HostGw.event_handler host_gw (codes "n1")) 5
      (start (new_thread (worker set_up (nothing, no_routes))))

etcd_told :
    get_etcd_clusters (system []) no_routes ≡ (ok (codes "https://10.0.0.1:2379"), no_routes)
unfolding get_etcd_clusters etcd_body get_server_url read_file opened url_of server_of value_of
    find_from remove_newlines host_of etcd_of or_empty empty starts_with drop until
etcd_told = refl

strategy_made :
    get_strategy equipment told Mode.host_gw host_gw_config.bridge (nothing, no_routes)
    ≡ (ok (Backend.hostgw host_gw 5 set_up), (nothing, no_routes))
unfolding get_strategy chosen get_hostgw etcd_client services Ipam.init lists empty new_center
    get_ca get_token token_body token_path get_ssl_dir is_pod test test_body or_empty or_else
    read_file opened remove_newlines get_http_response
strategy_made = rw etcd_told refl

started-returned :
    (execute_strategy equipment told (codes "n1") (nothing, no_routes)).0 ≡ ok started
unfolding execute_strategy config_of start_backend empty interval_of
started-returned =
    rw
      (
        from_config-to_config documents documents-JsonLaws default_config host_gw_config,
        strategy_made,
      )
      refl

execute_strategy-Watched_example : Watched (codes "n1") started
execute_strategy-Watched_example =
    execute_strategy-Watched equipment told (codes "n1") (nothing, no_routes) started
      started-returned

abbrev options : List Setting
options = level warn ∷ server (codes "https://10.0.0.1") ∷ insecure ∷ interval 30 ∷ []

abbrev daemon : Daemon Items Table
daemon = record { etcd = nothing; kernel = no_routes; logging = initial; g_client = none }

parse_arguments-spell_all_example :
    parse_arguments equipment (spell_all options) daemon ≡ (ok (set_all default options), daemon)
unfolding set_all set
parse_arguments-spell_all_example =
    parse_arguments-spell_all equipment options daemon (tt, (tt, (tt, (omega arith, tt)))) (λ e. cc)

-- The option that the usage names.
main-Ends_example :
    main equipment (spell_all options ++ codes "--ssl-dir" ∷ codes "/etc/ssl" ∷ []) daemon
    ≡ (ok (exited success), daemon)
unfolding word_of eqb
main-Ends_example =
    main-Ends equipment options (codes "--ssl-dir") (codes "/etc/ssl" ∷ []) daemon
      (tt, (tt, (tt, (omega arith, tt)))) (inl refl)
