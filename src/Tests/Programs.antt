-- ===== src/Tests/Programs.antt =====
-- The theorems on the plugin's program, on the daemon and on its threads at concrete ones.
use ohno.Common.{
  ℕ, ◌≡◌, ◌≢◌, ◌⊎◌, ◌↔◌, inl, suc, refl, true, false, some, none, [], ◌++◌, ◌≤◌, if◌then◌else◌,
}
use ohno.Common.Bytes.{Bytes, codes, eqb}
use ohno.Common.Exec.{Exec, ok, fault, assertion, undefined, Returns}
use ohno.Log.{initial, trace, logname_default, logfile_default}
use ohno.Etcd.Client.{Items}
use ohno.Net.Nic.Entries.Table.{Table}
use ohno.Registry.{find}
use ohno.Cni.{Mode}
use ohno.Json.Plugin.{from_result, to_result, default_config, to_config}
use ohno.Json.Plugin.Given.{parse_json, parse_json-to_config}
use ohno.Cni.Restore.Config.{IsUsable}
use ohno.Json.Plugin.RoundTrip.{from_config-to_config}
use ohno.Backend.Thread.{Place, Thread, new_thread, start, stop, Reach, made, later, starts, stops}
use ohno.Backend.Thread.Stops.{Stopped, Waits, stop_ends}
use ohno.Backend.Center.Nodes.{Api}
use ohno.Backend.Center.Files.{Files}
use ohno.Backend.Center.Health.{Disk}
use ohno.Program.{Machine, State, success, failure, main, asks_for_config}
use ohno.Program.Ends.{check, main-deletion, main-IsRefused}
use ohno.Program.Prints.{Added, Silent, main-addition}
use ohno.Program.Steps.{Alike, Unreadable}
use ohno.Program.Logger.{main-initial}
use ohno.Tests.Interfaces.{no_routes}
use ohno.Tests.Plugin.{parts, fresh_world}
use ohno.Tests.Documents.{Value, documents, documents-JsonLaws, host_gw_config, empty_result}

abbrev pub nothing : Items
nothing k = []

-- A file system in which every file tells of the API server, and an environment with a command.
abbrev pub system : Bytes → Files Table
system command = record {
  read = λ name t. (ok (some (codes "clusters: server: https://10.0.0.1:6443 name: k")), t);
  env = λ name. if eqb name (codes "CNI_COMMAND") then command else codes "c1";
}

abbrev pub disk : Disk Table
disk = record { exists = λ name t. (ok true, t); write = λ name text t. (ok tt, t) }

abbrev pub healthy : Api Table
healthy = record { http_get = λ uri token ca t. (ok (200, codes "{}"), t); parse = λ s. ok [] }

abbrev machine : Bytes → Machine Value Items Table
machine command = record {
  json = documents;
  dump = λ spaces json. some [];
  input = ok (to_config documents host_gw_config);
  files = system command;
  disk = disk;
  is_directory = λ path. some false;
  within = λ path name. path ++ codes "/" ++ name;
  api = healthy;
  parts = λ server access. parts;
  unset = Mode.reserved;
}

abbrev begun : State Value Items Table
begun = record {
  g_del = false;
  process = record {
    etcd = nothing;
    kernel = no_routes;
    logging = initial;
    printed = [];
    written = none;
  };
}

main-deletion_example :
    (let r = main (machine (codes "DEL")) [] begun in
      (r.0 ≡ ok success)
      ⊎ (r.0 ≡ fault assertion)
      ⊎ (r.0 ≡ fault undefined)
      ⊎ ((r.0 ≡ ok failure)
          × Alike begun.process r.1.process
          × Unreadable (machine (codes "DEL")) host_gw_config))
unfolding asks_for_config eqb
main-deletion_example =
    main-deletion (machine (codes "DEL")) [] begun refl refl
      (from_config-to_config documents documents-JsonLaws default_config host_gw_config) refl

main-IsRefused_example :
    Returns (main (machine (codes "CHECK")) [] begun) failure (λ t. Alike begun.process t.process)
unfolding asks_for_config eqb
main-IsRefused_example =
    main-IsRefused (machine (codes "CHECK")) [] begun refl refl
      (from_config-to_config documents documents-JsonLaws default_config host_gw_config) check refl

main-addition_example :
    (let r = main (machine (codes "ADD")) [] begun in
      ((r.0 ≡ ok success)
        × ((a : Added (machine (codes "ADD")) [] r.1.process) × (from_result documents empty_result
                (to_result documents a.result)
              ≡ ok a.result)))
      ⊎ ((r.0 ≢ ok success) × Silent (machine (codes "ADD")) [] r.1.process))
unfolding asks_for_config eqb
main-addition_example =
    main-addition (machine (codes "ADD")) [] begun empty_result documents-JsonLaws refl refl
      (from_config-to_config documents documents-JsonLaws default_config host_gw_config) refl refl

main-initial_example :
    find logname_default (main (machine (codes "ADD")) [] begun).1.process.logging.loggers
    ≡ some (record { file = logfile_default; stdout = false; level = trace })
main-initial_example = main-initial (machine (codes "ADD")) [] begun refl

parse_json-to_config_example :
    (let r =
        parse_json documents
          (λ j. false)
          (λ j. some [])
          (to_config documents host_gw_config)
          fresh_world in
      ((r.0 ≡ ok true) ⊎ (r.0 ≡ ok false))
      × ((r.0 ≡ ok true) ↔ IsUsable host_gw_config)
      × (r.1.cni.conf ≡ host_gw_config)
      × (r.1.etcd ≡ fresh_world.etcd)
      × (r.1.kernel ≡ fresh_world.kernel))
parse_json-to_config_example =
    parse_json-to_config documents (λ j. false) (λ j. some []) host_gw_config [] fresh_world
      documents-JsonLaws refl refl refl

-- A callback that returns.
abbrev idle : Exec (Unit {0}) (Unit {0})
idle u = (ok tt, u)

abbrev running : Thread (Unit {0})
running = start (new_thread tt)

abbrev stopping : Thread (Unit {0})
stopping = stop running

stopping-Reach : Reach idle tt stopping
unfolding start stop new_thread
stopping-Reach = later (later made (starts (new_thread tt) refl)) (stops running refl)

stop_ends_example :
    Stopped idle stopping
    × ((n : ℕ) (u : Thread (Unit {0})) → Waits idle n stopping u → n ≤ 4)
    × ((n : ℕ) (u : Thread (Unit {0})) → Waits idle (suc n) stopping u → u.monitor ≢ Place.calling)
unfolding start stop new_thread
stop_ends_example = stop_ends idle (λ w. inl refl) stopping-Reach refl
