-- ===== src/Examples/Startups.antt =====
-- cmd/tracearr/main.go: a process with an empty database.
use tracearr.Prelude.{◌==◌, ◌≡◌, refl, true, [], some, none, inr, ◌⊎◌, string_eq}
use tracearr.Prelude.Lists.{All}
use tracearr.Prelude.Map
use tracearr.Config.{Config, LoadError, apply_defaults}
use tracearr.Store.Bolt.{BoltStore, bolt_store, open_bolt_store}
use tracearr.Engine.State.{new}
use tracearr.Engine.Lifetime.{restore}
use tracearr.Exporter.{System, Provider, grpc, insecure_transport, new_provider, parse_headers}
use tracearr.Log.{level_info, parse_level}
use tracearr.Prelude.Int.{pos}
use tracearr.Receiver.Routes.{new_server}
use tracearr.Program.{exporter_config, Started, on_bolt, pollers_of, start, dedup_ttl, recall_ttl}
use tracearr.Program.Startup.{RunningSound, HasKey, is_on_bolt, start-RunningSound}
use tracearr.Examples.{numbering}
use tracearr.Examples.Disks.{disk, empty_disk, write_all, fresh_store}
use tracearr.Examples.Settings.{complete, environment}

abbrev day_store : BoltStore disk
day_store = record fresh_store { dedup_ttl = dedup_ttl; recall_ttl = recall_ttl }

abbrev accepted_settings : LoadError ⊎ Config
accepted_settings = inr complete

-- Every file can be read, and every library does what it is asked.
abbrev system : System
system = record {
  getenv = environment;
  trim_space = λ s. s;
  to_lower = λ s. s;
  read_file = λ file. some [];
  has_certificates = λ pem. true;
  loads_keypair = λ cert key. true;
  connects = λ client. true;
  merges = λ service namespace version. true;
}

abbrev collector : Provider
collector = record {
  client = grpc "collector:4317" [] insecure_transport;
  batch = pos 5000000000;
  service = "tracearr";
  service_namespace = "media";
  service_version = "dev";
}

abbrev serving : Started disk
serving = record {
  engine = on_bolt (restore (new {S = bolt_store disk} day_store 60000000000));
  pollers = pollers_of complete;
  provider = collector;
  log_level = level_info;
  listen = "0.0.0.0:8080";
  read_timeout = pos 10000000000;
  server = new_server complete.sources;
}

start-RunningSound_example :
    ((cfg : Config) × (accepted_settings ≡ inr cfg)
      × (new_provider system (exporter_config "dev" cfg) ≡ inr collector)
      × (serving.server.sources ≡ cfg.sources)
      × (is_on_bolt serving.engine ≡ (cfg.storage.backend == "bolt")))
    × RunningSound numbering serving.engine
    × All HasKey serving.pollers
unfolding start apply_defaults open_bolt_store Map.select write_all new_provider parse_headers
    parse_level
start-RunningSound_example =
    start-RunningSound numbering system "dev" accepted_settings none (some empty_disk) serving refl
