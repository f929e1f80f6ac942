-- ===== src/Program.antt =====
-- cmd/tracearr/main.go: `run` up to the server, from the loaded settings. What the libraries answer is a
-- parameter: bolt.Open, metrics.New, and what the exporter uses.
pub mod Startup
use tracearr.Prelude.{
  ℕ, is_some, Bool, true, false, not, ◌&&◌, String, List, [], ◌∷◌, ◌++◌, Option, none, some, ◌⊎◌,
  inl, inr, ◌==◌, string_eq, if◌then◌else◌,
}
use tracearr.Prelude.Int.{ℤ, pos, negsuc}
use tracearr.Prelude.Lists.{Bytes, is_empty}
use tracearr.Config.{Config, AppSource, LoadError, load}
use tracearr.Store.Memory
use tracearr.Store.Memory.{memory_store}
use tracearr.Store.Disk.Buckets.{Bolt}
use tracearr.Store.Disk.Loading.{OpenError}
use tracearr.Store.Bolt.{BoltStore, bolt_store, open_bolt_store}
use tracearr.Exporter.{System, ExporterConfig, ExporterError, Provider, new_provider}
use tracearr.Log.{Level, parse_level}
use tracearr.Metrics.{Metrics}
use tracearr.Receiver.Routes.{Server, new_server, set_metrics, set_scrape_handler}
use tracearr.Pollers.Loops.{QueuePoller, ProwlarrPoller, new_queue_poller, new_prowlarr_poller}
use tracearr.Engine.State.{Engine, new}
use tracearr.Engine.Lifetime.{restore}

-- The engine over the store that the settings choose.
pub data Running (D : Bolt) : Type 0 where
  on_memory : Engine memory_store → Running D
  on_bolt : Engine (bolt_store D) → Running D

-- a goroutine that polls
pub data Poller : Type 0 where
  queue : QueuePoller → Poller
  prowlarr : ProwlarrPoller → Poller

pub data StartError : Type 0 where
  load_config : LoadError → StartError
  init_exporter : ExporterError → StartError
  init_metrics : StartError
  open_store : OpenError → StartError

pub record Started (D : Bolt) : Type 0 where
  pub engine : Running D
  pub pollers : List Poller
  pub provider : Provider
  pub log_level : Level
  pub listen : String
  pub read_timeout : ℤ
  pub server : Server

-- 24 hours and 30 days
abbrev pub dedup_ttl : ℕ
dedup_ttl = 86400000000000

abbrev pub recall_ttl : ℕ
recall_ttl = 2592000000000000

-- The look-back as a number. A negative one, at which every parked download has expired, stands as 0,
-- at which those of earlier instants have.
abbrev pub lookback : ℤ → ℕ
lookback (pos n) = n
lookback (negsuc n) = 0

unfoldable pub restore_running : {D : Bolt} → Running D → Running D
restore_running (on_memory e) = on_memory (restore e)
restore_running (on_bolt e) = on_bolt (restore e)

unfoldable pub open_engine : {D : Bolt} → Config → Option D.Db → StartError ⊎ Running D
open_engine {D} cfg file =
    if cfg.storage.backend == "bolt"
    then elim (open_bolt_store {D = D} file dedup_ttl recall_ttl) [
      | inl e ↦ inl (open_store e)
      | inr s ↦ inr (on_bolt (new s (lookback cfg.correlation.download_lookback)))
    ]
    else inr (
        on_memory
          (new (Memory.new dedup_ttl recall_ttl) (lookback cfg.correlation.download_lookback)))

-- The source is polled.
unfoldable pub polls : AppSource → Bool
polls app = app.enabled && not (app.base_url == "") && not (is_empty app.api_key)

unfoldable pub pollers_of : Config → List Poller
unfolding polls
pollers_of cfg =
    let sonarr = cfg.sources.sonarr in
    let radarr = cfg.sources.radarr in
    let indexers = cfg.sources.prowlarr in
    (if polls sonarr
      then queue
          (new_queue_poller "sonarr" sonarr.base_url sonarr.api_key sonarr.queue_poll_interval)
        ∷ []
      else [])
    ++ (if polls radarr
        then queue
            (new_queue_poller "radarr" radarr.base_url radarr.api_key radarr.queue_poll_interval)
          ∷ []
        else [])
    ++ (if polls indexers
        then prowlarr
            (new_prowlarr_poller indexers.base_url indexers.api_key indexers.history_poll_interval)
          ∷ []
        else [])

-- the exporter's settings, of this version of the program
unfoldable pub exporter_config : String → Config → ExporterConfig
exporter_config version cfg = record {
  endpoint = cfg.otlp.endpoint;
  protocol = cfg.otlp.protocol;
  insecure = cfg.otlp.insecure;
  headers_env = cfg.otlp.headers_env;
  ca_file = cfg.otlp.tls.ca_file;
  cert_file = cfg.otlp.tls.cert_file;
  key_file = cfg.otlp.tls.key_file;
  service_name = "tracearr";
  namespace = "media";
  version = version;
  batch_timeout = pos 0;
}

-- the receiver, which counts where metrics are enabled
unfoldable pub receiver_of : Config → Option Metrics → Server
receiver_of cfg made =
    let server = new_server cfg.sources in
    if cfg.metrics.metrics_enabled
    then set_scrape_handler true (set_metrics made server)
    else server

-- `run`, with what metrics.New and bolt.Open answer
unfoldable pub start :
    {D : Bolt}
    → System
    → String
    → LoadError ⊎ Config
    → Option Metrics
    → Option D.Db
    → StartError ⊎ Started D
unfolding restore_running open_engine pollers_of exporter_config receiver_of
start sys version (inl e) made file = inl (load_config e)
start {D} sys version (inr cfg) made file = elim (new_provider sys (exporter_config version cfg)) [
  | inl e ↦ inl (init_exporter e)
  | inr provider ↦ elim (open_engine {D = D} cfg file) [
    | inl e ↦ inl e
    | inr engine ↦
        if cfg.metrics.metrics_enabled && not (is_some made)
        then inl init_metrics
        else inr (record {
          engine = restore_running engine;
          pollers = pollers_of cfg;
          provider = provider;
          log_level = parse_level sys.to_lower cfg.logs.level;
          listen = cfg.server.listen;
          read_timeout = cfg.server.read_timeout;
          server = receiver_of cfg made;
        })
  ]
]
