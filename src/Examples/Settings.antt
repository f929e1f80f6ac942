-- ===== src/Examples/Settings.antt =====
-- internal/config/config.go: a file with one source.
use tracearr.Prelude.{
  true, false, String, Option, some, ◌==◌, string_eq, inr, ◌≡◌, refl, if◌then◌else◌, [],
}
use tracearr.Prelude.Int.{pos}
use tracearr.Prelude.Lists.{Bytes}
use tracearr.Prelude.Text.{runes}
use tracearr.Config.{Config, AppSource, apply_defaults, load}
use tracearr.Config.Secrets.{app_ready}
use tracearr.Config.Loads.{is_ready, with_all_secrets, load_iff}

abbrev pub no_source : AppSource
no_source = record {
  enabled = false;
  base_url = "";
  api_key_env = "";
  webhook_secret_env = "";
  script_token_env = "";
  queue_poll_interval = pos 0;
  history_poll_interval = pos 0;
  api_key = [];
  webhook_secret = [];
  script_token = [];
}

abbrev pub settings : Config
settings = record {
  server = record { listen = ""; read_timeout = pos 0 };
  storage = record { backend = "bolt"; path = "state.db"; max_trace_duration = pos 0 };
  correlation = record { prowlarr_buffer = pos 0; download_lookback = pos 0 };
  sources = record {
    overseerr = no_source;
    jellyseerr = no_source;
    sonarr = record no_source { enabled = true; base_url = "http://sonarr"; api_key_env = "KEY" };
    radarr = no_source;
    prowlarr = no_source;
    nzbget = no_source;
    sabnzbd = no_source;
  };
  otlp = record {
    endpoint = "collector:4317";
    protocol = "";
    insecure = true;
    headers_env = "";
    tls = record { ca_file = ""; cert_file = ""; key_file = "" };
  };
  strategy = "";
  logs = record { level = ""; format = ""; otlp_enabled = false };
  metrics = record { metrics_enabled = false; export_interval = pos 0 };
}

abbrev pub environment : String → Bytes
environment name = if name == "KEY" then runes "secret" else []

abbrev pub decoder : Bytes → Option Config
decoder _ = some settings

abbrev pub complete : Config
complete = with_all_secrets environment (apply_defaults settings)

-- the settings are accepted
settings_accepted : load environment decoder (some []) ≡ inr complete
unfolding is_ready app_ready apply_defaults
settings_accepted =
    (load_iff environment decoder (some []) complete).1 ([], settings, refl, refl, refl, refl)
