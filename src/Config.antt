-- ===== src/Config.antt =====
-- internal/config/config.go: the settings, their defaults, the secrets from the environment, and what
-- is refused. Reading the file and decoding its YAML are parameters, and so is the environment. A
-- duration is its number of nanoseconds; a secret is the list of its bytes.
pub mod Secrets
pub mod Loads
use tracearr.Prelude.{
  Bool, true, false, not, ◌&&◌, ◌||◌, String, Option, none, some, ◌⊎◌, inl, inr, ◌==◌, string_eq,
  if◌then◌else◌,
}
use tracearr.Prelude.Int.{ℤ, pos, int_beq}
use tracearr.Prelude.Lists.{Bytes, is_empty}

pub record ServerConfig : Type 0 where
  pub listen : String
  pub read_timeout : ℤ

pub record StorageConfig : Type 0 where
  pub backend : String
  pub path : String
  pub max_trace_duration : ℤ

pub record CorrelationConfig : Type 0 where
  pub prowlarr_buffer : ℤ
  pub download_lookback : ℤ

pub record AppSource : Type 0 where
  pub enabled : Bool
  pub base_url : String
  pub api_key_env : String
  pub webhook_secret_env : String
  pub script_token_env : String
  pub queue_poll_interval : ℤ
  pub history_poll_interval : ℤ
  pub api_key : Bytes
  pub webhook_secret : Bytes
  pub script_token : Bytes

pub record SourcesConfig : Type 0 where
  pub overseerr : AppSource
  pub jellyseerr : AppSource
  pub sonarr : AppSource
  pub radarr : AppSource
  pub prowlarr : AppSource
  pub nzbget : AppSource
  pub sabnzbd : AppSource

pub record TlsConfig : Type 0 where
  pub ca_file : String
  pub cert_file : String
  pub key_file : String

pub record OtlpConfig : Type 0 where
  pub endpoint : String
  pub protocol : String
  pub insecure : Bool
  pub headers_env : String
  pub tls : TlsConfig

pub record LogsConfig : Type 0 where
  pub level : String
  pub format : String
  pub otlp_enabled : Bool

pub record MetricsConfig : Type 0 where
  pub metrics_enabled : Bool
  pub export_interval : ℤ

-- Config; the structs around one field, `Exporter` and `Sampling`, are that field.
pub record Config : Type 0 where
  pub server : ServerConfig
  pub storage : StorageConfig
  pub correlation : CorrelationConfig
  pub sources : SourcesConfig
  pub otlp : OtlpConfig
  pub strategy : String
  pub logs : LogsConfig
  pub metrics : MetricsConfig

-- why a configuration is refused; the sources' errors name the source and the variable
pub data LoadError : Type 0 where
  read_config parse_config endpoint_required path_required : LoadError
  backend_not_supported : String → LoadError
  api_key_unset script_token_unset : String → String → LoadError

unfoldable pub default_text : String → String → String
default_text text default = if text == "" then default else text

-- the default in seconds
unfoldable pub default_duration : ℤ → ℤ → ℤ
default_duration duration default = if int_beq duration (pos 0) then default else duration

unfoldable pub apply_defaults : Config → Config
unfolding default_text default_duration
apply_defaults c = record c {
  server = record {
    listen = default_text c.server.listen "0.0.0.0:8080";
    read_timeout = default_duration c.server.read_timeout (pos 10000000000);
  };
  storage = record c.storage {
    backend = default_text c.storage.backend "memory";
    max_trace_duration = default_duration c.storage.max_trace_duration (pos 1209600000000000);
  };
  correlation = record {
    prowlarr_buffer = default_duration c.correlation.prowlarr_buffer (pos 30000000000);
    download_lookback = default_duration c.correlation.download_lookback (pos 60000000000);
  };
  otlp = record c.otlp { protocol = default_text c.otlp.protocol "grpc" };
  strategy = default_text c.strategy "always_on";
  logs = record c.logs {
    level = default_text c.logs.level "info";
    format = default_text c.logs.format "json";
  };
  metrics = record c.metrics {
    export_interval = default_duration c.metrics.export_interval (pos 60000000000);
  };
}

unfoldable pub validate : Config → Option LoadError
validate c =
    if c.otlp.endpoint == ""
    then some endpoint_required
    else if not (c.storage.backend == "memory") && not (c.storage.backend == "bolt")
    then some (backend_not_supported c.storage.backend)
    else if c.storage.backend == "bolt" && c.storage.path == ""
    then some path_required
    else none

infixl 5 ◌>>=◌
abbrev pub ◌>>=◌ : {A B : Type 0} → LoadError ⊎ A → (A → LoadError ⊎ B) → LoadError ⊎ B
inl e >>= k = inl e
inr a >>= k = k a

-- `getenv` is os.Getenv.
module _ (getenv : String → Bytes) where
  unfoldable pub resolve_api_key : String → AppSource → LoadError ⊎ AppSource
  resolve_api_key name app =
      if app.api_key_env == ""
      then inr app
      else let key = getenv app.api_key_env in
        if is_empty key
        then inl (api_key_unset name app.api_key_env)
        else inr (record app { api_key = key })

  -- A webhook secret may be empty.
  unfoldable pub resolve_webhook_secret : AppSource → AppSource
  resolve_webhook_secret app =
      if app.webhook_secret_env == ""
      then app
      else record app { webhook_secret = getenv app.webhook_secret_env }

  unfoldable pub resolve_script_token : String → AppSource → LoadError ⊎ AppSource
  resolve_script_token name app =
      if app.script_token_env == ""
      then inr app
      else let token = getenv app.script_token_env in
        if is_empty token
        then inl (script_token_unset name app.script_token_env)
        else inr (record app { script_token = token })

  -- the closure `resolve`
  unfoldable pub resolve : String → AppSource → LoadError ⊎ AppSource
  unfolding resolve_api_key resolve_webhook_secret resolve_script_token
  resolve name app = if not app.enabled then inr app else elim (resolve_api_key name app) [
    | inl e ↦ inl e
    | inr with_key ↦ resolve_script_token name (resolve_webhook_secret with_key)
  ]

  -- Each source in turn; the first error ends it.
  unfoldable pub resolve_secrets : SourcesConfig → LoadError ⊎ SourcesConfig
  resolve_secrets s = do
    overseerr ← resolve "overseerr" s.overseerr
    jellyseerr ← resolve "jellyseerr" s.jellyseerr
    sonarr ← resolve "sonarr" s.sonarr
    radarr ← resolve "radarr" s.radarr
    prowlarr ← resolve "prowlarr" s.prowlarr
    nzbget ← resolve "nzbget" s.nzbget
    sabnzbd ← resolve "sabnzbd" s.sabnzbd
    inr (record {
      overseerr = overseerr;
      jellyseerr = jellyseerr;
      sonarr = sonarr;
      radarr = radarr;
      prowlarr = prowlarr;
      nzbget = nzbget;
      sabnzbd = sabnzbd;
    })

  -- what follows os.ReadFile and yaml.Unmarshal
  unfoldable pub finish_load : Config → LoadError ⊎ Config
  unfolding apply_defaults resolve_secrets validate
  finish_load decoded =
      let c = apply_defaults decoded in
      elim (resolve_secrets c.sources) [
        | inl e ↦ inl e
        | inr sources ↦
            let resolved = record c { sources = sources } in
            elim (validate resolved) [ none ↦ inr resolved | some e ↦ inl e ]
      ]

  -- Load, of what os.ReadFile returns, with the decoder of the YAML
  unfoldable pub load : (Bytes → Option Config) → Option Bytes → LoadError ⊎ Config
  unfolding finish_load
  load unmarshal none = inl read_config
  load unmarshal (some raw) = elim (unmarshal raw) [
    | none ↦ inl parse_config
    | some decoded ↦ finish_load decoded
  ]
