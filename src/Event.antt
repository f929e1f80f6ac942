-- ===== src/Event.antt =====
-- internal/correlate/event.go: the events that the receivers produce and the key by which the
-- engine correlates them. `MediaType` is the string of the source. The other string enumerations,
-- whose values only this program's parsers choose, are data types with a constructor for each
-- constant; `Phase.unknown` stands for every other text, and `Outcome.unset` for the zero value.
use tracearr.Prelude.{◌≡◌, ◌↔◌, Bool, true, false, ◌&&◌, String, List, Eq, string_eq, arith}
use tracearr.Prelude.Int.{ℤ, pos, int_beq, int_beq_iff}
use tracearr.Prelude.Clock.{Time}
use text.Mathlib.Text.{◌==◌ as str_eq}
use text.Mathlib.TextEquality.{eq_iff}

abbrev pub MediaType : Type 0
MediaType = String

abbrev pub media_type_movie : MediaType
media_type_movie = "movie"

abbrev pub media_type_tv : MediaType
media_type_tv = "tv"

pub data Phase : Type 0 where
  request_opened request_approved request_closed : Phase
  grabbed download_start download_done imported manual_needed : Phase
  unknown : String → Phase

pub data Source : Type 0 where
  overseerr jellyseerr sonarr radarr prowlarr nzbget sabnzbd : Source

-- string(src)
unfoldable pub source_text : Source → String
source_text overseerr = "overseerr"
source_text jellyseerr = "jellyseerr"
source_text sonarr = "sonarr"
source_text radarr = "radarr"
source_text prowlarr = "prowlarr"
source_text nzbget = "nzbget"
source_text sabnzbd = "sabnzbd"

abbrev pub is_radarr : Source → Bool
is_radarr radarr = true
is_radarr _ = false

abbrev pub is_sonarr : Source → Bool
is_sonarr sonarr = true
is_sonarr _ = false

-- string(phase)
unfoldable pub phase_text : Phase → String
phase_text request_opened = "request.opened"
phase_text request_approved = "request.approved"
phase_text request_closed = "request.closed"
phase_text grabbed = "arr.grab"
phase_text download_start = "download.start"
phase_text download_done = "download.done"
phase_text imported = "arr.import"
phase_text manual_needed = "arr.manual"
phase_text (unknown t) = t

pub record MediaKey : Type 0 where
  pub type : MediaType
  pub tmdb : ℤ
  pub tvdb : ℤ
  pub season : ℤ
  pub episode : ℤ

unfoldable pub key_beq : MediaKey → MediaKey → Bool
key_beq a b =
    str_eq a.type b.type
    && int_beq a.tmdb b.tmdb
    && int_beq a.tvdb b.tvdb
    && int_beq a.season b.season
    && int_beq a.episode b.episode

pub key_beq_iff : (a b : MediaKey) → (key_beq a b ≡ true) ↔ (a ≡ b)
unfolding key_beq
key_beq_iff a b = ground (
  arith,
  eq_iff a.type b.type,
  int_beq_iff a.tmdb b.tmdb,
  int_beq_iff a.tvdb b.tvdb,
  int_beq_iff a.season b.season,
  int_beq_iff a.episode b.episode,
)

instance abbrev pub key_eq : Eq MediaKey
key_eq = record { beq = key_beq; beq_iff = key_beq_iff }

-- The zero value of the struct.
abbrev pub zero_key : MediaKey
zero_key = record { type = ""; tmdb = pos 0; tvdb = pos 0; season = pos 0; episode = pos 0 }

unfoldable pub series_key : MediaKey → MediaKey
series_key k = record k { season = pos 0; episode = pos 0 }

abbrev pub is_tv : MediaKey → Bool
is_tv k = str_eq k.type media_type_tv

pub data Outcome : Type 0 where
  available failed declined timeout unset : Outcome

-- string(outcome)
unfoldable pub outcome_text : Outcome → String
outcome_text available = "available"
outcome_text failed = "failed"
outcome_text declined = "declined"
outcome_text timeout = "timeout"
outcome_text unset = ""

abbrev pub is_available : Outcome → Bool
is_available available = true
is_available _ = false

pub record EpisodeRef : Type 0 where
  pub tvdb_id : ℤ
  pub season : ℤ
  pub episode : ℤ
  pub title : String

pub record Release : Type 0 where
  pub title : String
  pub indexer : String
  pub group : String
  pub quality : String
  pub quality_profile : String
  pub size_bytes : ℤ
  pub custom_format_score : ℤ
  pub download_client : String
  pub download_id : String
  pub protocol : String
  pub episodes : List EpisodeRef
  pub is_upgrade : Bool

pub record Event : Type 0 where
  pub source : Source
  pub phase : Phase
  pub occurred_at : Time
  pub key : MediaKey
  pub title : String
  pub outcome : Outcome
  pub release : Release
  pub request_id : String
  pub requested_by : String
  pub import_path : String
  pub file_size_bytes : ℤ
  pub codec : String
  pub resolution : String
  pub error_reason : String
  pub event_id : String
