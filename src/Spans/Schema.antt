-- ===== src/Spans/Schema.antt =====
-- internal/spans/schema.go: names of spans, attribute keys and reasons, as far as the code uses them;
-- and the attributes of OpenTelemetry, a key and a value.
use tracearr.Prelude.{String, List}
use tracearr.Prelude.Int.{ℤ}
use tracearr.Event.{EpisodeRef}

-- attribute.Value. `json` is the text that json.Marshal gives for a list of episodes.
pub data Value : Type 0 where
  text : String → Value
  int : ℤ → Value
  json : List EpisodeRef → Value

-- attribute.KeyValue
abbrev pub Attr : Type 0
Attr = String × Value

abbrev pub span_media_request : String
span_media_request = "media.request"

abbrev pub span_prowlarr_search : String
span_prowlarr_search = "prowlarr.search"

abbrev pub span_sonarr_grab : String
span_sonarr_grab = "sonarr.grab"

abbrev pub span_radarr_grab : String
span_radarr_grab = "radarr.grab"

abbrev pub span_download_transfer : String
span_download_transfer = "download.transfer"

abbrev pub span_sonarr_import : String
span_sonarr_import = "sonarr.import"

abbrev pub span_radarr_import : String
span_radarr_import = "radarr.import"

abbrev pub media_type : String
media_type = "media.type"

abbrev pub media_attempt : String
media_attempt = "media.attempt"

abbrev pub media_tmdb_id : String
media_tmdb_id = "media.tmdb_id"

abbrev pub media_tvdb_id : String
media_tvdb_id = "media.tvdb_id"

abbrev pub media_title : String
media_title = "media.title"

abbrev pub media_request_id : String
media_request_id = "media.request_id"

abbrev pub media_requested_by : String
media_requested_by = "media.requested_by"

abbrev pub media_source : String
media_source = "media.source"

abbrev pub media_indexer : String
media_indexer = "media.indexer"

abbrev pub media_search_query : String
media_search_query = "media.search_query"

abbrev pub media_release_title : String
media_release_title = "media.release_title"

abbrev pub media_release_group : String
media_release_group = "media.release_group"

abbrev pub media_quality : String
media_quality = "media.quality"

abbrev pub media_quality_profile : String
media_quality_profile = "media.quality_profile"

abbrev pub media_size_bytes : String
media_size_bytes = "media.size_bytes"

abbrev pub media_custom_format_score : String
media_custom_format_score = "media.custom_format_score"

abbrev pub media_download_client : String
media_download_client = "media.download_client"

abbrev pub media_download_client_id : String
media_download_client_id = "media.download_client_id"

abbrev pub media_protocol : String
media_protocol = "media.protocol"

abbrev pub media_episodes : String
media_episodes = "media.episodes"

abbrev pub prowlarr_elapsed_ms : String
prowlarr_elapsed_ms = "prowlarr.elapsed_ms"

abbrev pub download_bytes : String
download_bytes = "download.bytes_downloaded"

abbrev pub media_import_path : String
media_import_path = "media.import_path"

abbrev pub media_file_size_bytes : String
media_file_size_bytes = "media.file_size_bytes"

abbrev pub media_codec : String
media_codec = "media.codec"

abbrev pub media_resolution : String
media_resolution = "media.resolution"

abbrev pub media_upgrade_reason : String
media_upgrade_reason = "media.upgrade_reason"

abbrev pub err_tracearr_timeout : String
err_tracearr_timeout = "tracearr.timeout"

abbrev pub err_manual_interaction : String
err_manual_interaction = "arr.manual_interaction_required"

abbrev pub err_overseerr_declined : String
err_overseerr_declined = "overseerr.declined"

abbrev pub err_overseerr_failed : String
err_overseerr_failed = "overseerr.failed"

abbrev pub err_download_failed : String
err_download_failed = "download.failed"

abbrev pub upgrade_quality : String
upgrade_quality = "quality_upgrade"

abbrev pub upgrade_failed_retry : String
upgrade_failed_retry = "failed_retry"

abbrev pub upgrade_manual_search : String
upgrade_manual_search = "manual"
