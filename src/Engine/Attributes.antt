-- ===== src/Engine/Attributes.antt =====
-- internal/correlate/engine.go: the attributes of spans, and the reasons and links of a later
-- attempt.
use tracearr.Prelude.{String, List, [], ◌∷◌, ◌++◌, ◌==◌, string_eq, if◌then◌else◌, ltb}
use tracearr.Prelude.Int.{ℤ, is_nonzero, is_positive}
use tracearr.Prelude.Lists.{length}
use tracearr.Event.{MediaKey, Release, Outcome, available, failed, timeout, source_text}
use tracearr.Store.{TraceState, ClosedTrace}
use tracearr.Spans.Schema
use tracearr.Spans.Schema.{Attr, text, int, json}
use tracearr.Engine.Calls.{Link}

-- if v != "" { attrs = append(attrs, key.String(v)) }
unfoldable pub text_attr : String → String → List Attr
text_attr key v = if v == "" then [] else (key, text v) ∷ []

-- if n > 0 { attrs = append(attrs, key.Int64(n)) }
unfoldable pub positive_attr : String → ℤ → List Attr
positive_attr key n = if is_positive n then (key, int n) ∷ [] else []

unfoldable pub nonzero_attr : String → ℤ → List Attr
nonzero_attr key n = if is_nonzero n then (key, int n) ∷ [] else []

unfoldable pub base_attrs : MediaKey → String → ℤ → List Attr
unfolding text_attr nonzero_attr
base_attrs k title attempt =
    (Schema.media_type, text k.type)
    ∷ (Schema.media_attempt, int attempt)
    ∷ (text_attr Schema.media_title title
        ++ (nonzero_attr Schema.media_tmdb_id k.tmdb ++ nonzero_attr Schema.media_tvdb_id k.tvdb))

unfoldable pub resumed_root_attrs : TraceState → List Attr
unfolding base_attrs
resumed_root_attrs s =
    base_attrs s.key s.title s.attempt
    ++ ((Schema.media_source, text (source_text s.source))
        ∷ (text_attr Schema.media_request_id s.request_id
            ++ text_attr Schema.media_requested_by s.requested_by))

unfoldable pub release_attrs : Release → List Attr
unfolding text_attr positive_attr nonzero_attr
release_attrs r =
    text_attr Schema.media_indexer r.indexer
    ++ (text_attr Schema.media_release_title r.title
        ++ (text_attr Schema.media_release_group r.group
            ++ (text_attr Schema.media_quality r.quality
                ++ (text_attr Schema.media_quality_profile r.quality_profile
                    ++ (positive_attr Schema.media_size_bytes r.size_bytes
                        ++ (nonzero_attr Schema.media_custom_format_score r.custom_format_score
                            ++ (text_attr Schema.media_download_client r.download_client
                                ++ (text_attr Schema.media_download_client_id r.download_id
                                    ++ (text_attr Schema.media_protocol r.protocol
                                        ++ (if ltb 1 (length r.episodes)
                                            then (Schema.media_episodes, json r.episodes) ∷ []
                                            else []))))))))))

unfoldable pub upgrade_reason_for_outcome : Outcome → String
upgrade_reason_for_outcome failed = Schema.upgrade_failed_retry
upgrade_reason_for_outcome timeout = Schema.upgrade_failed_retry
upgrade_reason_for_outcome available = Schema.upgrade_quality
upgrade_reason_for_outcome _ = Schema.upgrade_manual_search

-- The link names the trace; its span id is zero.
unfoldable pub link_to_prior : ClosedTrace → String → Link
link_to_prior prior reason = record {
  trace_id = prior.trace_id;
  attrs = (Schema.media_upgrade_reason, text reason) ∷ [];
}
