-- ===== src/Parsers/Downloads.antt =====
-- internal/source/download.go: which stages of a trace the download clients speak of.
use tracearr.Prelude.{
  ◌≡◌, refl, Bool, true, false, String, List, [], ◌∷◌, Option, ◌==◌, string_eq, if◌then◌else◌,
  Bool-cases, Option-cases, inl, inr, sym,
}
use tracearr.Prelude.Clock.{Time}
use tracearr.Event.{zero_key, Event, Phase, Source, download_start, download_done}
use tracearr.Spans.Schema
use tracearr.Parsers.Result.{parsed, parsed_injective}
use tracearr.Parsers.Download.{
  DownloadPayload, is_failure_text, download_event, download_events, parse_download,
}

abbrev pub is_download : Phase → Bool
is_download download_start = true
is_download download_done = true
is_download _ = false

-- An event of a download client: its start or its end, by a download id alone.
unfoldable pub IsDownloadEvent : Source → Event → Type 0
IsDownloadEvent src ev =
    (ev.source ≡ src)
    × (is_download ev.phase ≡ true)
    × ((ev.release.download_id == "") ≡ false)
    × (ev.key ≡ zero_key)

module _ (parse_time : String → Option Time) (to_lower : String → String) where
  download_events-Download :
      (src : Source) (now : Time) (p : DownloadPayload) (evs : List Event)
      → (p.download_id == "") ≡ false
      → download_events parse_time to_lower src now p ≡ parsed evs
      → (ev : Event) × (evs ≡ ev ∷ []) × IsDownloadEvent src ev
  unfolding download_events download_event IsDownloadEvent
  download_events-Download src now p evs named h = elim (Bool-cases (p.event == "queue_added")) [
    | inl added ↦ (
      download_event parse_time to_lower src now p download_start "",
      parsed_injective evs _ (sym (rw (added, download_events) at h)),
      (refl, refl, named, refl),
    )
    | inr not_added ↦ elim (Bool-cases (p.event == "post_processed")) [
      | inl done ↦ (
        download_event parse_time to_lower src now p download_done
            (if is_failure_text (to_lower p.status) then Schema.err_download_failed else ""),
        parsed_injective evs _ (sym (rw (not_added, done, download_events) at h)),
        (refl, refl, named, refl),
      )
      | inr other ↦ cc (rw (not_added, other, download_events) at h)
    ]
  ]

  -- A script of a download client speaks of the start or the end of one download alone, names the
  -- download, and no film or series: a delivery that is parsed is one such event.
  pub parse_download-Download :
      (unmarshal : String → Option DownloadPayload) (src : Source) (now : Time) (raw : String)
      (evs : List Event)
      → parse_download parse_time to_lower unmarshal src now raw ≡ parsed evs
      → (ev : Event) × (evs ≡ ev ∷ []) × IsDownloadEvent src ev
  unfolding parse_download
  parse_download-Download unmarshal src now raw evs h = elim (Option-cases (unmarshal raw)) [
    | inl broken ↦ cc (rw (broken, parse_download) at h)
    | inr (p, read) ↦ elim (Bool-cases (p.download_id == "")) [
      | inl unnamed ↦ cc (rw (read, parse_download, unnamed) at h)
      | inr named ↦
          download_events-Download src now p evs named (rw (read, parse_download, named) at h)
    ]
  ]
