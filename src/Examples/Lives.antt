-- ===== src/Examples/Lives.antt =====
-- internal/correlate/engine.go: traces from their request to their end.
use tracearr.Prelude.{
  String, suc, ◌≡◌, refl, ◌∙◌, false, List, [], ◌∷◌, none, some, string_eq, if◌then◌else◌,
}
use tracearr.Prelude.Map
use tracearr.Prelude.Map.{discard_if}
use tracearr.Prelude.Int.{pos, wrapping_suc}
use tracearr.Event.{
  MediaKey, key_eq, Event, key_beq, series_key, source_text, available, request_opened,
}
use tracearr.Store.{TraceState}
use tracearr.Store.Memory
use tracearr.Store.Memory.{memory_store}
use tracearr.Store.Memory.Records.{memory_store-KeyLaws}
use tracearr.Store.Memory.Dedup.{memory_store-SeenLaws}
use tracearr.Store.Memory.Recall.{memory_store-RecallLaws}
use tracearr.Engine.Calls.{Context, open_root}
use tracearr.Prelude.Clock.{is_expired}
use tracearr.Spans.Schema
use tracearr.Spans.Schema.{Attr}
use tracearr.Engine.Attributes.{link_to_prior, upgrade_reason_for_outcome}
use tracearr.Engine.State.{LifecycleTiming, Engine, resolve_trace, emit, put, measure, context_of}
use tracearr.Engine.Process.{process, dispatch}
use tracearr.Engine.Requests.{
  on_request_opened, open_request, start_request, install_request, next_attempt, request_reason,
  request_attrs, request_links,
}
use tracearr.Engine.Runs.{Action, deliver, run, act, Sound, new-Sound, run-Sound, run_quiet}
use tracearr.Engine.Downloads.{
  on_download_start, handle_download_start, open_download, start_download, time_download_start,
}
use tracearr.Engine.Requests.{
  close_download, close_grab, close_request_root, forget_trace, finish_timing, close_request,
  on_request_closed,
}
use tracearr.Engine.Grabs.{
  emit_search, supersede_grab, open_grab, time_grab, replay_download, grab, on_grabbed,
}
use tracearr.Engine.Lifetime.{sweep}
use tracearr.Engine.State
use tracearr.Store.{is_stale}
use tracearr.Engine.OpenSpans.{is_open}
use tracearr.Engine.GrabGauge.{run-Level}
use tracearr.Engine.Gauges.{grab_falls, sweep-untimed}
use tracearr.Engine.Gauges.Rises.{grab_rises}
use tracearr.Engine.Lifetime.{restore}
use tracearr.Engine.Restart.{restore-Sound}
use tracearr.Engine.Duplicates.{process_twice}
use tracearr.Engine.Attempts.{closed_record, reopened_links}
use tracearr.Engine.OutOfOrder.Parked.{without_parked}
use tracearr.Engine.OutOfOrder.{grab_download_commute}
use tracearr.Engine.Records.Lifetime.{get-sweep}
use tracearr.Examples.{
  numbering, event, ascii_lower, opening, grabbing, starting, closing, fresh, opened_record,
  episode_key,
}

abbrev life : List Action
life =
    deliver Context.todo opening
    ∷ deliver Context.todo grabbing
    ∷ deliver Context.todo starting
    ∷ deliver Context.todo closing
    ∷ []

pub fresh-Sound : Sound numbering memory_store-KeyLaws.0 fresh
fresh-Sound =
    new-Sound ascii_lower numbering memory_store-KeyLaws.0 (Memory.new 1000 1000) 1000
      (memory_store-KeyLaws.1 1000 1000) (memory_store-KeyLaws.2 1000 1000)

run-Sound_example : Sound numbering memory_store-KeyLaws.0 (run ascii_lower numbering life fresh)
run-Sound_example = run-Sound ascii_lower numbering memory_store-KeyLaws.0 life fresh fresh-Sound

run-Level_example :
    let e = run ascii_lower numbering life fresh in
    (grab_falls e.metrics ≡ grab_falls fresh.metrics)
    × ((ctx : Context) (ev : Event) (t : TraceState) (key : MediaKey) (l : LifecycleTiming)
        → resolve_trace e ev.key ≡ some (t, key)
        → Map.get key e.timing ≡ some l
        → grab_rises (on_grabbed numbering ctx ev e).metrics ≡ suc (grab_rises e.metrics))
run-Level_example = run-Level ascii_lower numbering life fresh

life_done : (k : MediaKey) → memory_store.get (run ascii_lower numbering life fresh).store k ≡ none
unfolding run act process dispatch on_request_opened open_request start_request install_request
    request_reason request_links next_attempt request_attrs resolve_trace emit put measure
    context_of State.new Memory.new Memory.get Memory.get_by_download_id Memory.put Memory.delete
    Memory.seen_event Memory.dedup_key Memory.remember_closed Memory.recall_closed
    Memory.find_closed Map.get Map.insert Map.delete Map.drop_if Map.select source_text on_grabbed
    grab emit_search supersede_grab open_grab time_grab replay_download on_download_start
    handle_download_start open_download start_download time_download_start on_request_closed
    close_request close_download close_grab close_request_root forget_trace finish_timing key_beq
    series_key
life_done k = refl

run_quiet_example : (is_open numbering (run ascii_lower numbering life fresh).calls 2 ≡ false)
run_quiet_example =
    run_quiet ascii_lower numbering memory_store-KeyLaws.0 life fresh fresh-Sound life_done 2

process_twice_example :
    let once = process numbering Context.todo opening fresh in
    process numbering Context.nil opening once
    ≡ record once { store = (memory_store.seen_event once.store opening.source "a" 100).1 }
process_twice_example =
    process_twice numbering memory_store-SeenLaws.0 Context.todo Context.nil opening fresh refl

abbrev pub once : Engine memory_store
once = process numbering Context.todo opening fresh

get-sweep_example : memory_store.get (sweep 5000 100 once).store episode_key ≡ (
    if is_stale 100 5000 (memory_store.get once.store episode_key)
    then none
    else memory_store.get once.store episode_key)
get-sweep_example = get-sweep memory_store-KeyLaws.0 5000 100 once episode_key

sweep-untimed_example :
    ((sweep 5000 100 once).timing ≡ once.timing) × ((sweep 5000 100 once).metrics ≡ once.metrics)
sweep-untimed_example = sweep-untimed 5000 100 once

pub once_records :
    (j : MediaKey)
    → memory_store.get once.store j ≡ (if key_beq episode_key j then some opened_record else none)
unfolding process dispatch on_request_opened open_request start_request install_request
    request_reason request_links next_attempt request_attrs resolve_trace emit put measure State.new
    Memory.new Memory.get Memory.put Memory.seen_event Memory.dedup_key Memory.recall_closed
    Memory.find_closed Map.get Map.insert Map.drop_if source_text key_beq series_key
once_records j = refl

once_found : resolve_trace once episode_key ≡ some (opened_record, episode_key)
unfolding process dispatch on_request_opened open_request start_request install_request
    request_reason request_links next_attempt request_attrs resolve_trace emit put measure State.new
    Memory.new Memory.get Memory.put Memory.seen_event Memory.dedup_key Memory.recall_closed
    Memory.find_closed Map.get Map.insert Map.drop_if source_text key_beq series_key
once_found = refl

pub once-Sound : Sound numbering memory_store-KeyLaws.0 once
unfolding run act
once-Sound =
    run-Sound ascii_lower numbering memory_store-KeyLaws.0 (deliver Context.todo opening ∷ []) fresh
      fresh-Sound

once_no_download : memory_store.get_by_download_id once.store "dl" ≡ none
unfolding process dispatch on_request_opened open_request start_request install_request
    request_reason request_links next_attempt request_attrs resolve_trace emit put measure State.new
    Memory.new Memory.get Memory.get_by_download_id Memory.put Memory.seen_event Memory.dedup_key
    Memory.recall_closed Memory.find_closed Map.get Map.insert Map.drop_if source_text key_beq
    series_key
once_no_download = refl

once_none_parked : Map.get "dl" once.pending_dl ≡ none
unfolding process dispatch on_request_opened open_request start_request install_request
    request_reason resolve_trace emit put measure State.new Memory.new Memory.get Memory.put
    Memory.seen_event Memory.dedup_key Memory.recall_closed Memory.find_closed Map.get Map.insert
    Map.drop_if source_text key_beq series_key
once_none_parked = refl

once_recall : is_expired once.store.recall_ttl 500 400 ≡ false
unfolding process dispatch on_request_opened open_request start_request install_request
    request_reason resolve_trace emit put measure State.new Memory.new Memory.get Memory.put
    Memory.seen_event Memory.dedup_key Memory.recall_closed Memory.find_closed Map.get Map.insert
    Map.drop_if source_text key_beq series_key
once_recall = refl

once_closed : resolve_trace (on_request_closed closing once) episode_key ≡ none
unfolding process dispatch on_request_opened open_request start_request install_request
    request_reason request_links next_attempt request_attrs resolve_trace emit put measure
    context_of State.new Memory.new Memory.get Memory.put Memory.delete Memory.seen_event
    Memory.dedup_key Memory.remember_closed Memory.recall_closed Memory.find_closed Map.get
    Map.insert Map.delete Map.drop_if source_text on_request_closed close_request close_download
    close_grab close_request_root forget_trace finish_timing key_beq series_key
once_closed = refl

-- the request that comes again
abbrev again : Event
again = event request_opened 500 "e" ""

grab_download_commute_example :
    without_parked
        (on_grabbed numbering Context.todo grabbing (on_download_start numbering starting once))
      ≡ without_parked
          (on_download_start numbering starting (on_grabbed numbering Context.todo grabbing once))
    × ((on_download_start numbering starting
          (on_grabbed numbering Context.todo grabbing once)).pending_dl
        ≡ once.pending_dl)
    × ((id : String)
        → Map.get id
            (on_grabbed numbering Context.todo grabbing
              (on_download_start numbering starting once)).pending_dl
          ≡ discard_if
              (λ p. is_expired once.pending_dl_ttl starting.occurred_at p.added_at)
              (Map.get id once.pending_dl))
grab_download_commute_example =
    grab_download_commute numbering memory_store-KeyLaws.0 Context.todo starting grabbing
      opened_record episode_key once refl refl once-Sound.coherent.wf once_found once_no_download
      once_none_parked

reopened_links_example :
    let closed = on_request_closed closing once in
    let reopened = on_request_opened numbering Context.todo again closed in
    (t' : TraceState) × (memory_store.get reopened.store episode_key ≡ some t')
    × (t'.attempt ≡ wrapping_suc (pos 1))
    × ((attrs : List Attr) × (reopened.calls
          ≡ open_root Context.todo Schema.span_media_request "SERVER" 500 attrs (
              link_to_prior
                (closed_record closing opened_record)
                (upgrade_reason_for_outcome available)
              ∷ [])
            ∷ closed.calls))
reopened_links_example =
    reopened_links memory_store-KeyLaws.0 memory_store-RecallLaws.0 numbering Context.todo closing
      again opened_record once once_found
      (memory_store-RecallLaws.1 once.store 400 500 ∙ once_recall) once_closed

-- The store of a process that opened one trace, taken up by a new process.
restore-Sound_example :
    Sound numbering memory_store-KeyLaws.0 (restore (State.new {S = memory_store} once.store 1000))
restore-Sound_example =
    restore-Sound memory_store-KeyLaws.0 numbering once.store 1000 once-Sound.coherent.wf
