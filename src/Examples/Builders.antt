-- ===== src/Examples/Builders.antt =====
-- internal/spans/builder.go: the builder under the engine, and alone.
use tracearr.Prelude.{◌≡◌, refl, List, [], ◌∷◌, none, string_eq}
use tracearr.Prelude.Map
use tracearr.Event.{MediaKey, key_eq, key_beq, series_key, source_text}
use tracearr.Store.Memory
use tracearr.Store.Memory.{memory_store}
use tracearr.Store.Memory.Records.{memory_store-KeyLaws}
use tracearr.Engine.Calls.{Context}
use tracearr.Engine.State.{Engine, resolve_trace, emit, put, measure, context_of}
use tracearr.Engine.Process.{process, dispatch}
use tracearr.Engine.Requests.{
  on_request_opened, open_request, start_request, install_request, next_attempt, request_reason,
  request_attrs, request_links,
}
use tracearr.Engine.Runs.{Action, deliver, run, act, Sound, new-Sound}
use tracearr.Engine.Downloads.{
  on_download_start, handle_download_start, open_download, start_download, time_download_start,
}
use tracearr.Engine.Requests.{
  close_download, close_grab, close_request_root, forget_trace, finish_timing, close_request,
  on_request_closed,
}
use tracearr.Engine.Grabs.{
  emit_search, supersede_grab, open_grab, time_grab, replay_download, grab, on_grabbed,
}
use tracearr.Engine.State
use tracearr.Engine.OpenSpans.{is_open}
use tracearr.Examples.{ascii_lower, opening, grabbing, starting, closing, fresh}
use tracearr.Engine.Calls.{Call}
use tracearr.Spans.Builder.{
  SpanContext, Operation, perform, keep_open, open_root, serve, serve_all, otel_builder,
}
use tracearr.Spans.Builder.Open.{is_open_root, open_spans-serve_all}
use tracearr.Spans.Builder.Quiet.{open_spans-run, open_spans-closed_root}
use tracearr.Prelude.{nat_eq, is_some, ◌||◌, true}
use tracearr.Prelude.Lists.{length}

-- The SDK numbers its spans by the operations.
abbrev numbered : List Operation → SpanContext
numbered ops = record { trace_id = length ops; span_id = length ops }

abbrev life : List Action
life =
    deliver Context.todo opening
    ∷ deliver Context.todo grabbing
    ∷ deliver Context.todo starting
    ∷ deliver Context.todo closing
    ∷ []

fresh-Sound : Sound (otel_builder numbered) memory_store-KeyLaws.0 fresh
fresh-Sound =
    new-Sound ascii_lower (otel_builder numbered) memory_store-KeyLaws.0 (Memory.new 1000 1000) 1000
      (memory_store-KeyLaws.1 1000 1000) (memory_store-KeyLaws.2 1000 1000)

life_done :
    (k : MediaKey)
    → memory_store.get (run ascii_lower (otel_builder numbered) life fresh).store k ≡ none
unfolding run act process dispatch on_request_opened open_request start_request install_request
    request_reason request_links next_attempt request_attrs resolve_trace emit put measure
    context_of State.new Memory.new Memory.get Memory.get_by_download_id Memory.put Memory.delete
    Memory.seen_event Memory.dedup_key Memory.remember_closed Memory.recall_closed
    Memory.find_closed Map.get Map.insert Map.delete Map.drop_if Map.select source_text on_grabbed
    grab emit_search supersede_grab open_grab time_grab replay_download on_download_start
    handle_download_start open_download start_download time_download_start on_request_closed
    close_request close_download close_grab close_request_root forget_trace finish_timing key_beq
    series_key
life_done k = refl

open_spans-run_example :
    let after = run ascii_lower (otel_builder numbered) life fresh in
    is_some (Map.get 1 (serve_all numbered after.calls).open_spans)
    ≡ is_open_root numbered after.calls 1
open_spans-run_example =
    open_spans-run numbered ascii_lower memory_store-KeyLaws.0 life fresh fresh-Sound life_done 1
      refl

abbrev one_root : List Call
one_root = Call.open_root Context.todo "media.request" "SERVER" 100 [] [] ∷ []

open_spans-closed_root_example :
    is_some (
      Map.get 1
        (serve_all numbered
          (Call.close_span (Context.live 1 1) 0 200 true "" [] ∷ one_root)).open_spans)
    ≡ true
unfolding serve_all serve open_root keep_open perform
open_spans-closed_root_example =
    open_spans-closed_root numbered [] Context.todo (Context.live 1 1) "media.request" "SERVER" 100
      200 true "" [] [] [] refl

open_spans-serve_all_example :
    is_some (Map.get 1 (serve_all numbered one_root).open_spans)
    ≡ (is_open (otel_builder numbered) one_root 1 || is_open_root numbered one_root 1)
open_spans-serve_all_example = open_spans-serve_all numbered one_root 1 refl
