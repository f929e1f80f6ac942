-- ===== src/Engine/Records/Imports.antt =====
-- What `onImported`, `onManualNeeded` and `NoteQueueIssue` do to the records.
use tracearr.Prelude.{◌≡◌, refl, Bool, false, ◌||◌, ◌&&◌, String, none, some, if◌then◌else◌, arith}
use tracearr.Prelude.Clock.{Time}
use tracearr.Event.{MediaKey, key_beq, Event, is_radarr, is_sonarr, available}
use tracearr.Store.{Store, KeyLaws, TraceState}
use tracearr.Spans.Schema
use Prim.Native.String.{◌++◌ as str_append}
use tracearr.Engine.Calls.{Context}
use tracearr.Engine.State.{Engine, context_of, put}
use tracearr.Engine.Requests.{close_download, close_grab, forget_trace}
use tracearr.Engine.Imports.{
  emit_import, time_import, close_orphan_root, close_orphan, finish_import, note_manual,
}
use tracearr.Engine.Queue.{note_stall}
use tracearr.Engine.Records.Requests.{
  SameTraces, close_download-SameTraces, close_grab-SameTraces, close_download-state,
  close_grab-state, finish_timing-SameTraces,
}

-- Radarr and Sonarr open no request: such a trace ends with its import.
abbrev pub is_orphan : TraceState → Bool
is_orphan t = is_sonarr t.source || is_radarr t.source

-- The record after an import, while its trace goes on.
abbrev pub imported_state : Event → TraceState → TraceState
imported_state ev t = record t {
  has_download = false;
  has_grab = false;
  updated_at = ev.occurred_at;
}

module _ {S : Store} where
  pub emit_import-SameTraces :
      (ctx : Context) (ev : Event) (t : TraceState) (e : Engine S)
      → SameTraces e (emit_import ctx ev t e)
  unfolding emit_import
  emit_import-SameTraces ctx ev t e = (refl, refl)

  pub time_import-SameTraces :
      (key : MediaKey) (ev : Event) (e : Engine S) → SameTraces e (time_import key ev e)
  unfolding time_import
  time_import-SameTraces key ev e = ground arith

  pub close_orphan_root-SameTraces :
      (ctx : Context) (ev : Event) (t : TraceState) (e : Engine S)
      → SameTraces e (close_orphan_root ctx ev t e)
  unfolding close_orphan_root
  close_orphan_root-SameTraces ctx ev t e = ground arith

module _ {S : Store} (L : KeyLaws S) where
  open L use {get-put, get-delete, get-remember_closed}

  pub get-close_orphan :
      (ctx : Context) (ev : Event) (t : TraceState) (key : MediaKey) (e : Engine S) (j : MediaKey)
      → S.get (close_orphan ctx ev t key e).store j
        ≡ (if is_orphan t && key_beq key j then none else S.get e.store j)
  unfolding close_orphan forget_trace
  get-close_orphan ctx ev t key e j = ground (
    arith,
    close_orphan_root-SameTraces ctx ev t e,
    finish_timing-SameTraces key t available Schema.upgrade_manual_search ev
        (forget_trace key t available ev (close_orphan_root ctx ev t e)),
    get-delete e.store key j,
    get-remember_closed (S.delete e.store key) key t.trace_id t.attempt available ev.occurred_at j,
  )

  pub get-finish_import :
      (ev : Event) (t : TraceState) (key : MediaKey) (e : Engine S) (j : MediaKey)
      → t.key ≡ key
      → S.get (finish_import ev t key e).store j ≡ (
          if key_beq key j
          then (if is_orphan t then none else some (imported_state ev t))
          else S.get e.store j)
  unfolding finish_import
  get-finish_import ev t key e j keyed =
      let ctx = context_of e key in
      let p = close_download ctx ev (t, e) in
      let q = close_grab ctx ev (p.0, emit_import ctx ev p.0 p.1) in
      let t₃ = record q.0 { updated_at = ev.occurred_at } in
      ground (
        arith,
        get-close_orphan ctx ev t₃ key (time_import key ev (put t₃ q.1)) j,
        close_download-state ctx ev t e,
        close_grab-state ctx ev p.0 (emit_import ctx ev p.0 p.1),
        close_download-SameTraces ctx ev (t, e),
        close_grab-SameTraces ctx ev (p.0, emit_import ctx ev p.0 p.1),
        emit_import-SameTraces ctx ev p.0 p.1,
        time_import-SameTraces key ev (put t₃ q.1),
        get-put e.store (imported_state ev t) j,
      )

  pub get-note_manual :
      (ev : Event) (t : TraceState) (key : MediaKey) (e : Engine S) (j : MediaKey)
      → S.get (note_manual ev t key e).store j ≡ (
          if key_beq t.key j
          then some
              (record t { last_error = Schema.err_manual_interaction; updated_at = ev.occurred_at })
          else S.get e.store j)
  unfolding note_manual
  get-note_manual ev t key e j = get-put e.store _ j

  pub get-note_stall :
      (status msg : String) (when : Time) (t : TraceState) (e : Engine S) (j : MediaKey)
      → S.get (note_stall status msg when t e).store j ≡ (
          if key_beq t.key j
          then some (record t { last_error = str_append "arr.queue_" status; updated_at = when })
          else S.get e.store j)
  unfolding note_stall
  get-note_stall status msg when t e j = get-put e.store _ j
