-- ===== src/Engine/Lifetime.antt =====
-- internal/correlate/engine.go: `Restore`, which takes up the traces of an earlier process, and
-- `Sweep`, which the janitor calls.
use tracearr.Prelude.{ℕ, false, List, [], ◌∷◌, ◌++◌, none, some, if◌then◌else◌}
use tracearr.Prelude.Clock.{Time}
use tracearr.Prelude.Map
use tracearr.Event.{MediaKey, key_eq, timeout}
use tracearr.Store.{Store, TraceState}
use tracearr.Spans.Schema
use tracearr.Spans.Schema.{text}
use tracearr.Engine.Calls.{Context, close_span, synthetic_span}
use tracearr.Engine.State.{Engine, emit, put, context_of}
use tracearr.Engine.Attributes.{resumed_root_attrs}

module _ {S : Store} where
  unfoldable pub resume : TraceState → Engine S → Engine S
  unfolding put
  resume ts e =
      put (record ts { has_grab = false; has_download = false })
        (record e {
          ctx_by_key = Map.insert ts.key (Context.remote ts.trace_id ts.root_span_id) e.ctx_by_key;
        })

  unfoldable pub resume_all : List TraceState → Engine S → Engine S
  resume_all [] e = e
  resume_all (ts ∷ rest) e = resume_all rest (resume ts e)

  unfoldable pub restore : Engine S → Engine S
  restore e = let (loaded, s) = S.load_all e.store in resume_all loaded (record e { store = s })

  -- The open children of a trace end with an error, the download first.
  unfoldable pub time_out_children : Context → Time → TraceState → Engine S → Engine S
  unfolding emit
  time_out_children root_ctx now state e =
      let e' =
        if state.has_download
        then emit
            (close_span root_ctx state.download_span_id now false Schema.err_tracearr_timeout []) e
        else e in
      if state.has_grab
      then emit (close_span root_ctx state.grab_span_id now false Schema.err_tracearr_timeout []) e'
      else e'

  unfoldable pub time_out_root : Context → Time → TraceState → Engine S → Engine S
  unfolding emit
  time_out_root root_ctx now state e =
      if state.resumed
      then emit
          (synthetic_span Context.todo Schema.span_media_request "SERVER" state.opened_at now
            (resumed_root_attrs state ++ ("error.type", text Schema.err_tracearr_timeout) ∷ []))
          e
      else emit (close_span root_ctx 0 now false Schema.err_tracearr_timeout []) e

  unfoldable pub time_out : Time → MediaKey → TraceState → Engine S → Engine S
  time_out now k state e =
      let root_ctx = context_of e k in
      let closed = time_out_root root_ctx now state (time_out_children root_ctx now state e) in
      record closed {
        ctx_by_key = Map.delete k closed.ctx_by_key;
        store =
            S.remember_closed (S.delete closed.store k) k state.trace_id state.attempt timeout now;
      }

  unfoldable pub sweep_key : Time → MediaKey → Engine S → Engine S
  sweep_key now k e = elim (S.get e.store k) [ none ↦ e | some state ↦ time_out now k state e ]

  unfoldable pub sweep_keys : Time → List MediaKey → Engine S → Engine S
  sweep_keys now [] e = e
  sweep_keys now (k ∷ rest) e = sweep_keys now rest (sweep_key now k e)

  unfoldable pub sweep : Time → ℕ → Engine S → Engine S
  sweep now ttl e = sweep_keys now (S.stale e.store ttl now) e
