-- ===== src/Engine/Records/Resolve.antt =====
-- What `resolveTrace` finds: the record of the key, or for a series that of the whole series.
use tracearr.Prelude.{◌≡◌, none, some, arith}
use tracearr.Event.{MediaKey}
use tracearr.Store.{Store, KeyLaws, TraceState}
use tracearr.Engine.State.{Engine, resolve_trace}

module _ {S : Store} where
  pub resolve_trace-get :
      (e : Engine S) (k : MediaKey) {t : TraceState} {key : MediaKey}
      → resolve_trace e k ≡ some (t, key)
      → S.get e.store key ≡ some t
  unfolding resolve_trace
  resolve_trace-get e k h = ground arith

  pub resolve_trace_missing :
      (e : Engine S) (k : MediaKey) → resolve_trace e k ≡ none → S.get e.store k ≡ none
  unfolding resolve_trace
  resolve_trace_missing e k h = ground arith

module _ {S : Store} (L : KeyLaws S) where
  open L use {Wf, get_keyed}

  pub resolve_trace-keyed :
      (e : Engine S) (k : MediaKey) {t : TraceState} {key : MediaKey}
      → Wf e.store
      → resolve_trace e k ≡ some (t, key)
      → t.key ≡ key
  resolve_trace-keyed e k {t} {key} wf h = get_keyed e.store key t wf (resolve_trace-get e k h)

  -- The record found stands under its own key.
  pub resolve_trace_own :
      (e : Engine S) (k : MediaKey) {t : TraceState} {key : MediaKey}
      → Wf e.store
      → resolve_trace e k ≡ some (t, key)
      → S.get e.store t.key ≡ some t
  resolve_trace_own e k wf h = cc (resolve_trace-keyed e k wf h, resolve_trace-get e k h)
