-- ===== src/Engine/Records/Downloads.antt =====
-- What the handlers of downloads do to the records.
use tracearr.Prelude.{◌≡◌, refl, false, some, if◌then◌else◌, arith}
use tracearr.Event.{MediaKey, key_beq, Event}
use tracearr.Store.{Store, KeyLaws, TraceState}
use tracearr.Engine.Calls.{Context, Builder}
use tracearr.Engine.State.{Engine, context_of, put}
use tracearr.Engine.Downloads.{
  time_download_start, start_download, open_download, close_transfer, time_download_end,
  finish_download,
}
use tracearr.Engine.Records.Requests.{SameTraces}

module _ {S : Store} where
  pub time_download_start-SameTraces :
      (key : MediaKey) (ev : Event) (e : Engine S) → SameTraces e (time_download_start key ev e)
  unfolding time_download_start
  time_download_start-SameTraces key ev e = ground arith

  pub time_download_end-SameTraces :
      (key : MediaKey) (ev : Event) (e : Engine S) → SameTraces e (time_download_end key ev e)
  unfolding time_download_end
  time_download_end-SameTraces key ev e = ground arith

  pub close_transfer-SameTraces :
      (ctx : Context) (t : TraceState) (ev : Event) (e : Engine S)
      → SameTraces e (close_transfer ctx t ev e)
  unfolding close_transfer
  close_transfer-SameTraces ctx t ev e = ground arith

  pub start_download-SameTraces :
      (B : Builder) (ctx : Context) (t : TraceState) (ev : Event) (e : Engine S)
      → SameTraces e (start_download B ctx t ev e).1
  unfolding start_download
  start_download-SameTraces B ctx t ev e = (refl, refl)

  pub key-start_download :
      (B : Builder) (ctx : Context) (t : TraceState) (ev : Event) (e : Engine S)
      → (start_download B ctx t ev e).0.key ≡ t.key
  unfolding start_download
  key-start_download B ctx t ev e = refl

  pub ctx_by_key-open_download :
      (B : Builder) (ctx : Context) (t : TraceState) (key : MediaKey) (ev : Event) (e : Engine S)
      → (open_download B ctx t key ev e).ctx_by_key ≡ e.ctx_by_key
  unfolding open_download
  ctx_by_key-open_download B ctx t key ev e =
      let (t', e') = start_download B ctx t ev e in
      ground (
        arith,
        time_download_start-SameTraces key ev (put t' e'),
        start_download-SameTraces B ctx t ev e,
      )

  pub ctx_by_key-finish_download :
      (t : TraceState) (ev : Event) (e : Engine S)
      → (finish_download t ev e).ctx_by_key ≡ e.ctx_by_key
  unfolding finish_download
  ctx_by_key-finish_download t ev e =
      let e' = close_transfer (context_of e t.key) t ev e in
      ground (
        arith,
        time_download_end-SameTraces t.key ev
            (put (record t { has_download = false; updated_at = ev.occurred_at }) e'),
        close_transfer-SameTraces (context_of e t.key) t ev e,
      )

module _ {S : Store} (L : KeyLaws S) where
  open L use {get-put}

  pub get-open_download :
      (B : Builder) (ctx : Context) (t : TraceState) (key : MediaKey) (ev : Event) (e : Engine S)
      (j : MediaKey)
      → S.get (open_download B ctx t key ev e).store j
        ≡ (if key_beq t.key j then some (start_download B ctx t ev e).0 else S.get e.store j)
  unfolding open_download
  get-open_download B ctx t key ev e j =
      let (t', e') = start_download B ctx t ev e in
      ground (
        arith,
        time_download_start-SameTraces key ev (put t' e'),
        start_download-SameTraces B ctx t ev e,
        key-start_download B ctx t ev e,
        get-put e.store t' j,
      )

  pub get-finish_download :
      (t : TraceState) (ev : Event) (e : Engine S) (j : MediaKey)
      → S.get (finish_download t ev e).store j ≡ (
          if key_beq t.key j
          then some (record t { has_download = false; updated_at = ev.occurred_at })
          else S.get e.store j)
  unfolding finish_download
  get-finish_download t ev e j =
      let t' = record t { has_download = false; updated_at = ev.occurred_at } in
      let e' = close_transfer (context_of e t.key) t ev e in
      ground (
        arith,
        time_download_end-SameTraces t.key ev (put t' e'),
        close_transfer-SameTraces (context_of e t.key) t ev e,
        get-put e.store t' j,
      )
