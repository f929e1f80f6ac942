-- ===== src/Engine/NoLeak/Downloads.antt =====
-- The handlers of downloads leave no child span behind: no second download is opened over a first.
use tracearr.Prelude.{◌≡◌, true, false, some, arith, Option-cases, Bool-cases, inl, inr}
use tracearr.Event.{MediaKey, Event}
use tracearr.Store.{Store, KeyLaws, TraceState, SpanId}
use tracearr.Engine.Calls.{Context, Builder}
use tracearr.Engine.State.{Engine, context_of, put}
use tracearr.Engine.Downloads.{
  time_download_start, start_download, open_download, handle_download_start, park,
  on_download_start, close_transfer, time_download_end, finish_download, on_download_done,
}
use tracearr.Engine.OpenSpans.{is_open, is_loose, NoLeak, NoLeak-replace}
use tracearr.Engine.Records.Downloads.{get-open_download, get-finish_download}

module _ {S : Store} where
  calls-time_download_start :
      (key : MediaKey) (ev : Event) (e : Engine S) → (time_download_start key ev e).calls ≡ e.calls
  unfolding time_download_start
  calls-time_download_start key ev e = ground arith

  calls-time_download_end :
      (key : MediaKey) (ev : Event) (e : Engine S) → (time_download_end key ev e).calls ≡ e.calls
  unfolding time_download_end
  calls-time_download_end key ev e = ground arith

module _ (B : Builder) {S : Store} where
  start_download-loose :
      (ctx : Context) (t : TraceState) (ev : Event) (e : Engine S) (id : SpanId)
      → t.has_download ≡ false
      → is_loose B (start_download B ctx t ev e).1.calls (some (start_download B ctx t ev e).0) id
        ≡ true
      → is_loose B e.calls (some t) id ≡ true
  unfolding start_download is_loose is_open
  start_download-loose ctx t ev e id free = ground arith

  open_download-loose :
      (ctx : Context) (t : TraceState) (key : MediaKey) (ev : Event) (e : Engine S) (id : SpanId)
      → t.has_download ≡ false
      → is_loose B (open_download B ctx t key ev e).calls (some (start_download B ctx t ev e).0) id
        ≡ true
      → is_loose B e.calls (some t) id ≡ true
  unfolding open_download
  open_download-loose ctx t key ev e id free h =
      let (t', e') = start_download B ctx t ev e in
      start_download-loose ctx t ev e id free
        (rw (calls-time_download_start key ev (put t' e')) at h)

  finish_download-loose :
      (t : TraceState) (ev : Event) (e : Engine S) (id : SpanId)
      → is_loose B
          (finish_download t ev e).calls
          (some (record t { has_download = false; updated_at = ev.occurred_at }))
          id
        ≡ true
      → is_loose B e.calls (some t) id ≡ true
  unfolding finish_download close_transfer is_loose is_open
  finish_download-loose t ev e id = ground (
    arith,
    calls-time_download_end t.key ev (
        put (record t { has_download = false; updated_at = ev.occurred_at })
          (close_transfer (context_of e t.key) t ev e)),
  )

module _ (B : Builder) {S : Store} (L : KeyLaws S) where
  open L use {Wf, get_by_download_id_found}

  pub handle_download_start-NoLeak :
      (ctx : Context) (t : TraceState) (key : MediaKey) (ev : Event) (e : Engine S)
      → S.get e.store t.key ≡ some t
      → NoLeak B e
      → NoLeak B (handle_download_start B ctx t key ev e)
  unfolding handle_download_start
  handle_download_start-NoLeak ctx t key ev e there h = elim (Bool-cases t.has_download) [
    | inl busy ↦ simp (busy, handle_download_start) h
    | inr free ↦
        simp (free, handle_download_start)
          (NoLeak-replace B e (open_download B ctx t key ev e) t.key (some t)
            (some (start_download B ctx t ev e).0) there (get-open_download L B ctx t key ev e)
            (λ id. open_download-loose B ctx t key ev e id free) h)
  ]

  pub on_download_start-NoLeak :
      (ev : Event) (e : Engine S) → Wf e.store → NoLeak B e → NoLeak B (on_download_start B ev e)
  unfolding on_download_start park
  on_download_start-NoLeak ev e wf h =
      elim (Option-cases (S.get_by_download_id e.store ev.release.download_id)) [
        | inl missing ↦ rw (missing, on_download_start) h
        | inr (t, found) ↦
            rw (found, on_download_start)
              (handle_download_start-NoLeak (context_of e t.key) t t.key ev e
                (get_by_download_id_found e.store ev.release.download_id t wf found) h)
      ]

  pub on_download_done-NoLeak :
      (ev : Event) (e : Engine S) → Wf e.store → NoLeak B e → NoLeak B (on_download_done ev e)
  unfolding on_download_done
  on_download_done-NoLeak ev e wf h =
      elim (Option-cases (S.get_by_download_id e.store ev.release.download_id)) [
        | inl missing ↦ rw (missing, on_download_done) h
        | inr (t, found) ↦
            rw (found, on_download_done)
              (NoLeak-replace B e (finish_download t ev e) t.key (some t)
                (some (record t { has_download = false; updated_at = ev.occurred_at }))
                (get_by_download_id_found e.store ev.release.download_id t wf found)
                (get-finish_download L t ev e) (finish_download-loose B t ev e) h)
      ]
