-- ===== src/Engine/Coherence/Downloads.antt =====
-- The handlers of downloads keep the traces coherent.
use tracearr.Prelude.{◌≡◌, refl, false, some, Option-cases, Bool-cases, inl, inr, subst, sym}
use tracearr.Event.{MediaKey, Event}
use tracearr.Store.{Store, KeyLaws, TraceState}
use tracearr.Engine.Calls.{Context, Builder}
use tracearr.Engine.State.{Engine, context_of, put}
use tracearr.Engine.Downloads.{
  start_download, open_download, handle_download_start, park, on_download_start, close_transfer,
  finish_download, on_download_done,
}
use tracearr.Engine.Records.Downloads.{
  time_download_start-SameTraces, time_download_end-SameTraces, close_transfer-SameTraces,
  start_download-SameTraces, ctx_by_key-open_download, ctx_by_key-finish_download,
  get-open_download, get-finish_download,
}
use tracearr.Engine.Coherence.Defs.{Coherent, Coherent-update, Coherent-same}

module _ {S : Store} (L : KeyLaws S) where
  open L use {Wf, Wf-put, get_by_download_id_found}

  Wf-open_download :
      (B : Builder) (ctx : Context) (t : TraceState) (key : MediaKey) (ev : Event) (e : Engine S)
      → Wf e.store
      → Wf (open_download B ctx t key ev e).store
  unfolding open_download
  Wf-open_download B ctx t key ev e wf =
      let (t', e') = start_download B ctx t ev e in
      subst Wf (sym (time_download_start-SameTraces key ev (put t' e')).0)
        (Wf-put e'.store t' (subst Wf (sym (start_download-SameTraces B ctx t ev e).0) wf))

  Wf-finish_download :
      (t : TraceState) (ev : Event) (e : Engine S) → Wf e.store → Wf (finish_download t ev e).store
  unfolding finish_download
  Wf-finish_download t ev e wf =
      let t' = record t { has_download = false; updated_at = ev.occurred_at } in
      let e' = close_transfer (context_of e t.key) t ev e in
      subst Wf (sym (time_download_end-SameTraces t.key ev (put t' e')).0) (
        Wf-put e'.store t'
          (subst Wf (sym (close_transfer-SameTraces (context_of e t.key) t ev e).0) wf))

  pub handle_download_start-Coherent :
      (B : Builder) (ctx : Context) (t : TraceState) (key : MediaKey) (ev : Event) (e : Engine S)
      → S.get e.store t.key ≡ some t
      → Coherent L e
      → Coherent L (handle_download_start B ctx t key ev e)
  unfolding handle_download_start
  handle_download_start-Coherent B ctx t key ev e there h = elim (Bool-cases t.has_download) [
    | inl busy ↦ simp (busy, handle_download_start) h
    | inr free ↦
        simp (free, handle_download_start)
          (Coherent-update L e (open_download B ctx t key ev e) t.key t
            (start_download B ctx t ev e).0 (Wf-open_download B ctx t key ev e h.wf) there
            (get-open_download L B ctx t key ev e) (ctx_by_key-open_download B ctx t key ev e) h)
  ]

  pub on_download_start-Coherent :
      (B : Builder) (ev : Event) (e : Engine S)
      → Coherent L e
      → Coherent L (on_download_start B ev e)
  unfolding on_download_start park
  on_download_start-Coherent B ev e h =
      elim (Option-cases (S.get_by_download_id e.store ev.release.download_id)) [
        | inl missing ↦ rw (missing, on_download_start) (Coherent-same L e (park ev e) refl refl h)
        | inr (t, found) ↦
            rw (found, on_download_start)
              (handle_download_start-Coherent B (context_of e t.key) t t.key ev e
                (get_by_download_id_found e.store ev.release.download_id t h.wf found) h)
      ]

  pub on_download_done-Coherent :
      (ev : Event) (e : Engine S) → Coherent L e → Coherent L (on_download_done ev e)
  unfolding on_download_done
  on_download_done-Coherent ev e h =
      elim (Option-cases (S.get_by_download_id e.store ev.release.download_id)) [
        | inl missing ↦ rw (missing, on_download_done) h
        | inr (t, found) ↦
            rw (found, on_download_done)
              (Coherent-update L e (finish_download t ev e) t.key t
                (record t { has_download = false; updated_at = ev.occurred_at })
                (Wf-finish_download t ev e h.wf)
                (get_by_download_id_found e.store ev.release.download_id t h.wf found)
                (get-finish_download L t ev e) (ctx_by_key-finish_download t ev e) h)
      ]
