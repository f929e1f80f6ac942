-- ===== src/Engine/Coherence/Grabs.antt =====
-- `onGrabbed` keeps the traces coherent.
use tracearr.Prelude.{
  ◌≡◌, refl, some, arith, Option-cases, Bool-cases, inl, inr, subst, sym, ◌∙◌, ◌==◌, string_eq,
  beq_refl,
}
use tracearr.Prelude.Map
use tracearr.Prelude.Map.{get-insert}
use tracearr.Event.{MediaKey, key_eq, Event}
use tracearr.Store.{Store, KeyLaws, TraceState}
use tracearr.Engine.Calls.{Context, Builder}
use tracearr.Engine.State.{Engine, context_of, resolve_trace}
use tracearr.Engine.Grabs.{
  open_orphan_root, emit_search, supersede_grab, open_grab, time_grab, replay_download, grab,
  grab_orphan, on_grabbed,
}
use tracearr.Engine.Records.Resolve.{resolve_trace_own}
use tracearr.Engine.Records.Grabs.{
  get-open_grab, get-open_orphan_root, open_orphan_root-fields, open_grab-fields,
  supersede_grab-state, supersede_grab-SameTraces, emit_search-SameTraces, time_grab-SameTraces,
  ctx_by_key-open_grab,
}
use tracearr.Engine.Coherence.Defs.{Coherent, Coherent-replace, Coherent-update, Coherent-same}
use tracearr.Engine.Coherence.Downloads.{handle_download_start-Coherent}

module _ (B : Builder) {S : Store} (L : KeyLaws S) where
  open L use {Wf, Wf-put, Wf-recall_closed}

  replay_download-Coherent :
      (ctx : Context) (t : TraceState) (key : MediaKey) (ev : Event) (e : Engine S)
      → S.get e.store t.key ≡ some t
      → Coherent L e
      → Coherent L (replay_download B ctx t key ev e)
  unfolding replay_download
  replay_download-Coherent ctx t key ev e there h =
      elim (Option-cases (Map.get ev.release.download_id e.pending_dl)) [
        | inl none_parked ↦ rw (none_parked, replay_download) h
        | inr (p, parked) ↦
            rw (parked, replay_download)
              (elim (Bool-cases (ev.release.download_id == "")) [
                | inl empty ↦ simp empty h
                | inr named ↦
                    let taken = record e {
                      pending_dl = Map.delete ev.release.download_id e.pending_dl;
                    } in
                    simp named (
                      handle_download_start-Coherent L B ctx t key p.event taken there
                        (Coherent-same L e taken refl refl h))
              ])
      ]

  open_grab-Coherent :
      (ctx : Context) (ev : Event) (t : TraceState) (e : Engine S)
      → S.get e.store t.key ≡ some t
      → Coherent L e
      → let (free, superseded) = supersede_grab ctx ev t (emit_search ctx ev t e) in
        Coherent L (open_grab B ctx ev free superseded).1
  unfolding open_grab
  open_grab-Coherent ctx ev t e there h =
      let searched = emit_search ctx ev t e in
      let (free, superseded) = supersede_grab ctx ev t searched in
      let same = emit_search-SameTraces ctx ev t e in
      let same' = supersede_grab-SameTraces ctx ev t searched in
      Coherent-update L e (open_grab B ctx ev free superseded).1 t.key t
        (open_grab B ctx ev free superseded).0
        (Wf-put superseded.store _ (subst Wf (sym (same'.0 ∙ same.0)) h.wf)) there
        (λ j. ground (
          arith,
          get-open_grab L B ctx ev free superseded j,
          supersede_grab-state ctx ev t searched,
          same',
          same,
        ))
        (ctx_by_key-open_grab B ctx ev free superseded ∙ (same'.1 ∙ same.1)) h

  grab-Coherent :
      (ev : Event) (t : TraceState) (key : MediaKey) (e : Engine S)
      → S.get e.store t.key ≡ some t
      → Coherent L e
      → Coherent L (grab B ev t key e)
  unfolding grab
  grab-Coherent ev t key e there h =
      let ctx = context_of e key in
      let (free, superseded) = supersede_grab ctx ev t (emit_search ctx ev t e) in
      let (t', opened) = open_grab B ctx ev free superseded in
      let same = time_grab-SameTraces key ev opened in
      replay_download-Coherent ctx t' key ev (time_grab key ev opened)
        (rw same.0 (
          ground (
            arith,
            get-open_grab L B ctx ev free superseded t'.key,
            open_grab-fields B ctx ev free superseded,
            beq_refl t'.key,
          )))
        (Coherent-same L opened (time_grab key ev opened) same.0 same.1
          (open_grab-Coherent ctx ev t e there h))

  open_orphan_root-Coherent :
      (ctx : Context) (ev : Event) (e : Engine S)
      → Coherent L e
      → Coherent L (open_orphan_root B ctx ev e).1
  unfolding open_orphan_root
  open_orphan_root-Coherent ctx ev e h =
      Coherent-replace L e (open_orphan_root B ctx ev e).1 ev.key
        (some (open_orphan_root B ctx ev e).0) (some _)
        (Wf-put _ _ (Wf-recall_closed e.store ev.key ev.occurred_at h.wf))
        (get-open_orphan_root L B ctx ev e) (λ j. get-insert ev.key j _ e.ctx_by_key) refl h

  grab_orphan-Coherent :
      (ctx : Context) (ev : Event) (e : Engine S)
      → Coherent L e
      → Coherent L (grab_orphan B ctx ev e)
  unfolding grab_orphan
  grab_orphan-Coherent ctx ev e h =
      let (t, opened) = open_orphan_root B ctx ev e in
      grab-Coherent ev t ev.key opened
        (ground (
          arith,
          get-open_orphan_root L B ctx ev e t.key,
          open_orphan_root-fields B ctx ev e,
          beq_refl ev.key,
        ))
        (open_orphan_root-Coherent ctx ev e h)

  pub on_grabbed-Coherent :
      (ctx : Context) (ev : Event) (e : Engine S)
      → Coherent L e
      → Coherent L (on_grabbed B ctx ev e)
  unfolding on_grabbed
  on_grabbed-Coherent ctx ev e h = elim (Option-cases (resolve_trace e ev.key)) [
    | inl missing ↦ rw (missing, on_grabbed) (grab_orphan-Coherent ctx ev e h)
    | inr ((t, key), found) ↦
        rw (found, on_grabbed)
          (grab-Coherent ev t key e (resolve_trace_own L e ev.key h.wf found) h)
  ]
