-- ===== src/Engine/OutOfOrder.antt =====
-- internal/correlate/engine.go: the look-back buffer. A download that starts before its grab is seen
-- leaves the engine as one that starts after it.
pub mod Parked
use tracearr.Prelude.{
  ◌≡◌, refl, false, String, [], none, some, arith, beq_refl, subst, sym, ◌∙◌, ap, ◌==◌, string_eq,
  Bool-cases, inl, inr,
}
use tracearr.Prelude.Map
use tracearr.Prelude.Map.{Map, get-insert, get-delete, get-drop_if, discard_if}
use tracearr.Prelude.Clock.{is_expired}
use tracearr.Event.{MediaKey, Event}
use tracearr.Store.{Store, KeyLaws, TraceState}
use tracearr.Engine.Calls.{Context, Builder}
use tracearr.Engine.State.{Engine, PendingDownload, context_of, put, resolve_trace}
use tracearr.Engine.Downloads.{
  time_download_start, start_download, open_download, handle_download_start, park,
  on_download_start,
}
use tracearr.Engine.Grabs.{
  emit_search, supersede_grab, open_grab, time_grab, replay_download, grab, on_grabbed,
}
use tracearr.Engine.Records.Resolve.{resolve_trace-keyed}
use tracearr.Engine.Records.Grabs.{
  emit_search-SameTraces, supersede_grab-SameTraces, time_grab-SameTraces, ctx_by_key-open_grab,
  open_grab-fields, supersede_grab-state,
}
use tracearr.Engine.OutOfOrder.Parked.{
  with_parked, without_parked, store-open_grab, handle_download_start-parked, grabbed_core,
  grabbed_core-parked, ctx_by_key-grabbed_core, pending-grabbed_core, pending-handle_download_start,
  grab_unawaited, grab_awaited,
}

module _ (B : Builder) {S : Store} where
  -- The buffer after a download is parked, and the entry that waits in it.
  park_lem :
      (ev : Event) (e : Engine S)
      → let q = (park ev e).pending_dl in
        (park ev e ≡ with_parked e q)
        × (Map.get ev.release.download_id q
            ≡ some (record { event = ev; added_at = ev.occurred_at }))
  unfolding park
  park_lem ev e = (refl, rw get-insert (rw (beq_refl ev.release.download_id)))

  on_download_start_missing :
      (ev : Event) (e : Engine S)
      → S.get_by_download_id e.store ev.release.download_id ≡ none
      → on_download_start B ev e ≡ park ev e
  unfolding on_download_start
  on_download_start_missing ev e absent = rw (absent, on_download_start)

  on_download_start_found :
      (ev : Event) (t : TraceState) (e : Engine S)
      → S.get_by_download_id e.store ev.release.download_id ≡ some t
      → on_download_start B ev e ≡ handle_download_start B (context_of e t.key) t t.key ev e
  unfolding on_download_start
  on_download_start_found ev t e found = rw (found, on_download_start)

  on_grabbed_found :
      (ctx : Context) (ev : Event) (t : TraceState) (key : MediaKey) (e : Engine S)
      (q : Map String PendingDownload)
      → resolve_trace e ev.key ≡ some (t, key)
      → on_grabbed B ctx ev (with_parked e q) ≡ grab B ev t key (with_parked e q)
  unfolding on_grabbed resolve_trace
  on_grabbed_found ctx ev t key e q found =
      let found' : resolve_trace (with_parked e q) ev.key ≡ some (t, key) = found in
      rw (found', on_grabbed)

  download_first :
      (ctx : Context) (started grabbed : Event) (t : TraceState) (key : MediaKey) (e : Engine S)
      → (grabbed.release.download_id == "") ≡ false
      → started.release.download_id ≡ grabbed.release.download_id
      → resolve_trace e grabbed.key ≡ some (t, key)
      → S.get_by_download_id e.store grabbed.release.download_id ≡ none
      → let (t', timed) = grabbed_core B grabbed t key e in
        on_grabbed B ctx grabbed (on_download_start B started e)
        ≡ with_parked
            (handle_download_start B (context_of e key) t' key started timed)
            (Map.delete grabbed.release.download_id (park started e).pending_dl)
  unfolding context_of
  download_first ctx started grabbed t key e named same found absent =
      let q = (park started e).pending_dl in
      let (parks, waits) = park_lem started e in
      let (t', timed) = grabbed_core B grabbed t key e in
      let rest = Map.delete grabbed.release.download_id q in
      (ap (on_grabbed B ctx grabbed) (on_download_start_missing started e (rw same absent) ∙ parks)
        ∙ (on_grabbed_found ctx grabbed t key e q found
            ∙ (grab_awaited B grabbed t key (with_parked e q)
                  (record { event = started; added_at = started.occurred_at }) named
                  (subst
                    (λ (id : String).
                      Map.get id q
                      ≡ some (record { event = started; added_at = started.occurred_at }))
                    same waits)
                ∙ ((rw (grabbed_core-parked B grabbed t key e q))
                    ∙ handle_download_start-parked B (context_of e key) t' key started timed
                        rest))))

  grab_first :
      (ctx : Context) (started grabbed : Event) (t : TraceState) (key : MediaKey) (e : Engine S)
      → (grabbed.release.download_id == "") ≡ false
      → started.release.download_id ≡ grabbed.release.download_id
      → resolve_trace e grabbed.key ≡ some (t, key)
      → Map.get grabbed.release.download_id e.pending_dl ≡ none
      → let (t', timed) = grabbed_core B grabbed t key e in
        S.get_by_download_id timed.store grabbed.release.download_id ≡ some t'
        → t'.key ≡ key
        → on_download_start B started (on_grabbed B ctx grabbed e)
          ≡ handle_download_start B (context_of e key) t' key started timed
  unfolding context_of
  grab_first ctx started grabbed t key e named same found none_parked indexed keyed =
      let (t', timed) = grabbed_core B grabbed t key e in
      ap (on_download_start B started) (
        on_grabbed_found ctx grabbed t key e e.pending_dl found
        ∙ grab_unawaited B grabbed t key e none_parked)
      ∙ (on_download_start_found started t' timed (rw same indexed)
          ∙ cc (keyed, ctx_by_key-grabbed_core B grabbed t key e))

module _ (B : Builder) {S : Store} (L : KeyLaws S) where
  open L use {Wf, get_by_download_id-put}

  -- The record of the grab is found by its download.
  grabbed_core-found :
      (ev : Event) (t : TraceState) (key : MediaKey) (e : Engine S)
      → (ev.release.download_id == "") ≡ false
      → t.key ≡ key
      → let (t', timed) = grabbed_core B ev t key e in
        (S.get_by_download_id timed.store ev.release.download_id ≡ some t') × (t'.key ≡ key)
  unfolding grabbed_core
  grabbed_core-found ev t key e named keyed =
      let ctx = context_of e key in
      let searched = emit_search ctx ev t e in
      let (free, superseded) = supersede_grab ctx ev t searched in
      let (t', opened) = open_grab B ctx ev free superseded in
      ground (
        arith,
        time_grab-SameTraces key ev opened,
        store-open_grab B ctx ev free superseded,
        get_by_download_id-put superseded.store t',
        open_grab-fields B ctx ev free superseded,
        supersede_grab-state ctx ev t searched,
      )

  -- What is left of the buffer once the parked download has been replayed.
  get-replayed :
      (started : Event) (id : String) (e : Engine S)
      → started.release.download_id ≡ id
      → Map.get id e.pending_dl ≡ none
      → (j : String)
      → Map.get j (Map.delete id (park started e).pending_dl)
        ≡ discard_if
            (λ p. is_expired e.pending_dl_ttl started.occurred_at p.added_at)
            (Map.get j e.pending_dl)
  unfolding park
  get-replayed started id e same none_parked j =
      let kept =
        Map.drop_if
          (λ (p : PendingDownload). is_expired e.pending_dl_ttl started.occurred_at p.added_at)
          e.pending_dl in
      let entry : PendingDownload = record { event = started; added_at = started.occurred_at } in
      ground (
        arith,
        get-delete id j (Map.insert started.release.download_id entry kept),
        get-insert started.release.download_id j entry kept,
        get-drop_if
            (λ (p : PendingDownload). is_expired e.pending_dl_ttl started.occurred_at p.added_at) j
            e.pending_dl,
        same,
        string_eq.beq_iff id j,
        none_parked,
      )

  -- Over a store that keeps its promises: a download start whose download no record has and none
  -- waits for, and a grab of a trace in flight with that download: whichever of the two is handled
  -- first, the engine ends with the same records, contexts and timings, and has made the same calls
  -- of the builder and of the metric sink. If the grab is first, the look-back buffer is as before; if
  -- the download is first, it is as before but for those entries that had expired at its start.
  pub grab_download_commute :
      (ctx : Context) (started grabbed : Event) (t : TraceState) (key : MediaKey) (e : Engine S)
      → (grabbed.release.download_id == "") ≡ false
      → started.release.download_id ≡ grabbed.release.download_id
      → Wf e.store
      → resolve_trace e grabbed.key ≡ some (t, key)
      → S.get_by_download_id e.store grabbed.release.download_id ≡ none
      → Map.get grabbed.release.download_id e.pending_dl ≡ none
      → without_parked (on_grabbed B ctx grabbed (on_download_start B started e))
          ≡ without_parked (on_download_start B started (on_grabbed B ctx grabbed e))
        × ((on_download_start B started (on_grabbed B ctx grabbed e)).pending_dl ≡ e.pending_dl)
        × ((id : String)
            → Map.get id (on_grabbed B ctx grabbed (on_download_start B started e)).pending_dl
              ≡ discard_if
                  (λ p. is_expired e.pending_dl_ttl started.occurred_at p.added_at)
                  (Map.get id e.pending_dl))
  grab_download_commute ctx started grabbed t key e named same wf found absent none_parked =
      let (t', timed) = grabbed_core B grabbed t key e in
      let keyed = resolve_trace-keyed L e grabbed.key wf found in
      let (indexed, keyed') = grabbed_core-found grabbed t key e named keyed in
      let early = download_first B ctx started grabbed t key e named same found absent in
      let late =
        grab_first B ctx started grabbed t key e named same found none_parked indexed keyed' in
      (
        ap without_parked early ∙ ap without_parked (sym late),
        ap (λ (r : Engine S). r.pending_dl) late
            ∙ pending-handle_download_start B (context_of e key) t' key started timed
            ∙ pending-grabbed_core B grabbed t key e,
        λ id.
            ap (λ (r : Engine S). Map.get id r.pending_dl) early
            ∙ get-replayed started grabbed.release.download_id e same none_parked id,
      )
