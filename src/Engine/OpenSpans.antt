-- ===== src/Engine/OpenSpans.antt =====
-- Which child spans the engine's calls have left open, and the condition that each of them is owned
-- by the record of a trace in flight.
use tracearr.Prelude.{
  ◌≡◌, refl, Bool, true, false, not, ◌&&◌, ◌||◌, List, [], ◌∷◌, Option, none, some, nat_beq,
  if◌then◌else◌, arith, inl, inr, Bool-cases,
}
use tracearr.Event.{MediaKey, key_beq, key_beq_iff}
use tracearr.Store.{Store, TraceState, SpanId}
use tracearr.Engine.Calls.{
  Call, Builder, open_root, open_child, close_span, synthetic_span, add_span_event,
}
use tracearr.Engine.State.{Engine}

-- The child span `id` was opened by the calls, newest first, and not closed since.
unfoldable pub is_open : Builder → List Call → SpanId → Bool
is_open B [] id = false
is_open B (open_child ctx name kind at attrs ∷ cs) id =
    nat_beq (B.child (open_child ctx name kind at attrs ∷ cs)) id || is_open B cs id
is_open B (close_span ctx i at good reason attrs ∷ cs) id = not (nat_beq i id) && is_open B cs id
is_open B (open_root ctx name kind at attrs links ∷ cs) id = is_open B cs id
is_open B (synthetic_span ctx name kind at end attrs ∷ cs) id = is_open B cs id
is_open B (add_span_event ctx i name at attrs ∷ cs) id = is_open B cs id

-- The record says that the span is its open grab or its open download.
unfoldable pub owns : TraceState → SpanId → Bool
owns t id =
    t.has_grab && nat_beq t.grab_span_id id || t.has_download && nat_beq t.download_span_id id

unfoldable pub owned : Option TraceState → SpanId → Bool
unfolding owns
owned none id = false
owned (some t) id = owns t id

-- The span is open, and the record does not own it.
unfoldable pub is_loose : Builder → List Call → Option TraceState → SpanId → Bool
unfolding owned
is_loose B cs o id = is_open B cs id && not (owned o id)

module _ (B : Builder) {S : Store} where
  -- Every open child span is owned by a record of the store.
  abbrev pub NoLeak : Engine S → Type 0
  NoLeak e =
      (id : SpanId)
      → is_open B e.calls id ≡ true
      → (k : MediaKey) × (owned (S.get e.store k) id ≡ true)

  -- An operation that touches one key, and loosens no span there, leaks none.
  pub NoLeak-at :
      (e e' : Engine S) (k : MediaKey)
      → ((j : MediaKey) → key_beq k j ≡ false → S.get e'.store j ≡ S.get e.store j)
      → ((id : SpanId)
          → is_loose B e'.calls (S.get e'.store k) id ≡ true
          → is_loose B e.calls (S.get e.store k) id ≡ true)
      → NoLeak e
      → NoLeak e'
  unfolding is_loose
  NoLeak-at e e' k others loosens h id opened = elim (Bool-cases (owned (S.get e'.store k) id)) [
    | inl mine ↦ (k, mine)
    | inr not_mine ↦ elsewhere (loosens id (ground arith))
  ]
    where
      elsewhere :
          is_loose B e.calls (S.get e.store k) id ≡ true
          → (j : MediaKey) × (owned (S.get e'.store j) id ≡ true)
      elsewhere loose =
          let (j, has) = h id (ground arith) in
          elim (Bool-cases (key_beq k j)) [
            | inl same ↦ ground (arith, key_beq_iff k j)
            | inr other ↦ (j, ground (arith, others j))
          ]

  -- The same, from what an operation does to the records.
  pub NoLeak-replace :
      (e e' : Engine S) (k : MediaKey) (o o' : Option TraceState)
      → S.get e.store k ≡ o
      → ((j : MediaKey) → S.get e'.store j ≡ (if key_beq k j then o' else S.get e.store j))
      → ((id : SpanId) → is_loose B e'.calls o' id ≡ true → is_loose B e.calls o id ≡ true)
      → NoLeak e
      → NoLeak e'
  NoLeak-replace e e' k o o' before after loosens =
      NoLeak-at e e' k (λ j other. rw other at (after j))
        (λ id loose.
          rw before (loosens id (rw ((key_beq_iff k k).1 refl) at (rw (after k) at loose))))

  pub NoLeak-same :
      (e e' : Engine S) → e'.calls ≡ e.calls → e'.store ≡ e.store → NoLeak e → NoLeak e'
  NoLeak-same e e' calls store h id opened =
      let (k, has) = h id (rw calls at opened) in (k, rw store has)
