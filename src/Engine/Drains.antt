-- ===== src/Engine/Drains.antt =====
-- cmd/tracearr/main.go and internal/correlate/engine.go: the janitor, which sweeps every five minutes.
use tracearr.Prelude.{
  ℕ, zero, suc, ◌+◌, ◌*◌, ◌<◌, ◌≤◌, ◌≡◌, false, List, [], ◌∷◌, none, some, arith, Bool-cases,
  Option-cases, inl, inr,
}
use tracearr.Prelude.Clock.{Time}
use tracearr.Prelude.Map
use tracearr.Event.{MediaKey, key_eq}
use tracearr.Store.{Store, TraceState, KeyLaws, is_stale}
use tracearr.Engine.Calls.{Builder}
use tracearr.Store.Records.{SpanId}
use tracearr.Engine.State.{Engine}
use tracearr.Engine.Lifetime.{sweep}
use tracearr.Engine.OpenSpans.{is_open}
use tracearr.Engine.Records.Lifetime.{get-sweep}
use tracearr.Engine.Runs.{Action, tidy, act, run, Sound, run-Sound, run_quiet}

abbrev pub sweep_interval : ℕ
sweep_interval = 300000000000

-- The sweeps at the first ticks after an instant.
unfoldable pub janitor : ℕ → Time → ℕ → List Action
janitor zero from ttl = []
janitor (suc n) from ttl = tidy (from + sweep_interval) ttl ∷ janitor n (from + sweep_interval) ttl

module _ (to_lower : ℕ → ℕ) (B : Builder) {S : Store} (L : KeyLaws S) where
  -- No record was touched after an instant.
  UntouchedSince : Time → Engine S → Type 0
  UntouchedSince latest e =
      (k : MediaKey) (t : TraceState) → S.get e.store k ≡ some t → t.updated_at ≤ latest

  sweep-UntouchedSince :
      (latest now : Time) (ttl : ℕ) (e : Engine S)
      → UntouchedSince latest e
      → UntouchedSince latest (sweep now ttl e)
  unfolding UntouchedSince
  sweep-UntouchedSince latest now ttl e h k t there =
      elim (Bool-cases (is_stale ttl now (S.get e.store k))) [
        | inl stale ↦ absurd (ground (arith, there, stale, get-sweep L now ttl e k))
        | inr fresh ↦ h k t (ground (arith, there, fresh, get-sweep L now ttl e k))
      ]

  sweep_late :
      (latest now : Time) (ttl : ℕ) (e : Engine S) (k : MediaKey)
      → UntouchedSince latest e
      → latest + ttl < now
      → S.get (sweep now ttl e).store k ≡ none
  unfolding UntouchedSince
  sweep_late latest now ttl e k h late = elim (Option-cases (S.get e.store k)) [
    | inl absent ↦ ground (arith, absent, get-sweep L now ttl e k)
    | inr (t, there) ↦ ground (arith, there, h k t there, late, get-sweep L now ttl e k)
  ]

  janitor_late :
      (n : ℕ) (from latest : Time) (ttl : ℕ) (e : Engine S) (k : MediaKey)
      → UntouchedSince latest e
      → latest + ttl < from + suc n * sweep_interval
      → S.get (run to_lower B (janitor (suc n) from ttl) e).store k ≡ none
  unfolding run act janitor
  janitor_late zero from latest ttl e k h late =
      sweep_late latest (from + sweep_interval) ttl e k h (omega (arith, late))
  janitor_late (suc n) from latest ttl e k h late =
      janitor_late n (from + sweep_interval) latest ttl (sweep (from + sweep_interval) ttl e) k
        (sweep-UntouchedSince latest (from + sweep_interval) ttl e h) (omega (arith, late))

  -- From a sound state over a store that keeps its promises, where no record was touched after `latest`
  -- and no event comes in: once the janitor's ticks reach past `latest` by more than the limit, no trace
  -- is in the store, no root context is kept, and no child span is open.
  pub janitor_drains :
      (n : ℕ) (from latest : Time) (ttl : ℕ) (e : Engine S) (k : MediaKey) (id : SpanId)
      → Sound B L e
      → ((j : MediaKey) (t : TraceState) → S.get e.store j ≡ some t → t.updated_at ≤ latest)
      → latest + ttl < from + suc n * sweep_interval
      → (S.get (run to_lower B (janitor (suc n) from ttl) e).store k ≡ none)
        × (Map.get k (run to_lower B (janitor (suc n) from ttl) e).ctx_by_key ≡ none)
        × (is_open B (run to_lower B (janitor (suc n) from ttl) e).calls id ≡ false)
  unfolding UntouchedSince
  janitor_drains n from latest ttl e k id h untouched late =
      let actions = janitor (suc n) from ttl in
      let gone : (j : MediaKey) → S.get (run to_lower B actions e).store j ≡ none =
        λ j. janitor_late n from latest ttl e j untouched late in
      let sound = run-Sound to_lower B L actions e h in
      (
        gone k,
        ground (arith, gone k, sound.coherent.paired k),
        run_quiet to_lower B L actions e h gone id,
      )
