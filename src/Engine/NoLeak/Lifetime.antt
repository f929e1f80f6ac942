-- ===== src/Engine/NoLeak/Lifetime.antt =====
-- `Sweep` closes the child spans of what it drops.
use tracearr.Prelude.{ℕ, ◌≡◌, true, List, [], ◌∷◌, none, some, arith, Option-cases, inl, inr}
use tracearr.Prelude.Clock.{Time}
use tracearr.Event.{MediaKey}
use tracearr.Store.{Store, KeyLaws, TraceState, SpanId}
use tracearr.Engine.Calls.{Builder}
use tracearr.Engine.State.{Engine}
use tracearr.Engine.Lifetime.{
  time_out_children, time_out_root, time_out, sweep_key, sweep_keys, sweep,
}
use tracearr.Engine.OpenSpans.{is_open, is_loose, NoLeak, NoLeak-replace}
use tracearr.Engine.Records.Lifetime.{get-time_out}

module _ (B : Builder) {S : Store} where
  time_out-loose :
      (now : Time) (k : MediaKey) (t : TraceState) (e : Engine S) (id : SpanId)
      → is_loose B (time_out now k t e).calls none id ≡ true
      → is_loose B e.calls (some t) id ≡ true
  unfolding time_out time_out_children time_out_root is_loose is_open
  time_out-loose now k t e id = ground arith

module _ (B : Builder) {S : Store} (L : KeyLaws S) where
  sweep_key-NoLeak :
      (now : Time) (k : MediaKey) (e : Engine S) → NoLeak B e → NoLeak B (sweep_key now k e)
  unfolding sweep_key
  sweep_key-NoLeak now k e h = elim (Option-cases (S.get e.store k)) [
    | inl absent ↦ rw (absent, sweep_key) h
    | inr (t, there) ↦
        rw (there, sweep_key)
          (NoLeak-replace B e (time_out now k t e) k (some t) none there (get-time_out L now k t e)
            (time_out-loose B now k t e) h)
  ]

  sweep_keys-NoLeak :
      (now : Time) (ks : List MediaKey) (e : Engine S) → NoLeak B e → NoLeak B (sweep_keys now ks e)
  unfolding sweep_keys
  sweep_keys-NoLeak now [] e h = h
  sweep_keys-NoLeak now (k ∷ ks) e h =
      sweep_keys-NoLeak now ks (sweep_key now k e) (sweep_key-NoLeak now k e h)

  pub sweep-NoLeak : (now : Time) (ttl : ℕ) (e : Engine S) → NoLeak B e → NoLeak B (sweep now ttl e)
  unfolding sweep
  sweep-NoLeak now ttl e = sweep_keys-NoLeak now (S.stale e.store ttl now) e
