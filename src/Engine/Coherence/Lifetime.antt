-- ===== src/Engine/Coherence/Lifetime.antt =====
-- `Sweep` keeps the traces coherent.
use tracearr.Prelude.{ℕ, refl, List, [], ◌∷◌, none, arith, Option-cases, inl, inr, subst, sym, ◌∙◌}
use tracearr.Prelude.Clock.{Time}
use tracearr.Prelude.Map.{get-delete}
use tracearr.Event.{MediaKey, key_eq}
use tracearr.Store.{Store, KeyLaws, TraceState}
use tracearr.Engine.State.{Engine, context_of}
use tracearr.Engine.Lifetime.{time_out_children, time_out, sweep_key, sweep_keys, sweep}
use tracearr.Engine.Records.Lifetime.{
  get-time_out, time_out_children-SameTraces, time_out_root-SameTraces,
}
use tracearr.Engine.Coherence.Defs.{Coherent, Coherent-replace}

module _ {S : Store} (L : KeyLaws S) where
  open L use {Wf, Wf-delete, Wf-remember_closed}

  time_out-Coherent :
      (now : Time) (k : MediaKey) (t : TraceState) (e : Engine S)
      → Coherent L e
      → Coherent L (time_out now k t e)
  unfolding time_out
  time_out-Coherent now k t e h =
      let ctx = context_of e k in
      let same = time_out_children-SameTraces ctx now t e in
      let same' = time_out_root-SameTraces ctx now t (time_out_children ctx now t e) in
      Coherent-replace L e (time_out now k t e) k none none
        (Wf-remember_closed _ k _ _ _ _ (Wf-delete _ k (subst Wf (sym (same'.0 ∙ same.0)) h.wf)))
        (get-time_out L now k t e) (λ j. ground (arith, same', same, get-delete k j e.ctx_by_key))
        refl h

  sweep_key-Coherent :
      (now : Time) (k : MediaKey) (e : Engine S) → Coherent L e → Coherent L (sweep_key now k e)
  unfolding sweep_key
  sweep_key-Coherent now k e h = elim (Option-cases (S.get e.store k)) [
    | inl absent ↦ rw (absent, sweep_key) h
    | inr (t, there) ↦ rw (there, sweep_key) (time_out-Coherent now k t e h)
  ]

  sweep_keys-Coherent :
      (now : Time) (ks : List MediaKey) (e : Engine S)
      → Coherent L e
      → Coherent L (sweep_keys now ks e)
  unfolding sweep_keys
  sweep_keys-Coherent now [] e h = h
  sweep_keys-Coherent now (k ∷ ks) e h =
      sweep_keys-Coherent now ks (sweep_key now k e) (sweep_key-Coherent now k e h)

  pub sweep-Coherent :
      (now : Time) (ttl : ℕ) (e : Engine S) → Coherent L e → Coherent L (sweep now ttl e)
  unfolding sweep
  sweep-Coherent now ttl e = sweep_keys-Coherent now (S.stale e.store ttl now) e
