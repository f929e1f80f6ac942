-- ===== src/Engine/Records/Lifetime.antt =====
-- What `Sweep` does to the records: exactly the stale ones leave the store.
use tracearr.Prelude.{
  ℕ, ◌≡◌, refl, List, [], ◌∷◌, none, if◌then◌else◌, arith, Option-cases, inl, inr,
}
use tracearr.Prelude.Clock.{Time}
use tracearr.Prelude.Lists.{contains}
use tracearr.Event.{MediaKey, key_eq, key_beq, key_beq_iff, timeout}
use tracearr.Store.{Store, KeyLaws, TraceState, is_stale}
use tracearr.Engine.Calls.{Context}
use tracearr.Engine.State.{Engine, context_of}
use tracearr.Engine.Lifetime.{
  time_out_children, time_out_root, time_out, sweep_key, sweep_keys, sweep,
}
use tracearr.Engine.Records.Requests.{SameTraces}

module _ {S : Store} where
  pub time_out_children-SameTraces :
      (ctx : Context) (now : Time) (t : TraceState) (e : Engine S)
      → SameTraces e (time_out_children ctx now t e)
  unfolding time_out_children
  time_out_children-SameTraces ctx now t e = ground arith

  pub time_out_root-SameTraces :
      (ctx : Context) (now : Time) (t : TraceState) (e : Engine S)
      → SameTraces e (time_out_root ctx now t e)
  unfolding time_out_root
  time_out_root-SameTraces ctx now t e = ground arith

module _ {S : Store} (L : KeyLaws S) where
  open L use {get-delete, get-remember_closed, contains-stale}

  pub get-time_out :
      (now : Time) (k : MediaKey) (t : TraceState) (e : Engine S) (j : MediaKey)
      → S.get (time_out now k t e).store j ≡ (if key_beq k j then none else S.get e.store j)
  unfolding time_out
  get-time_out now k t e j =
      let ctx = context_of e k in
      ground (
        arith,
        time_out_children-SameTraces ctx now t e,
        time_out_root-SameTraces ctx now t (time_out_children ctx now t e),
        get-delete e.store k j,
        get-remember_closed (S.delete e.store k) k t.trace_id t.attempt timeout now j,
      )

  pub get-sweep_key :
      (now : Time) (k : MediaKey) (e : Engine S) (j : MediaKey)
      → S.get (sweep_key now k e).store j ≡ (if key_beq k j then none else S.get e.store j)
  unfolding sweep_key
  get-sweep_key now k e j = elim (Option-cases (S.get e.store k)) [
    | inl absent ↦ rw (absent, sweep_key) (ground (arith, key_beq_iff k j))
    | inr (t, there) ↦ rw (there, sweep_key) (get-time_out now k t e j)
  ]

  pub get-sweep_keys :
      (now : Time) (ks : List MediaKey) (e : Engine S) (j : MediaKey)
      → S.get (sweep_keys now ks e).store j ≡ (if contains ks j then none else S.get e.store j)
  unfolding sweep_keys contains
  get-sweep_keys now [] e j = refl
  get-sweep_keys now (k ∷ ks) e j =
      ground (arith, get-sweep_keys now ks (sweep_key now k e) j, get-sweep_key now k e j)

  -- Over a store that keeps its promises: after a sweep exactly the records that were older than
  -- the limit are gone, and every other record is as it was.
  pub get-sweep :
      (now : Time) (ttl : ℕ) (e : Engine S) (j : MediaKey)
      → S.get (sweep now ttl e).store j
        ≡ (if is_stale ttl now (S.get e.store j) then none else S.get e.store j)
  unfolding sweep
  get-sweep now ttl e j =
      rw (get-sweep_keys now (S.stale e.store ttl now) e j, contains-stale e.store ttl now j)
