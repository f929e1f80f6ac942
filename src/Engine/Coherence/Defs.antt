-- ===== src/Engine/Coherence/Defs.antt =====
-- The condition on the store and the contexts, and how an operation on one key keeps it.
use tracearr.Prelude.{◌≡◌, Option, some, is_some, arith, if◌then◌else◌, subst, sym}
use tracearr.Prelude.Map
use tracearr.Event.{MediaKey, key_eq, key_beq, key_beq_iff}
use tracearr.Store.{Store, KeyLaws, TraceState}
use tracearr.Engine.Calls.{Context}
use tracearr.Engine.State.{Engine}

pub record Coherent {S : Store} (L : KeyLaws S) (e : Engine S) : Type 0 where
  pub wf : L.Wf e.store
  pub paired : (k : MediaKey) → is_some (S.get e.store k) ≡ is_some (Map.get k e.ctx_by_key)

module _ {S : Store} (L : KeyLaws S) where
  open L use {Wf}

  -- An operation that gives one key a record and a context, or takes both away.
  pub Coherent-replace :
      (e e' : Engine S) (k : MediaKey) (o' : Option TraceState) (c' : Option Context)
      → Wf e'.store
      → ((j : MediaKey) → S.get e'.store j ≡ (if key_beq k j then o' else S.get e.store j))
      → ((j : MediaKey)
          → Map.get j e'.ctx_by_key ≡ (if key_beq k j then c' else Map.get j e.ctx_by_key))
      → is_some o' ≡ is_some c'
      → Coherent L e
      → Coherent L e'
  Coherent-replace e e' k o' c' wf records contexts both h = record {
    wf = wf;
    paired = λ j. ground (arith, records j, contexts j, h.paired j);
  }

  -- An operation that changes a record that is there, and no context.
  pub Coherent-update :
      (e e' : Engine S) (k : MediaKey) (t t' : TraceState)
      → Wf e'.store
      → S.get e.store k ≡ some t
      → ((j : MediaKey) → S.get e'.store j ≡ (if key_beq k j then some t' else S.get e.store j))
      → e'.ctx_by_key ≡ e.ctx_by_key
      → Coherent L e
      → Coherent L e'
  Coherent-update e e' k t t' wf there records same h = record {
    wf = wf;
    paired = λ j. ground (arith, records j, h.paired j, there, key_beq_iff k j);
  }

  -- An operation on neither.
  pub Coherent-same :
      (e e' : Engine S)
      → e'.store ≡ e.store
      → e'.ctx_by_key ≡ e.ctx_by_key
      → Coherent L e
      → Coherent L e'
  Coherent-same e e' store contexts h = record {
    wf = subst Wf (sym store) h.wf;
    paired = λ j. rw (store, contexts) (h.paired j);
  }
