-- ===== src/Engine/Restart.antt =====
-- internal/correlate/engine.go: `Restore` in a new process.
use tracearr.Prelude.{ℕ, ◌≡◌, refl, false, ◌||◌, List, [], ◌∷◌, map, arith, is_some}
use tracearr.Prelude.Lists.{contains}
use tracearr.Prelude.Map
use tracearr.Prelude.Map.{get-insert}
use tracearr.Event.{MediaKey, key_eq}
use tracearr.Store.{Store, KeyLaws, TraceState}
use tracearr.Engine.Calls.{Context, Builder}
use tracearr.Engine.State.{Engine, new, put}
use tracearr.Engine.Lifetime.{resume, resume_all, restore}
use tracearr.Engine.OpenSpans.{is_open}
use tracearr.Engine.Coherence.Defs.{Coherent}
use tracearr.Engine.Runs.{Sound}

abbrev pub keys_of : List TraceState → List MediaKey
keys_of ts = map (λ (t : TraceState). t.key) ts

module _ {S : Store} (L : KeyLaws S) where
  open L use {Wf, Wf-put, Wf-load_all, get-put, contains-load_all}

  -- Each record has its context, or is still to be resumed.
  resume_all-Coherent :
      (ts : List TraceState) (e : Engine S)
      → Wf e.store
      → ((k : MediaKey)
          → is_some (S.get e.store k)
            ≡ (is_some (Map.get k e.ctx_by_key) || contains (keys_of ts) k))
      → Coherent L (resume_all ts e)
  unfolding resume_all resume contains
  resume_all-Coherent [] e wf pending = record { wf = wf; paired = λ k. ground (arith, pending k) }
  resume_all-Coherent (t ∷ ts) e wf pending =
      let cleared = record t { has_grab = false; has_download = false } in
      let ctx = Context.remote t.trace_id t.root_span_id in
      resume_all-Coherent ts (resume t e) (Wf-put e.store cleared wf) (λ k.
        ground (arith, pending k, get-put e.store cleared k, get-insert t.key k ctx e.ctx_by_key))

  calls-resume_all : (ts : List TraceState) (e : Engine S) → (resume_all ts e).calls ≡ e.calls
  unfolding resume_all resume put
  calls-resume_all [] e = refl
  calls-resume_all (t ∷ ts) e = calls-resume_all ts (resume t e)

  -- A new process on the well-formed store of an earlier one: once `Restore` has run, every record
  -- has a root context and every context a record, no child span is open, and each record stands
  -- under its own key, so that whatever comes next keeps it so.
  pub restore-Sound :
      (B : Builder) (s : S.State) (ttl : ℕ) → Wf s → Sound B L (restore (new {S = S} s ttl))
  unfolding restore new Map.get is_open
  restore-Sound B s ttl wf =
      let (loaded, s') = S.load_all s in
      let started = record (new {S = S} s ttl) { store = s' } in
      record {
        coherent =
            resume_all-Coherent loaded started (Wf-load_all s wf)
              (λ k. ground (arith, contains-load_all s k wf));
        no_leak = λ id opened. cc (rw (calls-resume_all loaded started) at opened);
      }
