-- ===== src/Store/Interface.antt =====
-- internal/correlate/store.go: the interface `Store`, and what the engine may rely on of its
-- documentation. `Wf` is an implementation's invariant; `seen` is what its deduplication remembers.
use tracearr.Prelude.{
  map, is_some, ℕ, ◌≡◌, Bool, true, false, not, ◌||◌, String, List, Option, none, some, ◌==◌,
  string_eq, if◌then◌else◌, ◌≢◌, ◌⊎◌, leb,
}
use tracearr.Prelude.Int.{ℤ}
use tracearr.Prelude.Clock.{Time, is_expired}
use tracearr.Prelude.Lists.{contains, All}
use tracearr.Event.{MediaKey, key_eq, key_beq, Source, Outcome}
use tracearr.Store.Records.{TraceState, ClosedTrace, TraceId}

pub record Store : Type 1 where
  pub State : Type 0
  pub get : State → MediaKey → Option TraceState
  pub get_by_download_id : State → String → Option TraceState
  pub put : State → TraceState → State
  pub delete : State → MediaKey → State
  pub stale : State → ℕ → Time → List MediaKey
  pub seen_event : State → Source → String → Time → Bool × State
  pub remember_closed : State → MediaKey → TraceId → ℤ → Outcome → Time → State
  pub recall_closed : State → MediaKey → Time → Option ClosedTrace × State
  pub load_all : State → List TraceState × State

-- A record found is older than `ttl`.
abbrev pub is_stale : ℕ → Time → Option TraceState → Bool
is_stale ttl now none = false
is_stale ttl now (some t) = is_expired ttl now t.updated_at

-- The promises about records by key. `mark` is what `LoadAll` makes of a record. Of the download index,
-- `Delete` is to remove the entry of the record's last download, and no entry of another record. The
-- documentation asks for more, which the memory store does not keep: that `Delete` removes each entry of
-- the record, and that `mark` sets `Resumed`.
pub record KeyLaws (S : Store) : Type 1 where
  pub Wf : S.State → Type 0
  pub Wf-put : (s : S.State) (t : TraceState) → Wf s → Wf (S.put s t)
  pub Wf-delete : (s : S.State) (k : MediaKey) → Wf s → Wf (S.delete s k)
  pub Wf-seen_event :
      (s : S.State) (src : Source) (id : String) (now : Time)
      → Wf s
      → Wf (S.seen_event s src id now).1
  pub Wf-remember_closed :
      (s : S.State) (k : MediaKey) (tid : TraceId) (n : ℤ) (o : Outcome) (when : Time)
      → Wf s
      → Wf (S.remember_closed s k tid n o when)
  pub Wf-recall_closed :
      (s : S.State) (k : MediaKey) (now : Time) → Wf s → Wf (S.recall_closed s k now).1
  pub Wf-load_all : (s : S.State) → Wf s → Wf (S.load_all s).1
  pub contains-load_all :
      (s : S.State) (k : MediaKey)
      → Wf s
      → contains (map (λ (t : TraceState). t.key) (S.load_all s).0) k
        ≡ is_some (S.get (S.load_all s).1 k)
  pub mark : TraceState → TraceState
  pub get-load_all :
      (s : S.State) (k : MediaKey)
      → S.get (S.load_all s).1 k ≡ elim (S.get s k) [ none ↦ none | some t ↦ some (mark t) ]
  pub load_all_found :
      (s : S.State)
      → Wf s
      → All (λ (t : TraceState). S.get (S.load_all s).1 t.key ≡ some t) (S.load_all s).0
  pub get_keyed :
      (s : S.State) (k : MediaKey) (t : TraceState) → Wf s → S.get s k ≡ some t → t.key ≡ k
  pub get_by_download_id_found :
      (s : S.State) (id : String) (t : TraceState)
      → Wf s
      → S.get_by_download_id s id ≡ some t
      → S.get s t.key ≡ some t
  pub get_by_download_id-put :
      (s : S.State) (t : TraceState)
      → (t.download_id == "") ≡ false
      → S.get_by_download_id (S.put s t) t.download_id ≡ some t
  pub get_by_download_id-delete_put :
      (s : S.State) (t u : TraceState) (k : MediaKey)
      → S.get s k ≡ some t
      → (u.download_id == t.download_id) ≡ false
      → (S.get_by_download_id (S.delete s k) t.download_id ≡ none)
        × (S.get_by_download_id (S.put (S.delete s k) u) t.download_id ≡ none)
  pub get_by_download_id-delete_other :
      (s : S.State) (t u : TraceState) (k : MediaKey) (id : String)
      → Wf s
      → S.get s k ≡ some t
      → (t.download_id == id) ≡ false
      → key_beq k u.key ≡ false
      → S.get_by_download_id s id ≡ some u
      → S.get_by_download_id (S.delete s k) id ≡ some u
  pub get-put :
      (s : S.State) (t : TraceState) (j : MediaKey)
      → S.get (S.put s t) j ≡ (if key_beq t.key j then some t else S.get s j)
  pub get-delete :
      (s : S.State) (k j : MediaKey)
      → S.get (S.delete s k) j ≡ (if key_beq k j then none else S.get s j)
  pub get-seen_event :
      (s : S.State) (src : Source) (id : String) (now : Time) (j : MediaKey)
      → S.get (S.seen_event s src id now).1 j ≡ S.get s j
  pub get-remember_closed :
      (s : S.State) (k : MediaKey) (tid : TraceId) (n : ℤ) (o : Outcome) (when : Time)
      (j : MediaKey)
      → S.get (S.remember_closed s k tid n o when) j ≡ S.get s j
  pub get-recall_closed :
      (s : S.State) (k : MediaKey) (now : Time) (j : MediaKey)
      → S.get (S.recall_closed s k now).1 j ≡ S.get s j
  pub contains-stale :
      (s : S.State) (ttl : ℕ) (now : Time) (k : MediaKey)
      → contains (S.stale s ttl now) k ≡ is_stale ttl now (S.get s k)

-- The promises about duplicates: `seen` is moved by `seen_event` alone. An event that was new has been
-- seen exactly until `ttl` has passed, and no event is mistaken for one of another source or another id.
pub record SeenLaws (S : Store) : Type 1 where
  pub seen : S.State → Source → String → Time → Bool
  pub seen_event_new :
      (s : S.State) (src : Source) (id : String) (now : Time)
      → (S.seen_event s src id now).0 ≡ (id == "" || not (seen s src id now))
  pub seen-seen_event :
      (s : S.State) (src : Source) (id : String) (now : Time)
      → (id == "") ≡ false
      → seen (S.seen_event s src id now).1 src id now ≡ true
  pub ttl : S.State → ℕ
  pub seen_until :
      (s : S.State) (src : Source) (id : String) (now later : Time)
      → (id == "") ≡ false
      → (S.seen_event s src id now).0 ≡ true
      → seen (S.seen_event s src id now).1 src id later ≡ not (is_expired (ttl s) later now)
  pub seen-seen_event_other :
      (s : S.State) (src other : Source) (id other_id : String) (now later : Time)
      → (src ≢ other) ⊎ (id ≢ other_id)
      → leb now later ≡ true
      → seen (S.seen_event s src id now).1 other other_id later ≡ seen s other other_id later
  pub seen-put :
      (s : S.State) (t : TraceState) (src : Source) (id : String) (now : Time)
      → seen (S.put s t) src id now ≡ seen s src id now
  pub seen-delete :
      (s : S.State) (k : MediaKey) (src : Source) (id : String) (now : Time)
      → seen (S.delete s k) src id now ≡ seen s src id now
  pub seen-remember_closed :
      (s : S.State) (k : MediaKey) (tid : TraceId) (n : ℤ) (o : Outcome) (when : Time)
      (src : Source) (id : String) (now : Time)
      → seen (S.remember_closed s k tid n o when) src id now ≡ seen s src id now
  pub seen-recall_closed :
      (s : S.State) (k : MediaKey) (at : Time) (src : Source) (id : String) (now : Time)
      → seen (S.recall_closed s k at).1 src id now ≡ seen s src id now

-- The promises about closed traces: what was remembered last is recalled under its own key until it
-- `expires`, and not from then on.
pub record RecallLaws (S : Store) : Type 1 where
  pub expires : S.State → Time → Time → Bool
  pub recall-remember_closed :
      (s : S.State) (k : MediaKey) (tid : TraceId) (n : ℤ) (o : Outcome) (when now : Time)
      → expires s when now ≡ false
      → (S.recall_closed (S.remember_closed s k tid n o when) k now).0
        ≡ some (record { trace_id = tid; attempt = n; outcome = o; closed_at = when })
  pub recall-remember_closed_expired :
      (s : S.State) (k : MediaKey) (tid : TraceId) (n : ℤ) (o : Outcome) (when now : Time)
      → expires s when now ≡ true
      → (S.recall_closed (S.remember_closed s k tid n o when) k now).0 ≡ none
  pub recall-recall_closed_found :
      (s : S.State) (k : MediaKey) (now : Time) (c : ClosedTrace)
      → (S.recall_closed s k now).0 ≡ some c
      → (S.recall_closed (S.recall_closed s k now).1 k now).0 ≡ some c
  pub expires-put :
      (s : S.State) (t : TraceState) (when now : Time)
      → expires (S.put s t) when now ≡ expires s when now
  pub expires-delete :
      (s : S.State) (k : MediaKey) (when now : Time)
      → expires (S.delete s k) when now ≡ expires s when now
