-- ===== src/Store/Bolt/Records.antt =====
-- internal/correlate/store_bolt.go: `boltStore` keeps the promises about records by key, whatever the
-- disk does.
use tracearr.Store.Bolt.Index.{
  IsKeyed, by_key-put, found-keyed, found-put, found-unindexed, found-delete_other,
}
use tracearr.Prelude.{
  map, is_some, ◌∙◌, ap, ℕ, ◌≡◌, refl, true, String, [], ◌∷◌, none, some, Option, string_eq, arith,
  Option-cases, if◌then◌else◌, inl, inr,
}
use tracearr.Prelude.Clock.{Time, is_expired}
use tracearr.Prelude.Lists.{contains, All}
use tracearr.Prelude.Map
use tracearr.Prelude.Map.{Map, get-insert, get-delete, get-select, keep_if, select-Distinct}
use tracearr.Event.{MediaKey, key_eq, key_beq, key_beq_iff, Source}
use tracearr.Store.Records.{TraceState}
use tracearr.Store.Interface.{KeyLaws, is_stale}
use tracearr.Store.Listing.{contains-keys, contains-values, All-values}
use tracearr.Store.Disk.Buckets.{Bolt}
use tracearr.Store.Bolt.{
  BoltStore, bolt_store, get, put, delete, stale, commit, seen_event, remember_closed,
  recall_closed, load_all, mark_resumed,
}

-- What LoadAll makes of a record.
abbrev pub resumed : Option TraceState → Option TraceState
resumed none = none
resumed (some t) = some (record t { resumed = true })

pub get-mark_resumed :
    (m : Map MediaKey TraceState) (k : MediaKey)
    → Map.get k (mark_resumed m) ≡ resumed (Map.get k m)
unfolding Map.get mark_resumed
get-mark_resumed [] k = refl
get-mark_resumed ((j, t) ∷ m) k = ground (arith, get-mark_resumed m k)

module _ {D : Bolt} where
  put-IsKeyed : (s : BoltStore D) (t : TraceState) → IsKeyed s → IsKeyed (put s t)
  put-IsKeyed s t h k u e =
      let e' = rw by_key-put at e in
      ground (arith, get-insert t.key k t s.by_key, key_beq_iff t.key k, h k u)

  delete-IsKeyed : (s : BoltStore D) (k : MediaKey) → IsKeyed s → IsKeyed (delete s k)
  unfolding delete commit
  delete-IsKeyed s k h j t e = ground (arith, get-delete k j s.by_key, h j t)

  load_all-IsKeyed : (s : BoltStore D) → IsKeyed s → IsKeyed (load_all s).1
  unfolding load_all
  load_all-IsKeyed s h k t e = elim (Option-cases (Map.get k s.by_key)) [
    | inl missing ↦ ground (arith, get-mark_resumed s.by_key k)
    | inr (u, there) ↦ ground (arith, get-mark_resumed s.by_key k, h k u there)
  ]

  by_key-seen_event :
      (s : BoltStore D) (src : Source) (id : String) (now : Time)
      → (seen_event s src id now).1.by_key ≡ s.by_key
  unfolding seen_event commit
  by_key-seen_event s src id now = ground arith

  by_key-recall_closed :
      (s : BoltStore D) (k : MediaKey) (now : Time) → (recall_closed s k now).1.by_key ≡ s.by_key
  unfolding recall_closed commit
  by_key-recall_closed s k now = ground arith

  get-put :
      (s : BoltStore D) (t : TraceState) (j : MediaKey)
      → get (put s t) j ≡ (if key_beq t.key j then some t else get s j)
  unfolding get
  get-put s t j = ap (Map.get j) (by_key-put s t) ∙ get-insert t.key j t s.by_key

  get-delete_lem :
      (s : BoltStore D) (k j : MediaKey)
      → get (delete s k) j ≡ (if key_beq k j then none else get s j)
  unfolding get delete commit
  get-delete_lem s k j = get-delete k j s.by_key

  contains-stale :
      (s : BoltStore D) (ttl : ℕ) (now : Time) (k : MediaKey)
      → contains (stale s ttl now) k ≡ is_stale ttl now (get s k)
  unfolding stale get
  contains-stale s ttl now k = ground (
    arith,
    contains-keys (Map.select (λ k t. is_expired ttl now t.updated_at) s.by_key) k,
    get-select (λ k t. is_expired ttl now t.updated_at) k s.by_key,
  )

  contains-load_all :
      (s : BoltStore D) (k : MediaKey)
      → IsKeyed s
      → contains (map (λ (t : TraceState). t.key) (load_all s).0) k ≡ is_some (get (load_all s).1 k)
  unfolding load_all get
  contains-load_all s k keyed =
      let marked = mark_resumed s.by_key in
      let all = Map.select (λ k t. true) marked in
      let same : (j : MediaKey) → Map.get j all ≡ Map.get j marked =
        λ j. ground (arith, get-select (λ k t. true) j marked) in
      contains-values all k (select-Distinct (λ k t. true) marked)
        (λ j t found. load_all-IsKeyed s keyed j t (rw (same j) at found))
      ∙ ap is_some (same k)

  get-load_all : (s : BoltStore D) (k : MediaKey) → get (load_all s).1 k ≡ resumed (get s k)
  unfolding load_all get
  get-load_all s k = get-mark_resumed s.by_key k

  load_all_found :
      (s : BoltStore D)
      → IsKeyed s
      → All (λ (t : TraceState). get (load_all s).1 t.key ≡ some t) (load_all s).0
  unfolding load_all get
  load_all_found s keyed =
      let marked = mark_resumed s.by_key in
      let all = Map.select (λ k t. true) marked in
      let same : (j : MediaKey) → Map.get j all ≡ Map.get j marked =
        λ j. ground (arith, get-select (λ k t. true) j marked) in
      All-values all (select-Distinct (λ k t. true) marked) (λ j t found.
        let there = rw (same j) at found in
        ap (λ (i : MediaKey). Map.get i marked) (load_all-IsKeyed s keyed j t there) ∙ there)

-- boltStore keeps these promises about records by key on every database, also where transactions fail:
-- what `Get` finds after each operation; that a record that was put is found by its download; that after
-- `Delete` no record is found by the last download of the record, nor once another record is put with another
-- download; that a record of another key is still found by any other download; the stale keys; that
-- `LoadAll` sets `Resumed` in the records of the store and returns them; and that every record stands
-- under its own key, which is all of the invariant.
pub bolt_store-KeyLaws :
    (D : Bolt)
    → (L : KeyLaws (bolt_store D)) × ((s : BoltStore D) → L.Wf s ≡ IsKeyed s)
      × ((t : TraceState) → L.mark t ≡ record t { resumed = true })
unfolding get remember_closed commit
bolt_store-KeyLaws D = (
  record {
    Wf = IsKeyed;
    Wf-put = put-IsKeyed;
    Wf-delete = delete-IsKeyed;
    Wf-seen_event = λ s src id now h k t e. h k t (rw by_key-seen_event at e);
    Wf-remember_closed = λ s j tid n o when h k t e. h k t e;
    Wf-recall_closed = λ s j now h k t e. h k t (rw by_key-recall_closed at e);
    Wf-load_all = load_all-IsKeyed;
    contains-load_all = λ s k h. contains-load_all s k h;
    mark = λ t. record t { resumed = true };
    get-load_all = λ s k. get-load_all s k ∙ elim (Option-cases (get s k)) [
      | inl missing ↦ rw missing refl
      | inr (t, there) ↦ rw there refl
    ];
    load_all_found = load_all_found;
    get_keyed = λ s k t h e. h k t e;
    get_by_download_id_found = found-keyed;
    get_by_download_id-put = found-put;
    get_by_download_id-delete_put = found-unindexed;
    get_by_download_id-delete_other = found-delete_other;
    get-put = get-put;
    get-delete = get-delete_lem;
    get-seen_event = λ s src id now j. rw by_key-seen_event;
    get-remember_closed = λ s k tid n o when j. refl;
    get-recall_closed = λ s k now j. rw by_key-recall_closed;
    contains-stale = contains-stale;
  },
  λ s. refl,
  λ t. refl,
)
