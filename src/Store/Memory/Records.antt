-- ===== src/Store/Memory/Records.antt =====
-- internal/correlate/store.go: `memoryStore` keeps the promises about records by key.
use tracearr.Prelude.{
  map, is_some, ◌∙◌, ap, ℕ, ◌≡◌, refl, true, false, String, none, some, ◌==◌, string_eq, arith,
  Option-cases, Bool-cases, if◌then◌else◌, inl, inr, beq_refl,
}
use tracearr.Prelude.Clock.{Time, is_expired}
use tracearr.Prelude.Lists.{contains, All}
use tracearr.Prelude.Map
use tracearr.Prelude.Map.{Map, get-insert, get-delete, get-select, keep_if, select-Distinct}
use tracearr.Event.{MediaKey, key_eq, key_beq, key_beq_iff}
use tracearr.Store.Records.{TraceState}
use tracearr.Store.Interface.{KeyLaws, is_stale}
use tracearr.Store.Listing.{contains-keys, contains-values, All-values}
use tracearr.Store.Memory.{
  load_all, MemoryStore, new, memory_store, get, get_by_download_id, put, delete, unindex, stale,
  remember_closed, recall_closed, seen_event,
}

-- Every record stands under its own key.
abbrev pub IsKeyed : MemoryStore → Type 0
IsKeyed m = (k : MediaKey) (t : TraceState) → Map.get k m.by_key ≡ some t → t.key ≡ k

put-IsKeyed : (m : MemoryStore) (t : TraceState) → IsKeyed m → IsKeyed (put m t)
unfolding put
put-IsKeyed m t h k u e = ground (arith, get-insert t.key k t m.by_key, key_beq_iff t.key k, h k u)

delete-IsKeyed : (m : MemoryStore) (k : MediaKey) → IsKeyed m → IsKeyed (delete m k)
unfolding delete
delete-IsKeyed m k h j t e = ground (arith, get-delete k j m.by_key, h j t)

by_key-seen_event :
    (m : MemoryStore) (src : _) (id : String) (now : Time)
    → (seen_event m src id now).1.by_key ≡ m.by_key
unfolding seen_event
by_key-seen_event m src id now = ground arith

by_key-recall_closed :
    (m : MemoryStore) (k : MediaKey) (now : Time) → (recall_closed m k now).1.by_key ≡ m.by_key
unfolding recall_closed
by_key-recall_closed m k now = ground arith

found-keyed :
    (m : MemoryStore) (id : String) (t : TraceState)
    → IsKeyed m
    → get_by_download_id m id ≡ some t
    → get m t.key ≡ some t
unfolding get_by_download_id get
found-keyed m id t h e = elim (Option-cases (Map.get id m.by_dlid)) [
  | inl missing ↦ ground arith
  | inr (k, there) ↦ ground (arith, h k t)
]

found-put :
    (m : MemoryStore) (t : TraceState)
    → (t.download_id == "") ≡ false
    → get_by_download_id (put m t) t.download_id ≡ some t
unfolding get_by_download_id put
found-put m t h = ground (
  arith,
  get-insert t.download_id t.download_id t.key m.by_dlid,
  get-insert t.key t.key t m.by_key,
  beq_refl t.download_id,
  beq_refl t.key,
)

found-unindexed :
    (m : MemoryStore) (t u : TraceState) (k : MediaKey)
    → get m k ≡ some t
    → (u.download_id == t.download_id) ≡ false
    → (get_by_download_id (delete m k) t.download_id ≡ none)
      × (get_by_download_id (put (delete m k) u) t.download_id ≡ none)
unfolding get_by_download_id get delete unindex put
found-unindexed m t u k there other = elim (Bool-cases (t.download_id == "")) [
  | inl unnamed ↦ (rw unnamed refl, rw unnamed refl)
  | inr named ↦
      let gone : Map.get t.download_id (delete m k).by_dlid ≡ none =
        rw (there, named, get-delete t.download_id t.download_id m.by_dlid, beq_refl t.download_id)
          refl in
      let still : Map.get t.download_id (put (delete m k) u).by_dlid ≡ none =
        elim (Bool-cases (u.download_id == "")) [
          | inl empty ↦ rw empty gone
          | inr full ↦
              rw (full, get-insert u.download_id t.download_id u.key (delete m k).by_dlid, other)
                gone
        ] in
      (rw (named, gone) refl, rw (named, still) refl)
]

found-delete_other :
    (m : MemoryStore) (t u : TraceState) (k : MediaKey) (id : String)
    → IsKeyed m
    → get m k ≡ some t
    → (t.download_id == id) ≡ false
    → key_beq k u.key ≡ false
    → get_by_download_id m id ≡ some u
    → get_by_download_id (delete m k) id ≡ some u
unfolding get_by_download_id get delete unindex
found-delete_other m t u k id keyed there other apart found =
    elim (Option-cases (Map.get id m.by_dlid)) [
      | inl missing ↦ absurd (ground (arith, missing, found))
      | inr (j, indexed) ↦ ground (
        arith,
        indexed,
        found,
        keyed j u,
        get-delete k j m.by_key,
        get-delete t.download_id id m.by_dlid,
      )
    ]

get-put :
    (m : MemoryStore) (t : TraceState) (j : MediaKey)
    → get (put m t) j ≡ (if key_beq t.key j then some t else get m j)
unfolding get put
get-put m t j = get-insert t.key j t m.by_key

get-delete_lem :
    (m : MemoryStore) (k j : MediaKey)
    → get (delete m k) j ≡ (if key_beq k j then none else get m j)
unfolding get delete
get-delete_lem m k j = get-delete k j m.by_key

contains-stale :
    (m : MemoryStore) (ttl : _) (now : Time) (k : MediaKey)
    → contains (stale m ttl now) k ≡ is_stale ttl now (get m k)
unfolding stale get
contains-stale m ttl now k = ground (
  arith,
  contains-keys (Map.select (λ k s. is_expired ttl now s.updated_at) m.by_key) k,
  get-select (λ k s. is_expired ttl now s.updated_at) k m.by_key,
)

contains-load_all :
    (m : MemoryStore) (k : MediaKey)
    → IsKeyed m
    → contains (map (λ (t : TraceState). t.key) (load_all m).0) k ≡ is_some (get (load_all m).1 k)
unfolding load_all get
contains-load_all m k keyed =
    let all = Map.select (λ k s. true) m.by_key in
    let same : (j : MediaKey) → Map.get j all ≡ Map.get j m.by_key =
      λ j. ground (arith, get-select (λ k s. true) j m.by_key) in
    contains-values all k (select-Distinct (λ k s. true) m.by_key)
      (λ j t found. keyed j t (rw (same j) at found))
    ∙ ap is_some (same k)

get-load_all :
    (m : MemoryStore) (k : MediaKey)
    → get (load_all m).1 k ≡ elim (get m k) [ none ↦ none | some t ↦ some t ]
unfolding load_all
get-load_all m k = elim (Option-cases (get m k)) [
  | inl missing ↦ rw missing refl
  | inr (t, there) ↦ rw there refl
]

load_all_found :
    (m : MemoryStore)
    → IsKeyed m
    → All (λ (t : TraceState). get (load_all m).1 t.key ≡ some t) (load_all m).0
unfolding load_all get
load_all_found m keyed =
    let all = Map.select (λ k s. true) m.by_key in
    let same : (j : MediaKey) → Map.get j all ≡ Map.get j m.by_key =
      λ j. ground (arith, get-select (λ k s. true) j m.by_key) in
    All-values all (select-Distinct (λ k s. true) m.by_key) (λ j t found.
      let there = rw (same j) at found in
      ap (λ (i : MediaKey). Map.get i m.by_key) (keyed j t there) ∙ there)

-- memoryStore keeps these promises about records by key: what `Get` finds after each operation; that a
-- record that was put is found by its download; that after `Delete` no record is found by the last download
-- of the record, nor once another record is put with another download; that a record of another key is still
-- found by any other download; the stale keys; that `LoadAll` returns the records of the store, as they
-- stand there, `Resumed` unchanged; and that every record stands under its own key. A new store holds no
-- record.
pub memory_store-KeyLaws :
    (L : KeyLaws memory_store) × ((d r : ℕ) → L.Wf (new d r))
    × ((d r : ℕ) (k : MediaKey) → get (new d r) k ≡ none)
    × ((t : TraceState) → L.mark t ≡ t)
unfolding get remember_closed new Map.get load_all
memory_store-KeyLaws = (
  record {
    Wf = IsKeyed;
    Wf-put = put-IsKeyed;
    Wf-delete = delete-IsKeyed;
    Wf-seen_event = λ m src id now h k t e. h k t (rw by_key-seen_event at e);
    Wf-remember_closed = λ m j tid n o when h k t e. h k t e;
    Wf-recall_closed = λ m j now h k t e. h k t (rw by_key-recall_closed at e);
    Wf-load_all = λ m h. h;
    contains-load_all = λ m k h. contains-load_all m k h;
    mark = λ t. t;
    get-load_all = get-load_all;
    load_all_found = load_all_found;
    get_keyed = λ m k t h e. h k t e;
    get_by_download_id_found = found-keyed;
    get_by_download_id-put = found-put;
    get_by_download_id-delete_put = found-unindexed;
    get_by_download_id-delete_other = found-delete_other;
    get-put = get-put;
    get-delete = get-delete_lem;
    get-seen_event = λ m src id now j. rw by_key-seen_event;
    get-remember_closed = λ m k tid n o when j. refl;
    get-recall_closed = λ m k now j. rw by_key-recall_closed;
    contains-stale = contains-stale;
  },
  λ d r k t found. cc,
  λ d r k. refl,
  λ t. refl,
)
