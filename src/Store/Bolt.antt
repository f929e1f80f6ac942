-- ===== src/Store/Bolt.antt =====
-- internal/correlate/store_bolt.go: `boltStore`, the implementation on a bbolt database. Reads are
-- answered by maps in memory that mirror the disk, all but the duplicates, which are on disk alone.
-- Each method holds the mutex, so that it is one step. A transaction that fails is not reported.
pub mod Index
pub mod Records
pub mod Recall
pub mod Dedup
mod Load
mod Entries
pub mod Mirror
mod Mirrored
pub mod Steps
pub mod Reopen
pub mod Opened
use tracearr.Prelude.{
  ℕ, ◌+◌, ◌⊎◌, inl, inr, Bool, true, false, String, List, [], ◌∷◌, Option, none, some, ◌==◌,
  string_eq, ltb, if◌then◌else◌,
}
use tracearr.Prelude.Int.{ℤ}
use tracearr.Prelude.Clock.{Time, is_expired}
use tracearr.Prelude.Map
use tracearr.Prelude.Map.{Map}
use tracearr.Event.{MediaKey, key_eq, Source, Outcome}
use tracearr.Store.Records.{TraceState, ClosedTrace, TraceId}
use tracearr.Store.Interface.{Store}
use tracearr.Store.Listing.{keys, values}
use tracearr.Store.Memory.{unindex, find_closed, dedup_key}
use tracearr.Store.Disk.Keys.{encode_media_key, decode_media_key}
use tracearr.Store.Disk.Json.{Json, marshal_key, unmarshal_key}
use tracearr.Store.Disk.Codec.{marshal_trace, unmarshal_trace, marshal_closed, unmarshal_closed}
use tracearr.Store.Disk.Unix.{put_bytes, read_uint, unix_seconds, from_unix}
use tracearr.Store.Disk.Loading.{
  load_traces, load_entries, download_entry, closed_entry, OpenError, open_bolt, create_buckets,
  rehydrate,
}
use tracearr.Store.Disk.Buckets.{
  Bolt, Bucket, traces, dl_index, dedup, closed, Value, json, raw, Write, put_value, delete_value,
}

pub record BoltStore (D : Bolt) : Type 0 where
  pub db : D.Db
  pub dedup_ttl : ℕ
  pub recall_ttl : ℕ
  pub by_key : Map MediaKey TraceState
  pub by_dlid : Map String MediaKey
  pub closed : Map MediaKey ClosedTrace

unfoldable pub put_writes : TraceState → Json → List Write
put_writes t val =
    put_value traces (encode_media_key t.key) (json val)
    ∷ (if t.download_id == ""
        then []
        else put_value dl_index t.download_id (json (marshal_key t.key)) ∷ [])

-- the download of the record in memory
unfoldable pub last_download : Option TraceState → String
last_download none = ""
last_download (some t) = t.download_id

unfoldable pub delete_writes : MediaKey → String → List Write
delete_writes k id =
    delete_value traces (encode_media_key k)
    ∷ (if id == "" then [] else delete_value dl_index id ∷ [])

-- The instant of the eight bytes on disk; where fewer stood there the code would panic.
unfoldable pub seen_at : Option Value → Option Time
seen_at (some (raw bs)) = some (from_unix (read_uint 0 bs))
seen_at _ = none

-- t.After(now.Add(-ttl))
unfoldable pub is_recent : ℕ → Time → Option Time → Bool
is_recent ttl now none = false
is_recent ttl now (some t) = ltb now (t + ttl)

-- the bytes that Marshal returned, which are none beside an error
unfoldable pub closed_value : Option Json → Value
closed_value none = raw []
closed_value (some j) = json j

-- The records are shared, so that `Resumed` is set in memory too; it is not written.
unfoldable pub mark_resumed : Map MediaKey TraceState → Map MediaKey TraceState
mark_resumed [] = []
mark_resumed ((k, t) ∷ m) = (k, record t { resumed = true }) ∷ mark_resumed m

module _ {D : Bolt} where
  unfoldable pub load : BoltStore D → OpenError ⊎ BoltStore D
  unfolding load_traces load_entries download_entry closed_entry
  load s = elim (load_traces (D.for_each s.db traces) s.by_key) [
    | inl name ↦ inl (rehydrate name)
    | inr by_key ↦ inr (record s {
      by_key = by_key;
      by_dlid = load_entries download_entry (D.for_each s.db dl_index) s.by_dlid;
      closed = load_entries closed_entry (D.for_each s.db Bucket.closed) s.closed;
    })
  ]

  -- OpenBoltStore; `opened` is the answer of bolt.Open. The transaction that creates the buckets changes
  -- no value.
  unfoldable pub open_bolt_store : Option D.Db → ℕ → ℕ → OpenError ⊎ BoltStore D
  unfolding load
  open_bolt_store none dedup_ttl recall_ttl = inl open_bolt
  open_bolt_store (some db) dedup_ttl recall_ttl =
      let (created, db') = D.update db [] in
      if created
      then load (record {
        db = db';
        dedup_ttl = dedup_ttl;
        recall_ttl = recall_ttl;
        by_key = [];
        by_dlid = [];
        closed = [];
      })
      else inl create_buckets

  unfoldable pub get : BoltStore D → MediaKey → Option TraceState
  get s k = Map.get k s.by_key

  unfoldable pub get_by_download_id : BoltStore D → String → Option TraceState
  get_by_download_id s id =
      if id == ""
      then none
      else elim (Map.get id s.by_dlid) [ none ↦ none | some k ↦ Map.get k s.by_key ]

  -- a transaction whose error is dropped
  unfoldable pub commit : BoltStore D → List Write → BoltStore D
  commit s ws = record s { db = (D.update s.db ws).1 }

  unfoldable pub put : BoltStore D → TraceState → BoltStore D
  unfolding commit put_writes
  put s t =
      let cached = record s {
        by_key = Map.insert t.key t s.by_key;
        by_dlid =
            if t.download_id == "" then s.by_dlid else Map.insert t.download_id t.key s.by_dlid;
      } in
      elim (marshal_trace t) [ none ↦ cached | some val ↦ commit cached (put_writes t val) ]

  unfoldable pub delete : BoltStore D → MediaKey → BoltStore D
  unfolding commit last_download delete_writes
  delete s k =
      let dlid = last_download (Map.get k s.by_key) in
      commit
        (record s {
          by_key = Map.delete k s.by_key;
          by_dlid = if dlid == "" then s.by_dlid else Map.delete dlid s.by_dlid;
        })
        (delete_writes k dlid)

  unfoldable pub stale : BoltStore D → ℕ → Time → List MediaKey
  stale s ttl now = keys (Map.select (λ k t. is_expired ttl now t.updated_at) s.by_key)

  -- Where no transaction can begin, the event is new: `get` finds nothing then.
  unfoldable pub seen_event : BoltStore D → Source → String → Time → Bool × BoltStore D
  unfolding commit seen_at is_recent
  seen_event s src id now =
      if id == ""
      then (true, s)
      else if is_recent s.dedup_ttl now (seen_at (D.get s.db dedup (dedup_key src id)))
      then (false, commit s [])
      else (
        true,
        commit s
            (put_value dedup (dedup_key src id) (raw (put_bytes 8 (unix_seconds now) [])) ∷ []),
      )

  unfoldable pub remember_closed :
      BoltStore D → MediaKey → TraceId → ℤ → Outcome → Time → BoltStore D
  unfolding commit closed_value
  remember_closed s k tid attempt outcome when =
      let ct : ClosedTrace = record {
        trace_id = tid;
        attempt = attempt;
        outcome = outcome;
        closed_at = when;
      } in
      commit (record s { closed = Map.insert k ct s.closed })
        (put_value Bucket.closed (encode_media_key k) (closed_value (marshal_closed ct)) ∷ [])

  -- The entry of `k` is dropped, also where the record found was its series'.
  unfoldable pub recall_closed : BoltStore D → MediaKey → Time → Option ClosedTrace × BoltStore D
  unfolding commit
  recall_closed s k now = elim (find_closed s.closed k) [
    | none ↦ (none, s)
    | some c ↦
        if is_expired s.recall_ttl now c.closed_at
        then (
          none,
          commit (record s { closed = Map.delete k s.closed })
              (delete_value Bucket.closed (encode_media_key k) ∷ []),
        )
        else (some c, s)
  ]

  unfoldable pub load_all : BoltStore D → List TraceState × BoltStore D
  unfolding mark_resumed
  load_all s =
      let marked = mark_resumed s.by_key in
      (values (Map.select (λ k t. true) marked), record s { by_key = marked })

-- the value behind the interface
abbrev pub bolt_store : Bolt → Store
bolt_store D = record {
  State = BoltStore D;
  get = get;
  get_by_download_id = get_by_download_id;
  put = put;
  delete = delete;
  stale = stale;
  seen_event = seen_event;
  remember_closed = remember_closed;
  recall_closed = recall_closed;
  load_all = load_all;
}
