-- ===== src/Store/Bolt/Reopen.antt =====
-- internal/correlate/store_bolt.go: `OpenBoltStore` on the database of an earlier process.
use tracearr.Prelude.{ℕ, ◌≡◌, ◌∙◌, true, String, [], some, string_eq, arith, inr}
use tracearr.Prelude.Map
use tracearr.Prelude.Map.{Map, Distinct, get-insert}
use tracearr.Event.{MediaKey, key_eq}
use tracearr.Store.Disk.Keys.{encode_media_key}
use tracearr.Store.Disk.KeyRoundTrip.{IsEncodable, decode_media_key-encode_media_key}
use tracearr.Store.Disk.Buckets.{Bolt, BoltLaws, traces, dl_index, Bucket, written}
use tracearr.Store.Disk.Loading.{load_entries, download_entry, closed_entry}
use tracearr.Store.Bolt.{BoltStore, get, open_bolt_store, load}
use tracearr.Store.Bolt.Index.{IsKeyed}
use tracearr.Store.Bolt.Load.{get-load_entries}
use tracearr.Store.Bolt.Mirror.{IsMirrored, encode_media_key_inj, unresumed, Steps}
use tracearr.Store.Bolt.Steps.{steps-IsMirrored}
use tracearr.Store.Bolt.Entries.{nothing, trace_entry, load_traces-load_entries, load_entries-keyed}

module _ {D : Bolt} (laws : BoltLaws D) where
  -- the store that is opened where every record decodes
  reloaded : D.Db → ℕ → ℕ → BoltStore D
  reloaded db d r = record {
    db = db;
    dedup_ttl = d;
    recall_ttl = r;
    by_key = load_entries trace_entry (D.for_each db traces) [];
    by_dlid = load_entries download_entry (D.for_each db dl_index) [];
    closed = load_entries closed_entry (D.for_each db Bucket.closed) [];
  }

  created : D.Db → D.Db
  created db = (D.update db []).1

  get-created :
      (db : D.Db) (b : Bucket) (name : String)
      → (D.update db []).0 ≡ true
      → D.get (created db) b name ≡ D.get db b name
  unfolding created written
  get-created db b name committed = laws.get_committed db [] b name committed

  listed-created :
      (db : D.Db) (b : Bucket) (name : String)
      → (D.update db []).0 ≡ true
      → Map.get name (D.for_each (created db) b) ≡ D.get db b name
  listed-created db b name committed =
      laws.get-for_each (created db) b name ∙ get-created db b name committed

  opened-reloaded :
      (s : BoltStore D) (d r : ℕ)
      → IsMirrored s
      → (D.update s.db []).0 ≡ true
      → open_bolt_store (some s.db) d r ≡ inr (reloaded (created s.db) d r)
  unfolding open_bolt_store load reloaded created
  opened-reloaded s d r h committed =
      let decodes =
        load_traces-load_entries (D.for_each (created s.db) traces) []
          (laws.Distinct-for_each (created s.db) traces)
          (λ name v there.
            let (t, decoded, named, good) =
              h.trace_named name v (rw (listed-created s.db traces name committed) at there) in
            (t, decoded)) in
      ground (arith, committed, decodes)

  get-reloaded :
      (s : BoltStore D) (d r : ℕ) (k : MediaKey)
      → IsMirrored s
      → (D.update s.db []).0 ≡ true
      → IsEncodable k
      → Map.get k (reloaded (created s.db) d r).by_key ≡ unresumed (Map.get k s.by_key)
  unfolding reloaded trace_entry Map.get
  get-reloaded s d r k h committed ok =
      let es = D.for_each (created s.db) traces in
      let listed = listed-created s.db traces (encode_media_key k) committed in
      get-load_entries trace_entry encode_media_key IsEncodable encode_media_key_inj es [] k
        (laws.Distinct-for_each (created s.db) traces)
        (λ name v j t there decoded.
          let (u, made, at_name, good) =
            h.trace_named name v (rw (listed-created s.db traces name committed) at there) in
          let same : j ≡ u.key = ground (arith, decoded, made) in rw same (at_name, good))
        ok
      ∙ ground (arith, listed, h.trace_on_disk k ok)

  closed-reloaded :
      (s : BoltStore D) (d r : ℕ) (k : MediaKey)
      → IsMirrored s
      → (D.update s.db []).0 ≡ true
      → IsEncodable k
      → Map.get k (reloaded (created s.db) d r).closed ≡ Map.get k s.closed
  unfolding reloaded closed_entry Map.get
  closed-reloaded s d r k h committed ok =
      let es = D.for_each (created s.db) Bucket.closed in
      let listed = listed-created s.db Bucket.closed (encode_media_key k) committed in
      get-load_entries closed_entry encode_media_key IsEncodable encode_media_key_inj es [] k
        (laws.Distinct-for_each (created s.db) Bucket.closed)
        (λ name v j c there decoded.
          let (i, at_name, good) =
            h.closed_named name v
              (rw (listed-created s.db Bucket.closed name committed) at there) in
          let same : j ≡ i =
            ground (arith, decoded, decode_media_key-encode_media_key i good, at_name) in
          rw same (at_name, good))
        ok
      ∙ ground (arith, listed, h.closed_on_disk k ok, decode_media_key-encode_media_key k ok)

  by_dlid-reloaded :
      (s : BoltStore D) (d r : ℕ) (id : String)
      → IsMirrored s
      → (D.update s.db []).0 ≡ true
      → Map.get id (reloaded (created s.db) d r).by_dlid ≡ Map.get id s.by_dlid
  unfolding reloaded download_entry Map.get
  by_dlid-reloaded s d r id h committed =
      let es = D.for_each (created s.db) dl_index in
      let listed = listed-created s.db dl_index id committed in
      get-load_entries download_entry (λ id. id) (λ id. Unit) (λ a b _ _ same. same) es [] id
        (laws.Distinct-for_each (created s.db) dl_index)
        (λ name v j k there decoded. ground (arith, decoded)) tt
      ∙ ground (arith, listed, h.download_on_disk id)

  reloaded-IsKeyed : (s : BoltStore D) (d r : ℕ) → IsKeyed (reloaded (created s.db) d r)
  unfolding reloaded
  reloaded-IsKeyed s d r =
      load_entries-keyed (D.for_each (created s.db) traces) []
        (λ k t there. absurd (nothing k t there))

  reloaded-IsMirrored :
      (s : BoltStore D) (d r : ℕ)
      → IsMirrored s
      → (D.update s.db []).0 ≡ true
      → IsMirrored (reloaded (created s.db) d r)
  unfolding reloaded
  reloaded-IsMirrored s d r h begun = record {
    trace_on_disk = λ k ok. ground (
      arith,
      get-created s.db traces (encode_media_key k) begun,
      h.trace_on_disk k ok,
      get-reloaded s d r k h begun ok,
    );
    trace_named =
        λ name v there. h.trace_named name v (rw (get-created s.db traces name begun) at there);
    download_on_disk = λ id. ground (
      arith,
      get-created s.db dl_index id begun,
      h.download_on_disk id,
      by_dlid-reloaded s d r id h begun,
    );
    closed_on_disk = λ k ok. ground (
      arith,
      get-created s.db Bucket.closed (encode_media_key k) begun,
      h.closed_on_disk k ok,
      closed-reloaded s d r k h begun ok,
    );
    closed_named = λ name v there.
        h.closed_named name v (rw (get-created s.db Bucket.closed name begun) at there);
  }

-- From a store that mirrors its disk, any operations whose transactions are committed and whose records
-- can be encoded: the next process, if it can begin, opens the database without an error, and finds under
-- every key that can be encoded the record that was in memory, not marked as resumed, and the closed
-- trace, and under every download the key; each record is under its own key, and the new store mirrors
-- its disk.
pub reopened :
    {D : Bolt} (laws : BoltLaws D) (s u : BoltStore D) (d r : ℕ) (k : MediaKey) (id : String)
    → IsMirrored s
    → Steps s u
    → (D.update u.db []).0 ≡ true
    → IsEncodable k
    → (t : BoltStore D) × (open_bolt_store (some u.db) d r ≡ inr t)
      × (get t k ≡ unresumed (get u k))
      × (Map.get k t.closed ≡ Map.get k u.closed)
      × (Map.get id t.by_dlid ≡ Map.get id u.by_dlid)
      × IsKeyed t
      × IsMirrored t
unfolding get
reopened {D} laws s u d r k id started steps begun ok =
    let h = steps-IsMirrored laws s u steps started in
    let t = reloaded laws (created laws u.db) d r in
    (
      t,
      opened-reloaded laws u d r h begun,
      get-reloaded laws u d r k h begun ok,
      closed-reloaded laws u d r k h begun ok,
      by_dlid-reloaded laws u d r id h begun,
      reloaded-IsKeyed laws u d r,
      reloaded-IsMirrored laws u d r h begun,
    )
