-- ===== src/Store/Bolt/Mirrored.antt =====
-- internal/correlate/store_bolt.go: `Put` and `Delete` keep the mirror.
use tracearr.Prelude.{
  Bool, ◌∙◌, [], ◌∷◌, ◌≡◌, refl, sym, subst, true, false, String, Option, none, some, ◌==◌,
  string_eq, arith, if◌then◌else◌, Bool-cases, Option-cases, inl, inr,
}
use tracearr.Prelude.Map
use tracearr.Prelude.Map.{get-insert, get-delete}
use tracearr.Event.{MediaKey, key_eq, key_beq_iff}
use tracearr.Store.Records.{TraceState}
use tracearr.Store.Disk.Keys.{encode_media_key}
use tracearr.Store.Disk.KeyRoundTrip.{IsEncodable}
use tracearr.Store.Disk.Json.{Json, marshal_key}
use tracearr.Store.Disk.Codec.{
  marshal_trace, unmarshal_trace, unmarshal_trace-marshal_trace, unmarshal_key-marshal_key,
}
use tracearr.Store.Disk.Buckets.{
  Bolt, BoltLaws, traces, dl_index, Bucket, Value, json, written, Write, put_value, delete_value,
}
use tracearr.Store.Disk.Loading.{decode}
use tracearr.Store.Bolt.{BoltStore, put, delete, commit, put_writes, delete_writes, last_download}
use tracearr.Store.Bolt.Index.{by_key-put, by_dlid-put}
use tracearr.Store.Bolt.Mirror.{IsMirrored, encode_media_key_inj}

if_same : {A : Type 0} (b : Bool) (x : A) → (if b then x else x) ≡ x
if_same true x = refl
if_same false x = refl

-- a transaction whose second call is left out at times
written-optional :
    (without : Bool) (first second : Write) (b : Bucket) (name : String) (old : Option Value)
    → written (first ∷ (if without then [] else second ∷ [])) b name old ≡ (
        if without
        then written (first ∷ []) b name old
        else written (first ∷ second ∷ []) b name old)
written-optional true first second b name old = refl
written-optional false first second b name old = refl

traces-put_writes :
    (t : TraceState) (j : Json) (name : String) (old : Option Value)
    → written (put_writes t j) traces name old
      ≡ (if encode_media_key t.key == name then some (json j) else old)
unfolding put_writes written
traces-put_writes t j name old =
    written-optional (t.download_id == "") (put_value traces (encode_media_key t.key) (json j))
      (put_value dl_index t.download_id (json (marshal_key t.key))) traces name old
    ∙ if_same (t.download_id == "") _

dl_index-put_writes :
    (t : TraceState) (j : Json) (name : String) (old : Option Value)
    → written (put_writes t j) dl_index name old ≡ (
        if t.download_id == ""
        then old
        else if t.download_id == name
        then some (json (marshal_key t.key))
        else old)
unfolding put_writes written
dl_index-put_writes t j name old =
    written-optional (t.download_id == "") (put_value traces (encode_media_key t.key) (json j))
      (put_value dl_index t.download_id (json (marshal_key t.key))) dl_index name old

closed-put_writes :
    (t : TraceState) (j : Json) (name : String) (old : Option Value)
    → written (put_writes t j) Bucket.closed name old ≡ old
unfolding put_writes written
closed-put_writes t j name old =
    written-optional (t.download_id == "") (put_value traces (encode_media_key t.key) (json j))
      (put_value dl_index t.download_id (json (marshal_key t.key))) Bucket.closed name old
    ∙ if_same (t.download_id == "") _

traces-delete_writes :
    (k : MediaKey) (id name : String) (old : Option Value)
    → written (delete_writes k id) traces name old
      ≡ (if encode_media_key k == name then none else old)
unfolding delete_writes written
traces-delete_writes k id name old =
    written-optional (id == "") (delete_value traces (encode_media_key k))
      (delete_value dl_index id) traces name old
    ∙ if_same (id == "") _

dl_index-delete_writes :
    (k : MediaKey) (id name : String) (old : Option Value)
    → written (delete_writes k id) dl_index name old
      ≡ (if id == "" then old else if id == name then none else old)
unfolding delete_writes written
dl_index-delete_writes k id name old =
    written-optional (id == "") (delete_value traces (encode_media_key k))
      (delete_value dl_index id) dl_index name old

closed-delete_writes :
    (k : MediaKey) (id name : String) (old : Option Value)
    → written (delete_writes k id) Bucket.closed name old ≡ old
unfolding delete_writes written
closed-delete_writes k id name old =
    written-optional (id == "") (delete_value traces (encode_media_key k))
      (delete_value dl_index id) Bucket.closed name old
    ∙ if_same (id == "") _

module _ {D : Bolt} (laws : BoltLaws D) where
  db-put :
      (s : BoltStore D) (t : TraceState) (j : Json)
      → marshal_trace t ≡ some j
      → (put s t).db ≡ (D.update s.db (put_writes t j)).1
  unfolding put commit
  db-put s t j made = rw (made, put) refl

  closed-put : (s : BoltStore D) (t : TraceState) → (put s t).closed ≡ s.closed
  unfolding put commit
  closed-put s t = elim (Option-cases (marshal_trace t)) [
    | inl failed ↦ rw (failed, put)
    | inr (val, made) ↦ rw (made, put)
  ]

  pub put-IsMirrored :
      (s : BoltStore D) (t : TraceState) (j : Json)
      → IsEncodable t.key
      → marshal_trace t ≡ some j
      → (D.update s.db (put_writes t j)).0 ≡ true
      → IsMirrored s
      → IsMirrored (put s t)
  unfolding decode
  put-IsMirrored s t j ok made committed h =
      let at_db = db-put s t j made in
      let after =
        λ (b : Bucket) (name : String). laws.get_committed s.db (put_writes t j) b name committed in
      let read_back = unmarshal_trace-marshal_trace t j made in
      record {
        trace_on_disk = λ k ok_k. ground (
          arith,
          at_db,
          after traces (encode_media_key k),
          traces-put_writes t j (encode_media_key k) (D.get s.db traces (encode_media_key k)),
          h.trace_on_disk k ok_k,
          by_key-put s t,
          get-insert t.key k t s.by_key,
          key_beq_iff t.key k,
          encode_media_key_inj t.key k ok ok_k,
          string_eq.beq_iff (encode_media_key t.key) (encode_media_key k),
          read_back,
        );
        trace_named = λ name v there. elim (Bool-cases (encode_media_key t.key == name)) [
          | inl own ↦
              let stored : v ≡ json j = ground (
                arith,
                at_db,
                after traces name,
                traces-put_writes t j name (D.get s.db traces name),
              ) in
              (
                record t { resumed = false },
                subst (λ v. decode unmarshal_trace v ≡ some (record t { resumed = false }))
                    (sym stored) read_back,
                (string_eq.beq_iff (encode_media_key t.key) name).0 own,
                ok,
              )
          | inr other ↦ h.trace_named name v (
              ground (
                arith,
                at_db,
                after traces name,
                traces-put_writes t j name (D.get s.db traces name),
              ))
        ];
        download_on_disk = λ id. ground (
          arith,
          at_db,
          after dl_index id,
          dl_index-put_writes t j id (D.get s.db dl_index id),
          h.download_on_disk id,
          by_dlid-put s t,
          get-insert t.download_id id t.key s.by_dlid,
          unmarshal_key-marshal_key t.key,
        );
        closed_on_disk = λ k ok_k. ground (
          arith,
          at_db,
          after Bucket.closed (encode_media_key k),
          closed-put_writes t j (encode_media_key k)
              (D.get s.db Bucket.closed (encode_media_key k)),
          h.closed_on_disk k ok_k,
          closed-put s t,
        );
        closed_named = λ name v there. h.closed_named name v (
            ground (
              arith,
              at_db,
              after Bucket.closed name,
              closed-put_writes t j name (D.get s.db Bucket.closed name),
            ));
      }

  pub delete-IsMirrored :
      (s : BoltStore D) (k : MediaKey)
      → IsEncodable k
      → (D.update s.db (delete_writes k (last_download (Map.get k s.by_key)))).0 ≡ true
      → IsMirrored s
      → IsMirrored (delete s k)
  unfolding delete commit
  delete-IsMirrored s k ok committed h =
      let id = last_download (Map.get k s.by_key) in
      let after = λ (b : Bucket) (name : String).
        laws.get_committed s.db (delete_writes k id) b name committed in
      record {
        trace_on_disk = λ j ok_j. ground (
          arith,
          after traces (encode_media_key j),
          traces-delete_writes k id (encode_media_key j) (D.get s.db traces (encode_media_key j)),
          h.trace_on_disk j ok_j,
          get-delete k j s.by_key,
          key_beq_iff k j,
          encode_media_key_inj k j ok ok_j,
          string_eq.beq_iff (encode_media_key k) (encode_media_key j),
        );
        trace_named = λ name v there. h.trace_named name v (
            ground
              (arith, after traces name, traces-delete_writes k id name (D.get s.db traces name)));
        download_on_disk = λ name. ground (
          arith,
          after dl_index name,
          dl_index-delete_writes k id name (D.get s.db dl_index name),
          h.download_on_disk name,
          get-delete id name s.by_dlid,
        );
        closed_on_disk = λ j ok_j. ground (
          arith,
          after Bucket.closed (encode_media_key j),
          closed-delete_writes k id (encode_media_key j)
              (D.get s.db Bucket.closed (encode_media_key j)),
          h.closed_on_disk j ok_j,
        );
        closed_named = λ name v there. h.closed_named name v (
            ground (
              arith,
              after Bucket.closed name,
              closed-delete_writes k id name (D.get s.db Bucket.closed name),
            ));
      }
