-- ===== src/Store/Bolt/Index.antt =====
-- internal/correlate/store_bolt.go: the download index of `boltStore`, whatever the disk does.
use tracearr.Prelude.{
  ◌∙◌, ap, ◌≡◌, refl, false, String, none, some, ◌==◌, string_eq, arith, Option-cases, Bool-cases,
  if◌then◌else◌, inl, inr, beq_refl,
}
use tracearr.Prelude.Map
use tracearr.Prelude.Map.{Map, get-insert, get-delete, get-select, keep_if, select-Distinct}
use tracearr.Event.{MediaKey, key_eq, key_beq}
use tracearr.Store.Records.{TraceState}
use tracearr.Store.Disk.Buckets.{Bolt}
use tracearr.Store.Memory.{unindex}
use tracearr.Store.Disk.Codec.{marshal_trace}
use tracearr.Store.Bolt.{BoltStore, get, get_by_download_id, put, delete, commit}

module _ {D : Bolt} where
  -- Every record stands under its own key.
  abbrev pub IsKeyed : BoltStore D → Type 0
  IsKeyed s = (k : MediaKey) (t : TraceState) → Map.get k s.by_key ≡ some t → t.key ≡ k

  pub by_key-put :
      (s : BoltStore D) (t : TraceState) → (put s t).by_key ≡ Map.insert t.key t s.by_key
  unfolding put commit
  by_key-put s t = elim (Option-cases (marshal_trace t)) [
    | inl failed ↦ rw (failed, put)
    | inr (val, made) ↦ rw (made, put)
  ]

  pub by_dlid-put :
      (s : BoltStore D) (t : TraceState)
      → (put s t).by_dlid
        ≡ (if t.download_id == "" then s.by_dlid else Map.insert t.download_id t.key s.by_dlid)
  unfolding put commit
  by_dlid-put s t = elim (Option-cases (marshal_trace t)) [
    | inl failed ↦ rw (failed, put)
    | inr (val, made) ↦ rw (made, put)
  ]

  pub found-keyed :
      (s : BoltStore D) (id : String) (t : TraceState)
      → IsKeyed s
      → get_by_download_id s id ≡ some t
      → get s t.key ≡ some t
  unfolding get_by_download_id get
  found-keyed s id t h e = elim (Option-cases (Map.get id s.by_dlid)) [
    | inl missing ↦ ground arith
    | inr (k, there) ↦ ground (arith, h k t)
  ]

  pub found-put :
      (s : BoltStore D) (t : TraceState)
      → (t.download_id == "") ≡ false
      → get_by_download_id (put s t) t.download_id ≡ some t
  unfolding get_by_download_id
  found-put s t h = ground (
    arith,
    by_key-put s t,
    by_dlid-put s t,
    get-insert t.download_id t.download_id t.key s.by_dlid,
    get-insert t.key t.key t s.by_key,
    beq_refl t.download_id,
    beq_refl t.key,
  )

  pub found-unindexed :
      (s : BoltStore D) (t u : TraceState) (k : MediaKey)
      → get s k ≡ some t
      → (u.download_id == t.download_id) ≡ false
      → (get_by_download_id (delete s k) t.download_id ≡ none)
        × (get_by_download_id (put (delete s k) u) t.download_id ≡ none)
  unfolding get_by_download_id get delete unindex commit
  found-unindexed s t u k there other = elim (Bool-cases (t.download_id == "")) [
    | inl unnamed ↦ (rw unnamed refl, rw unnamed refl)
    | inr named ↦
        let gone : Map.get t.download_id (delete s k).by_dlid ≡ none =
          rw
            (there, named, get-delete t.download_id t.download_id s.by_dlid, beq_refl t.download_id)
            refl in
        let still : Map.get t.download_id (put (delete s k) u).by_dlid ≡ none =
          ap (Map.get t.download_id) (by_dlid-put (delete s k) u)
          ∙ elim (Bool-cases (u.download_id == "")) [
            | inl empty ↦ rw empty gone
            | inr full ↦
                rw (full, get-insert u.download_id t.download_id u.key (delete s k).by_dlid, other)
                  gone
          ] in
        (rw (named, gone) refl, rw (named, still) refl)
  ]

  pub found-delete_other :
      (s : BoltStore D) (t u : TraceState) (k : MediaKey) (id : String)
      → IsKeyed s
      → get s k ≡ some t
      → (t.download_id == id) ≡ false
      → key_beq k u.key ≡ false
      → get_by_download_id s id ≡ some u
      → get_by_download_id (delete s k) id ≡ some u
  unfolding get_by_download_id get delete unindex commit
  found-delete_other s t u k id keyed there other apart found =
      elim (Option-cases (Map.get id s.by_dlid)) [
        | inl missing ↦ absurd (ground (arith, missing, found))
        | inr (j, indexed) ↦ ground (
          arith,
          indexed,
          found,
          keyed j u,
          get-delete k j s.by_key,
          get-delete t.download_id id s.by_dlid,
        )
      ]
