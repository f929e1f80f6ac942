-- ===== src/Store/Memory/Index.antt =====
-- internal/correlate/store.go: the download index of `memoryStore` after a second grab. `Delete`
-- removes the entry of the record's last download alone.
use tracearr.Prelude.{
  ◌≡◌, false, String, some, ◌==◌, string_eq, beq_refl, Bool-cases, inl, inr, ◌∙◌,
}
use tracearr.Prelude.Map
use tracearr.Prelude.Map.{get-insert, get-delete}
use tracearr.Event.{MediaKey, key_eq}
use tracearr.Store.Records.{TraceState}
use tracearr.Store.Memory.{MemoryStore, put, delete, unindex, get_by_download_id}

indexed-put :
    (m : MemoryStore) (t : TraceState) (id : String)
    → (t.download_id == id) ≡ false
    → Map.get id (put m t).by_dlid ≡ Map.get id m.by_dlid
unfolding put
indexed-put m t id other = elim (Bool-cases (t.download_id == "")) [
  | inl unnamed ↦ rw unnamed
  | inr named ↦ rw (named, get-insert t.download_id id t.key m.by_dlid, other)
]

indexed-put_self :
    (m : MemoryStore) (t : TraceState)
    → (t.download_id == "") ≡ false
    → Map.get t.download_id (put m t).by_dlid ≡ some t.key
unfolding put
indexed-put_self m t named =
    rw (named, get-insert t.download_id t.download_id t.key m.by_dlid, beq_refl t.download_id)

indexed-delete :
    (m : MemoryStore) (t : TraceState) (k : MediaKey) (id : String)
    → Map.get k m.by_key ≡ some t
    → (t.download_id == id) ≡ false
    → Map.get id (delete m k).by_dlid ≡ Map.get id m.by_dlid
unfolding delete unindex
indexed-delete m t k id there other = rw there (elim (Bool-cases (t.download_id == "")) [
  | inl unnamed ↦ rw unnamed
  | inr named ↦ rw (named, get-delete t.download_id id m.by_dlid, other)
])

stored-put :
    (m : MemoryStore) (t : TraceState) (k : MediaKey)
    → t.key ≡ k
    → Map.get k (put m t).by_key ≡ some t
unfolding put
stored-put m t k at_key = rw (get-insert t.key k t m.by_key, at_key, beq_refl k)

-- A record of a key is put with one download and again with another, and the key is deleted. The
-- first download is still in the index: a later record of the key, which never had that download,
-- is found by it.
pub found-regrabbed :
    (m : MemoryStore) (first second later : TraceState)
    → second.key ≡ first.key
    → later.key ≡ first.key
    → (first.download_id == "") ≡ false
    → (second.download_id == first.download_id) ≡ false
    → (later.download_id == first.download_id) ≡ false
    → get_by_download_id (put (delete (put (put m first) second) first.key) later) first.download_id
      ≡ some later
unfolding get_by_download_id
found-regrabbed m first second later same_key later_key named other unnamed =
    let m₁ = put m first in
    let m₂ = put m₁ second in
    let m₃ = delete m₂ first.key in
    let indexed : Map.get first.download_id (put m₃ later).by_dlid ≡ some first.key =
      indexed-put m₃ later first.download_id unnamed
      ∙ indexed-delete m₂ second first.key first.download_id
          (stored-put m₁ second first.key same_key) other
      ∙ indexed-put m₁ second first.download_id other
      ∙ indexed-put_self m first named in
    rw (named, indexed) (stored-put m₃ later first.key later_key)
