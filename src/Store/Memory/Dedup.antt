-- ===== src/Store/Memory/Dedup.antt =====
-- internal/correlate/store.go: deduplication by `memoryStore.SeenEvent`.
use tracearr.Prelude.{
  ℕ, ◌≡◌, refl, Bool, true, false, not, ◌||◌, ◌⊎◌, nat_eq, ◌≢◌, leb, ◌∙◌, sym, ap, Bool-cases, inl,
  inr, String, none, some, ◌==◌, string_eq, arith, beq_refl,
}
use tracearr.Prelude.Clock.{Time, is_expired}
use tracearr.Prelude.Map
use tracearr.Prelude.Map.{get-insert, get-drop_if}
use tracearr.Event.{Source, source_text}
use tracearr.Prelude.Lists.{contains}
use tracearr.Prelude.Text.{runes}
use tracearr.Store.Disk.Keys.{cut_bar}
use tracearr.Store.Disk.KeyRoundTrip.{cut_bar-with_bar}
use tracearr.Store.Disk.Json.{read_source, text}
use tracearr.Store.Disk.Codec.{read_source-source_text}
use tracearr.Store.Interface.{SeenLaws}
use tracearr.Store.Memory.{
  MemoryStore, new, memory_store, dedup_key, put, delete, seen_event, remember_closed,
  recall_closed,
}

no_bar : (src : Source) → contains (runes (source_text src)) b'|' ≡ false
unfolding contains source_text
no_bar Source.overseerr = refl
no_bar Source.jellyseerr = refl
no_bar Source.sonarr = refl
no_bar Source.radarr = refl
no_bar Source.prowlarr = refl
no_bar Source.nzbget = refl
no_bar Source.sabnzbd = refl

-- The pair was recorded, and its time has not expired.
unfoldable pub seen : MemoryStore → Source → String → Time → Bool
seen m src id now = elim (Map.get (dedup_key src id) m.dedup) [
  | none ↦ false
  | some t ↦ not (is_expired m.dedup_ttl now t)
]

seen_event_new :
    (m : MemoryStore) (src : Source) (id : String) (now : Time)
    → (seen_event m src id now).0 ≡ (id == "" || not (seen m src id now))
unfolding seen seen_event
seen_event_new m src id now =
    ground
      (arith, get-drop_if (λ (t : Time). is_expired m.dedup_ttl now t) (dedup_key src id) m.dedup)

seen-seen_event :
    (m : MemoryStore) (src : Source) (id : String) (now : Time)
    → (id == "") ≡ false
    → seen (seen_event m src id now).1 src id now ≡ true
unfolding seen seen_event
seen-seen_event m src id now h = ground (
  arith,
  get-drop_if (λ (t : Time). is_expired m.dedup_ttl now t) (dedup_key src id) m.dedup,
  get-insert (dedup_key src id) (dedup_key src id) now
      (Map.drop_if (λ (t : Time). is_expired m.dedup_ttl now t) m.dedup),
  beq_refl (dedup_key src id),
)

seen_until :
    (m : MemoryStore) (src : Source) (id : String) (now later : Time)
    → (id == "") ≡ false
    → (seen_event m src id now).0 ≡ true
    → seen (seen_event m src id now).1 src id later ≡ not (is_expired m.dedup_ttl later now)
unfolding seen seen_event
seen_until m src id now later named new = ground (
  arith,
  get-insert (dedup_key src id) (dedup_key src id) now
      (Map.drop_if (λ (t : Time). is_expired m.dedup_ttl now t) m.dedup),
  beq_refl (dedup_key src id),
)

some_injective : {A : Type 0} (a b : A) → some a ≡ some b → a ≡ b
some_injective a b same = cc

-- The keys of two sources' events differ, and so do those of two events of a source.
dedup_key_injective :
    (src other : Source) (id other_id : String)
    → dedup_key src id ≡ dedup_key other other_id
    → (src ≡ other) × (id ≡ other_id)
unfolding dedup_key
dedup_key_injective src other id other_id same =
    let here : String × String = (source_text src, id) in
    let there : String × String = (source_text other, other_id) in
    let both : here ≡ there = some_injective here there (
      sym (cut_bar-with_bar (source_text src) id (no_bar src))
      ∙ (ap cut_bar same ∙ cut_bar-with_bar (source_text other) other_id (no_bar other))) in
    let texts = ap (λ (p : String × String). p.0) both in
    let sources : src ≡ other = some_injective src other (
      sym (read_source-source_text src)
      ∙ (ap (λ (s : String). read_source (text s)) texts ∙ read_source-source_text other)) in
    (sources, ap (λ (p : String × String). p.1) both)

seen-seen_event_other :
    (m : MemoryStore) (src other : Source) (id other_id : String) (now later : Time)
    → (src ≢ other) ⊎ (id ≢ other_id)
    → leb now later ≡ true
    → seen (seen_event m src id now).1 other other_id later ≡ seen m other other_id later
unfolding seen seen_event
seen-seen_event_other m src other id other_id now later differ after =
    elim (Bool-cases (dedup_key src id == dedup_key other other_id)) [
      | inl same ↦
          let (sources, ids) =
            dedup_key_injective src other id other_id ((string_eq.beq_iff _ _).0 same) in
          absurd (elim differ [
            | inl sources_differ ↦ sources_differ sources
            | inr ids_differ ↦ ids_differ ids
          ])
      | inr apart ↦ ground (
        arith,
        apart,
        after,
        get-drop_if (λ (t : Time). is_expired m.dedup_ttl now t) (dedup_key other other_id) m.dedup,
        get-insert (dedup_key src id) (dedup_key other other_id) now
            (Map.drop_if (λ (t : Time). is_expired m.dedup_ttl now t) m.dedup),
      )
    ]

-- memoryStore keeps the promises about duplicates: an event is new unless its id is not empty and it
-- has been seen; one that was new and has an id has been seen exactly until the store's limit has passed; at
-- that time and later it is not taken for an event of another source or another id; no change of the records
-- or of the closed traces moves what has been seen; and a new store has seen nothing.
pub memory_store-SeenLaws :
    (L : SeenLaws memory_store) × ((d r : ℕ) (src : Source) (id : String) (now : Time)
      → L.seen (new d r) src id now ≡ false)
    × ((m : MemoryStore) → L.ttl m ≡ m.dedup_ttl)
unfolding seen put delete remember_closed recall_closed new Map.get
memory_store-SeenLaws = (
  record {
    seen = seen;
    seen_event_new = seen_event_new;
    seen-seen_event = seen-seen_event;
    ttl = λ m. m.dedup_ttl;
    seen_until = seen_until;
    seen-seen_event_other = seen-seen_event_other;
    seen-put = λ m t src id now. refl;
    seen-delete = λ m k src id now. refl;
    seen-remember_closed = λ m k tid n o when src id now. refl;
    seen-recall_closed = λ m k at src id now. ground arith;
  },
  λ d r src id now. refl,
  λ m. refl,
)
