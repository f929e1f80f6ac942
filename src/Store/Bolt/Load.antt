-- ===== src/Store/Bolt/Load.antt =====
-- internal/correlate/store_bolt.go: what `load` finds in a bucket whose names fit its values.
use tracearr.Prelude.{
  ◌≡◌, ◌∙◌, refl, ap, String, [], ◌∷◌, Option, none, some, ◌==◌, string_eq, Eq, arith, Bool-cases,
  Option-cases, inl, inr,
}
use tracearr.Prelude.Map
use tracearr.Prelude.Map.{Map, Distinct, get-insert}
use tracearr.Event.{key_eq}
use tracearr.Store.Disk.Buckets.{Value}
use tracearr.Store.Disk.Loading.{load_entries}

-- What an entry makes of an earlier lookup.
abbrev pub entry_or : {K V : Type 0} → Option V → Option (K × V) → Option V
entry_or old none = old
entry_or old (some (k, x)) = some x

module _ {K V : Type 0} ⦃e : Eq K⦄ (entry : String → Value → Option (K × V)) (encode : K → String)
    (Good : K → Type 0)
    (encode_inj : (j k : K) → Good j → Good k → encode j ≡ encode k → j ≡ k) where
  -- Each entry stands under the name of its key.
  abbrev pub Named : Map String Value → Type 0
  Named es =
      (name : String) (v : Value) (k : K) (x : V)
      → Map.get name es ≡ some v
      → entry name v ≡ some (k, x)
      → (encode k ≡ name) × Good k

  abbrev pub found : Map String Value → K → Option V → Option V
  found es k old = elim (Map.get (encode k) es) [
    | none ↦ old
    | some v ↦ entry_or old (entry (encode k) v)
  ]

  Named-rest :
      (name : String) (v : Value) (rest : Map String Value)
      → Distinct ((name, v) ∷ rest)
      → Named ((name, v) ∷ rest)
      → Named rest
  unfolding Map.get
  Named-rest name v rest distinct named other w k x there decoded =
      elim (Bool-cases (name == other)) [
        | inl same ↦ absurd (ground (arith, distinct.0, there, string_eq.beq_iff name other))
        | inr differ ↦ named other w k x (ground (arith, differ, there)) decoded
      ]

  -- The map loaded has, under each good key, what stands on disk under its name.
  pub get-load_entries :
      (es : Map String Value) (m : Map K V) (k : K)
      → Distinct es
      → Named es
      → Good k
      → Map.get k (load_entries entry es m) ≡ found es k (Map.get k m)
  unfolding load_entries Map.get
  get-load_entries [] m k distinct named good = refl
  get-load_entries ((name, v) ∷ rest) m k distinct named good =
      let named' = Named-rest name v rest distinct named in
      elim (Option-cases (entry name v)) [
        | inl failed ↦
            let skipped : load_entries entry ((name, v) ∷ rest) m ≡ load_entries entry rest m =
              rw (failed, load_entries) refl in
            ap (Map.get k) skipped
            ∙ (get-load_entries rest m k distinct.1 named' good
                ∙ ground (arith, distinct.0, failed, string_eq.beq_iff name (encode k)))
        | inr ((j, x), decoded) ↦
            let (at_name, good_j) =
              named name v j x (ground (arith, string_eq.beq_iff name name)) decoded in
            let loaded : load_entries entry ((name, v) ∷ rest) m
                ≡ load_entries entry rest (Map.insert j x m) =
              rw (decoded, load_entries) refl in
            ap (Map.get k) loaded
            ∙ (get-load_entries rest (Map.insert j x m) k distinct.1 named' good
                ∙ ground (
                  arith,
                  distinct.0,
                  decoded,
                  at_name,
                  string_eq.beq_iff name (encode k),
                  get-insert j k x m,
                  e.beq_iff j k,
                  encode_inj j k good_j good,
                ))
      ]
