-- ===== src/Store/Listing.antt =====
-- internal/correlate/store.go: the keys and the values that a loop over a map of records collects.
use tracearr.Prelude.{
  map, is_some, ◌≡◌, refl, true, false, List, [], ◌∷◌, none, some, arith, beq_refl,
}
use tracearr.Prelude.Lists.{contains, All}
use tracearr.Prelude.Map
use tracearr.Prelude.Map.{Map, Distinct}
use tracearr.Event.{MediaKey, key_eq, key_beq_iff}
use tracearr.Store.Records.{TraceState}

unfoldable pub keys : Map MediaKey TraceState → List MediaKey
keys [] = []
keys ((k, s) ∷ m) = k ∷ keys m

unfoldable pub values : Map MediaKey TraceState → List TraceState
values [] = []
values ((k, s) ∷ m) = s ∷ values m

pub contains-keys :
    (m : Map MediaKey TraceState) (k : MediaKey)
    → contains (keys m) k ≡ elim (Map.get k m) [ none ↦ false | some _ ↦ true ]
unfolding contains keys Map.get
contains-keys [] k = refl
contains-keys ((j, t) ∷ m) k = ground (arith, contains-keys m k)

pub contains-values :
    (m : Map MediaKey TraceState) (k : MediaKey)
    → Distinct m
    → ((j : MediaKey) (t : TraceState) → Map.get j m ≡ some t → t.key ≡ j)
    → contains (map (λ (t : TraceState). t.key) (values m)) k ≡ is_some (Map.get k m)
unfolding contains values Map.get
contains-values [] k distinct keyed = refl
contains-values ((j, t) ∷ m) k distinct keyed =
    let here : t.key ≡ j = keyed j t (ground (arith, beq_refl j)) in
    let rest : (i : MediaKey) (u : TraceState) → Map.get i m ≡ some u → u.key ≡ i =
      λ i u found. keyed i u (ground (arith, found, distinct.0, key_beq_iff j i)) in
    ground (arith, here, contains-values m k distinct.1 rest)

pub All-values :
    {P : TraceState → Type 0} (m : Map MediaKey TraceState)
    → Distinct m
    → ((j : MediaKey) (t : TraceState) → Map.get j m ≡ some t → P t)
    → All P (values m)
unfolding values Map.get
All-values [] distinct each = tt
All-values ((j, t) ∷ m) distinct each = (
  each j t (ground (arith, beq_refl j)),
  All-values m distinct.1
      (λ i u found. each i u (ground (arith, found, distinct.0, key_beq_iff j i))),
)
