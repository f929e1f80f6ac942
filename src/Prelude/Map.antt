-- ===== src/Prelude/Map.antt =====
-- Go's maps. The representation is an association list; the laws below hold of every value of the
-- type, so that no invariant of the representation has to be carried. The order in which Go ranges
-- over a map is open; here it is the order of the list.
use mathlib.Core.Path.{◌≡◌, refl}
use mathlib.Core.Bool.{Bool}
use mathlib.Core.Logic.{inl, inr}
use mathlib.Core.Option.{Option, none, some}
use mathlib.Core.List.{List, [], ◌∷◌}
use native.Mathlib.Omega.{arith}
use tracearr.Prelude.Tests.{Eq, ◌==◌, if◌then◌else◌, Bool-cases, beq_refl}

abbrev pub Map {ℓ} : Type ℓ → Type ℓ → Type ℓ
Map K V = List (K × V)

-- What is left of a looked-up value after a test.
abbrev pub keep_if {ℓ} : {V : Type ℓ} → (V → Bool) → Option V → Option V
keep_if p none = none
keep_if p (some v) = if p v then some v else none

abbrev pub discard_if {ℓ} : {V : Type ℓ} → (V → Bool) → Option V → Option V
discard_if p none = none
discard_if p (some v) = if p v then none else some v

module _ {ℓ} {K V : Type ℓ} ⦃e : Eq K⦄ where
  -- m[k]
  unfoldable pub get : K → Map K V → Option V
  get k [] = none
  get k ((j, v) ∷ m) = if j == k then some v else get k m

  -- delete(m, k)
  unfoldable pub delete : K → Map K V → Map K V
  delete k [] = []
  delete k ((j, v) ∷ m) = let rest = delete k m in if j == k then rest else (j, v) ∷ rest

  -- m[k] = v
  unfoldable pub insert : K → V → Map K V → Map K V
  unfolding delete
  insert k v m = (k, v) ∷ delete k m

  -- for k, v := range m { if p(v) { delete(m, k) } }
  unfoldable pub drop_if : (V → Bool) → Map K V → Map K V
  unfolding delete
  drop_if p [] = []
  drop_if p ((j, v) ∷ m) =
      let rest = drop_if p m in if p v then delete j rest else (j, v) ∷ delete j rest

  -- for k, v := range m { if p(k, v) { out = append(out, (k, v)) } }
  unfoldable pub select : (K → V → Bool) → Map K V → Map K V
  unfolding delete
  select p [] = []
  select p ((j, v) ∷ m) = let rest = delete j (select p m) in if p j v then (j, v) ∷ rest else rest

  pub get-delete : (k j : K) (m : Map K V) → get j (delete k m) ≡ (if k == j then none else get j m)
  unfolding get delete
  get-delete k j [] = ground arith
  get-delete k j ((i, v) ∷ m) =
      ground (arith, get-delete k j m, e.beq_iff i k, e.beq_iff i j, e.beq_iff k j)

  pub get-insert :
      (k j : K) (v : V) (m : Map K V) → get j (insert k v m) ≡ (if k == j then some v else get j m)
  unfolding get insert
  get-insert k j v m = ground (arith, get-delete k j m)

  pub get-drop_if :
      (p : V → Bool) (j : K) (m : Map K V) → get j (drop_if p m) ≡ discard_if p (get j m)
  unfolding get drop_if
  get-drop_if p j [] = refl
  get-drop_if p j ((i, v) ∷ m) =
      ground (arith, get-drop_if p j m, get-delete i j (drop_if p m), e.beq_iff i j)

  pub get-select :
      (p : K → V → Bool) (j : K) (m : Map K V) → get j (select p m) ≡ keep_if (p j) (get j m)
  unfolding get select
  get-select p j [] = refl
  get-select p j ((i, v) ∷ m) =
      ground (arith, get-select p j m, get-delete i j (select p m), e.beq_iff i j)

  -- Each key stands once in the list.
  abbrev pub Distinct : Map K V → Type ℓ
  Distinct [] = Unit
  Distinct ((k, v) ∷ m) = (get k m ≡ none) × Distinct m

  pub delete-Distinct : (k : K) (m : Map K V) → Distinct m → Distinct (delete k m)
  unfolding delete
  delete-Distinct k [] h = tt
  delete-Distinct k ((j, v) ∷ m) h = elim (Bool-cases (j == k)) [
    | inl gone ↦ rw gone (delete-Distinct k m h.1)
    | inr kept ↦ rw kept (ground (arith, get-delete k j m, h.0), delete-Distinct k m h.1)
  ]

  pub select-Distinct : (p : K → V → Bool) (m : Map K V) → Distinct (select p m)
  unfolding select
  select-Distinct p [] = tt
  select-Distinct p ((j, v) ∷ m) =
      let rest = delete-Distinct j (select p m) (select-Distinct p m) in
      elim (Bool-cases (p j v)) [
        | inl chosen ↦ rw chosen (ground (arith, get-delete j j (select p m), beq_refl j), rest)
        | inr other ↦ rw other rest
      ]
