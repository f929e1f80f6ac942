-- ===== src/Parsers/Switch.antt =====
-- internal/source/sonarr.go and radarr.go: the switch on the type of a delivery.
use tracearr.Prelude.{
  ◌≡◌, refl, false, String, List, [], ◌∷◌, map, Option, ◌==◌, string_eq, if◌then◌else◌, Bool-cases,
  arith, inl, inr, subst, sym, not, is_some, some, none,
}
use tracearr.Prelude.Lists.{All, is_empty}
use tracearr.Event.{Event, Phase, grabbed, imported, manual_needed}
use tracearr.Parsers.Sonarr.{Episode}

-- The stage that a type of delivery stands for; other types, "Test" among them, stand for none.
abbrev pub arr_phase : String → Option Phase
arr_phase t =
    if t == "Grab"
    then some grabbed
    else if t == "Download"
    then some imported
    else if t == "ManualInteractionRequired"
    then some manual_needed
    else none

All-map :
    {A B : Type 0} (P : B → Type 0) (f : A → B)
    → ((a : A) → P (f a))
    → (xs : List A) → All P (map f xs)
All-map P f each [] = tt
All-map P f each (x ∷ xs) = (each x, All-map P f each xs)

-- The events of a payload: one for a film, or one for each episode.
pub All-episodes :
    (P : Event → Type 0) (film : Event) (of_episode : Episode → Event)
    → P film
    → ((ep : Episode) → P (of_episode ep))
    → (eps : List Episode)
    → All P (elim eps [ [] ↦ film ∷ [] | ep ∷ rest ↦ map of_episode (ep ∷ rest) ])
All-episodes P film of_episode h each [] = (h, tt)
All-episodes P film of_episode h each (ep ∷ rest) = All-map P of_episode each (ep ∷ rest)

-- One of four lists, by the event type, has only such events where each of the lists has.
pub All-switch :
    (P : Event → Type 0) (t : String) (grabs imports manual : List Event)
    → (arr_phase t ≡ some grabbed → All P grabs)
    → (arr_phase t ≡ some imported → All P imports)
    → (arr_phase t ≡ some manual_needed → All P manual)
    → All P (
        if t == "Test"
        then []
        else if t == "Grab"
        then grabs
        else if t == "Download"
        then imports
        else if t == "ManualInteractionRequired"
        then manual
        else [])
All-switch P t grabs imports manual hg hi hm = elim (Bool-cases (t == "Test")) [
  | inl test ↦ rw test tt
  | inr real ↦ rw real (elim (Bool-cases (t == "Grab")) [
    | inl is_grab ↦ rw is_grab (hg (rw is_grab refl))
    | inr no_grab ↦ rw no_grab (elim (Bool-cases (t == "Download")) [
      | inl is_import ↦ rw is_import (hi (rw (no_grab, is_import) refl))
      | inr no_import ↦ rw no_import (elim (Bool-cases (t == "ManualInteractionRequired")) [
        | inl is_manual ↦ rw is_manual (hm (rw (no_grab, no_import, is_manual) refl))
        | inr other ↦ rw other tt
      ])
    ])
  ])
]

-- It is empty exactly if the type stands for no stage, where none of the lists is.
pub is_empty-switch :
    (t : String) (grabs imports manual : List Event)
    → is_empty grabs ≡ false
    → is_empty imports ≡ false
    → is_empty manual ≡ false
    → is_empty (
        if t == "Test"
        then []
        else if t == "Grab"
        then grabs
        else if t == "Download"
        then imports
        else if t == "ManualInteractionRequired"
        then manual
        else [])
      ≡ not (is_some (arr_phase t))
is_empty-switch t grabs imports manual hg hi hm = elim (Bool-cases (t == "Test")) [
  | inl test ↦
      subst
        (λ (t : String).
          is_empty (
            if t == "Test"
            then []
            else if t == "Grab"
            then grabs
            else if t == "Download"
            then imports
            else if t == "ManualInteractionRequired"
            then manual
            else [])
          ≡ not (is_some (arr_phase t)))
        (sym ((string_eq.beq_iff t "Test").0 test)) refl
  | inr real ↦ ground (arith, real, hg, hi, hm)
]

pub is_empty-episodes :
    (film : Event) (of_episode : Episode → Event) (eps : List Episode)
    → is_empty (elim eps [ [] ↦ film ∷ [] | ep ∷ rest ↦ map of_episode (ep ∷ rest) ]) ≡ false
is_empty-episodes film of_episode [] = refl
is_empty-episodes film of_episode (ep ∷ rest) = refl
