-- ===== src/Executor/Hpc/Handles.antt =====
-- The job handles that the loop of tierkreis/src/executor/hpc.rs keeps: one for a key, and a watched
-- task by its own key.
use tierkreis.Base.{
  ℕ, ◌≡◌, refl, true, ◌==◌, Option, none, some, [], ◌∷◌, arith, nat_eq, string_eq, pair_eq,
  pair_beq_iff, ◌↔◌, Bool-cases, inl, inr,
}
use tierkreis.Base.Map.{get, insert, remove, get-insert, get-remove}
use tierkreis.Location.{location_eq}
use tierkreis.Executor.Keys.{TaskKey}
use tierkreis.Executor.Hpc.{
  key_of, watching, TaskRegistration, cancel_before_registration, JobHandles,
}

abbrev pub Fits : TaskKey → TaskRegistration → Type 0
Fits key (watching job_id task status) = key_of task ≡ key
Fits key cancel_before_registration = Unit

-- a key has one handle, and a watched task is kept by its own key
abbrev pub IsSound : JobHandles → Type 0
IsSound [] = Unit
IsSound ((key, registration) ∷ handles) =
    (get handles key ≡ none) × Fits key registration × IsSound handles

pub key_iff : (a b : TaskKey) → ((a == b) ≡ true) ↔ (a ≡ b)
key_iff a b = pair_beq_iff (pair_eq {A = ℕ} {B = ℕ}) location_eq a b

pub insert-IsSound :
    (handles : JobHandles) (key : TaskKey) (registration : TaskRegistration)
    → Fits key registration
    → IsSound handles
    → IsSound (insert handles key registration)
unfolding insert get
insert-IsSound [] key registration f h = (refl, f, tt)
insert-IsSound ((j, r) ∷ handles) key registration f h = elim (Bool-cases (j == key)) [
  | inl e ↦ rw e ((rw (← (key_iff j key).0 e) (h.0), f, h.2))
  | inr e ↦ rw e (
      (
        rw (get-insert handles key j registration)
            (ground (arith, key_iff j key, key_iff key j, h.0)),
        h.1,
        insert-IsSound handles key registration f h.2,
      ))
]

pub remove-IsSound :
    (handles : JobHandles) (key : TaskKey) → IsSound handles → IsSound (remove handles key)
unfolding remove get
remove-IsSound [] key h = tt
remove-IsSound ((j, r) ∷ handles) key h = elim (Bool-cases (j == key)) [
  | inl e ↦ rw e (remove-IsSound handles key h.2)
  | inr e ↦
      rw e
        ((rw (get-remove handles key j) (ground (arith, h.0)), h.1, remove-IsSound handles key h.2))
]

abbrev pub FitsFound : TaskKey → Option TaskRegistration → Type 0
FitsFound key none = Unit
FitsFound key (some registration) = Fits key registration

pub get-FitsFound :
    (handles : JobHandles) (key : TaskKey) → IsSound handles → FitsFound key (get handles key)
unfolding get
get-FitsFound [] key h = tt
get-FitsFound ((j, r) ∷ handles) key h = elim (Bool-cases (j == key)) [
  | inl e ↦ rw e (rw ((key_iff j key).0 e) at (h.1))
  | inr e ↦ rw e (get-FitsFound handles key h.2)
]
