-- ===== src/Orchestrator/Build/Placed.antt =====
-- Where an action is, and which element of a map it completes, for the actions that `build_actions`
-- of tierkreis/src/orchestrator.rs yields.
use tierkreis.Base.{
  ℕ, ◌≡◌, refl, Bool, true, false, ◌&&◌, List, [], ◌∷◌, ◌++◌, Outcome, ok, err, panic, ◌==◌, arith,
  all, ltb,
}
use tierkreis.Location.{
  node, loop_index, map_index, Location, with_node, with_loop_index, component_eq,
  component_beq_iff,
}
use tierkreis.Orchestrator.Plan.{Action, ActionKind, set_map_elem_complete}

-- whether a location is the parent, or below it
abbrev pub is_within : Location → Location → Bool
is_within [] loc = true
is_within (c ∷ parent) [] = false
is_within (c ∷ parent) (d ∷ loc) = c == d && is_within parent loc

pub is_within-append : (parent rest : Location) → is_within parent (parent ++ rest) ≡ true
is_within-append [] rest = refl
is_within-append (c ∷ parent) rest =
    ground (arith, component_beq_iff c c, is_within-append parent rest)

pub is_within_refl : (parent : Location) → is_within parent parent ≡ true
is_within_refl [] = refl
is_within_refl (c ∷ parent) = ground (arith, component_beq_iff c c, is_within_refl parent)

is_within_trans :
    (p q r : Location) → is_within p q ≡ true → is_within q r ≡ true → is_within p r ≡ true
is_within_trans [] q r h k = refl
is_within_trans (c ∷ p) [] r h k = ground arith
is_within_trans (c ∷ p) (d ∷ q) [] h k = ground arith
is_within_trans (c ∷ p) (d ∷ q) (e ∷ r) h k = ground (
  arith,
  component_beq_iff c d,
  component_beq_iff d e,
  component_beq_iff c e,
  is_within_trans p q r,
)

pub is_within-loop :
    (p : Location) (n i : ℕ) → is_within p (with_loop_index (with_node p n) i) ≡ true
is_within-loop p n i =
    is_within_trans p (with_node p n) _ (is_within-append p (node n ∷ []))
      (is_within-append (with_node p n) (loop_index i ∷ []))

pub is_within-map :
    (p : Location) (n i : ℕ) → is_within p (with_node p n ++ map_index i ∷ []) ≡ true
is_within-map p n i =
    is_within_trans p (with_node p n) _ (is_within-append p (node n ∷ []))
      (is_within-append (with_node p n) (map_index i ∷ []))

pub all-append {ℓ} :
    {A : Type ℓ} (p : A → Bool) (xs ys : List A)
    → all p xs ≡ true
    → all p ys ≡ true
    → all p (xs ++ ys) ≡ true
all-append p [] ys h k = k
all-append p (x ∷ xs) ys h k = ground (arith, all-append p xs ys)

all_implied {ℓ} :
    {A : Type ℓ} (p q : A → Bool) (xs : List A)
    → ((x : A) → p x ≡ true → q x ≡ true)
    → all p xs ≡ true
    → all q xs ≡ true
all_implied p q [] h k = refl
all_implied p q (x ∷ xs) h k = ground (arith, h x, all_implied p q xs h)

-- an element that is completed is one of the map's
abbrev pub in_range : {J : Type 0} → ActionKind J → Bool
in_range (set_map_elem_complete size index) = ltb index size
in_range _ = true

abbrev pub placed : {J : Type 0} → Location → Action J → Bool
placed parent a = is_within parent a.loc && in_range a.kind

-- a test of all actions that are built
abbrev pub all_built : {J S : Type 0} → (Action J → Bool) → Outcome (List (Action J) × S) → Bool
all_built p (ok (actions, s)) = all p actions
all_built p (err e) = true
all_built p panic = true

pub all_built_implied :
    {J S : Type 0} (p q : Action J → Bool) (o : Outcome (List (Action J) × S))
    → ((a : Action J) → p a ≡ true → q a ≡ true)
    → all_built p o ≡ true
    → all_built q o ≡ true
all_built_implied p q (ok (actions, s)) h k = all_implied p q actions h k
all_built_implied p q (err e) h k = refl
all_built_implied p q panic h k = refl

abbrev pub all_placed : {J S : Type 0} → Location → Outcome (List (Action J) × S) → Bool
all_placed parent o = all_built (placed parent) o

-- what is below a location is below each location that it is below
pub all_placed_weaken :
    {J S : Type 0} (p q : Location) (o : Outcome (List (Action J) × S))
    → is_within p q ≡ true
    → all_placed q o ≡ true
    → all_placed p o ≡ true
all_placed_weaken p q o h k =
    all_built_implied (placed q) (placed p) o
      (λ a pl. ground (arith, pl, is_within_trans p q a.loc h)) k
