-- ===== src/Location.antt =====
-- tierkreis/src/location.rs: the path of a node in a higher order graph. `LocationComponent` is
-- `Component`, and a `Location` is the list of its components, outermost first. A `NodeIndex` is
-- the number that its `index()` returns.
pub mod Text
pub mod Order
mod Tests
use tierkreis.Base.{
  ℕ, ◌<◌, ◌^◌, ◌≡◌, ◌↔◌, refl, Bool, true, false, ◌&&◌, Option, none, some, List, [], ◌∷◌, ◌++◌,
  map, arith, ltb, nat_beq, nat_beq_iff, if◌then◌else◌, Eq, ◌==◌, list_eq, length, last, drop_last,
  Outcome, ok, panic,
}

pub data Component : Type 0 where
  node : ℕ → Component
  loop_index : ℕ → Component
  map_index : ℕ → Component

abbrev pub Location : Type 0
Location = List Component

abbrev pub component_beq : Component → Component → Bool
component_beq (node i) (node j) = nat_beq i j
component_beq (loop_index i) (loop_index j) = nat_beq i j
component_beq (map_index i) (map_index j) = nat_beq i j
component_beq (node i) (loop_index j) = false
component_beq (node i) (map_index j) = false
component_beq (loop_index i) (node j) = false
component_beq (loop_index i) (map_index j) = false
component_beq (map_index i) (node j) = false
component_beq (map_index i) (loop_index j) = false

pub component_beq_iff : (a b : Component) → (component_beq a b ≡ true) ↔ (a ≡ b)
component_beq_iff (node i) (node j) = ground (arith, nat_beq_iff i j)
component_beq_iff (loop_index i) (loop_index j) = ground (arith, nat_beq_iff i j)
component_beq_iff (map_index i) (map_index j) = ground (arith, nat_beq_iff i j)
component_beq_iff (node i) (loop_index j) = ground arith
component_beq_iff (node i) (map_index j) = ground arith
component_beq_iff (loop_index i) (node j) = ground arith
component_beq_iff (loop_index i) (map_index j) = ground arith
component_beq_iff (map_index i) (node j) = ground arith
component_beq_iff (map_index i) (loop_index j) = ground arith

instance abbrev pub component_eq : Eq Component
component_eq = record { beq = component_beq; beq_iff = component_beq_iff }

instance abbrev pub location_eq : Eq Location
location_eq = list_eq

abbrev pub u32_size : ℕ
u32_size = 2 ^ 32

abbrev pub root : Location
root = []

abbrev pub is_root : Location → Bool
is_root [] = true
is_root (_ ∷ _) = false

-- the `all` over the two paths, zipped
abbrev pub zip_agree : Location → Location → Bool
zip_agree [] ys = true
zip_agree (x ∷ xs) [] = true
zip_agree (x ∷ xs) (y ∷ ys) = x == y && zip_agree xs ys

pub is_ancestor : Location → Location → Bool
is_ancestor self potential_descendent =
    ltb (length self) (length potential_descendent) && zip_agree potential_descendent self

pub is_loop : Location → Bool
is_loop self = elim (last self) [ some (loop_index _) ↦ true | _ ↦ false ]

unfoldable pub from_node_index_iter : List ℕ → Location
from_node_index_iter = map node

-- the nodes of `from_usize_iter` are checked by `NodeIndex::new`, which may panic
pub from_usize_iter : (ℕ → Outcome ℕ) → List ℕ → Outcome Location
from_usize_iter node_index_new [] = ok []
from_usize_iter node_index_new (n ∷ ns) = elim (node_index_new n) [
  | ok i ↦ elim (from_usize_iter node_index_new ns) [
    | ok steps ↦ ok (node i ∷ steps)
    | other ↦ other
  ]
  | Outcome.err e ↦ Outcome.err e
  | panic ↦ panic
]

abbrev pub with_node : Location → ℕ → Location
with_node self n = self ++ node n ∷ []

abbrev pub with_loop_index : Location → ℕ → Location
with_loop_index self index = self ++ loop_index index ∷ []

-- `u32::try_from(index).expect(..)`
unfoldable pub with_map_index : Location → ℕ → Outcome Location
with_map_index self index = if ltb index u32_size then ok (self ++ map_index index ∷ []) else panic

pub parent : Location → Location
parent self = drop_last self

pub split_last : Location → Option (Location × Component)
split_last self = elim (last self) [ none ↦ none | some c ↦ some (drop_last self, c) ]

-- the `scan` yields the prefix before each component
abbrev scan_prefixes : Location → Location → List Location
scan_prefixes prefix [] = []
scan_prefixes prefix (c ∷ rest) = prefix ∷ scan_prefixes (prefix ++ c ∷ []) rest

unfoldable pub node_ancestors : Location → List Location
node_ancestors self = scan_prefixes root self

pub loop_index_of : Location → Option ℕ
loop_index_of self = elim (last self) [ some (loop_index index) ↦ some index | _ ↦ none ]
