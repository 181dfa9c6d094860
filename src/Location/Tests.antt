-- ===== src/Location/Tests.antt =====
-- Examples of the theorems on locations (tierkreis/src/location.rs).
use tierkreis.Base.{ℕ, ◌≡◌, [], ◌∷◌, ◌^◌, arith, ltb, if◌then◌else◌, Outcome, ok, panic, list_eq}
use tierkreis.Location.{Location, node, loop_index, map_index, component_eq, location_eq}
use tierkreis.Location.Text.{show, new}
use tierkreis.Location.Text.RoundTrip.{AcceptsBelow, new-show}

abbrev inner : Location
inner = node 3 ∷ loop_index 0 ∷ node 7 ∷ map_index 12 ∷ []

-- an index is stored in 32 bits, one of them kept back
abbrev node_index_new : ℕ → Outcome ℕ
node_index_new i = if ltb i (2 ^ 31) then ok i else panic

node_index_new-AcceptsBelow : AcceptsBelow node_index_new (2 ^ 31)
node_index_new-AcceptsBelow i h = ground arith

new-show_example : new node_index_new (show inner) ≡ ok inner
new-show_example =
    new-show node_index_new (2 ^ 31) inner node_index_new-AcceptsBelow
      ((omega arith, omega arith), (omega arith, ((omega arith, omega arith), (omega arith, tt))))
