-- ===== src/Restart/Sorted.antt =====
-- The locations that `restart_task` of tierkreis/src/state/interface.rs returns, sorted by their
-- texts.
use tierkreis.Base.{
  ◌≡◌, refl, Bool, true, false, not, ◌&&◌, ◌||◌, List, [], ◌∷◌, arith, contains, any,
}
use tierkreis.Location.{Location, location_eq, component_eq}
use tierkreis.Location.Text.{Text, show}
use tierkreis.Restart.{text_before, insert_sorted, sort_locations}

contains-insert_sorted :
    (loc a : Location) (locs : List Location)
    → contains (insert_sorted loc locs) a ≡ contains (loc ∷ locs) a
unfolding insert_sorted
contains-insert_sorted loc a [] = refl
contains-insert_sorted loc a (l ∷ locs) = ground (arith, contains-insert_sorted loc a locs)

-- sorting keeps the elements
pub contains-sort_locations :
    (a : Location) (locs : List Location) → contains (sort_locations locs) a ≡ contains locs a
unfolding sort_locations
contains-sort_locations a [] = refl
contains-sort_locations a (loc ∷ locs) =
    ground
      (arith, contains-insert_sorted loc a (sort_locations locs), contains-sort_locations a locs)

text_before_asym : (a b : Text) → text_before a b ≡ true → text_before b a ≡ false
text_before_asym [] [] h = ground (arith, h)
text_before_asym [] (b ∷ bs) h = refl
text_before_asym (a ∷ as') [] h = ground (arith, h)
text_before_asym (a ∷ as') (b ∷ bs) h = ground (arith, text_before_asym as' bs)

-- no text comes before the one in front of it
abbrev pub in_order : List Location → Bool
in_order [] = true
in_order (l ∷ []) = true
in_order (l ∷ m ∷ locs) = not (text_before (show m) (show l)) && in_order (m ∷ locs)

in_order-insert_sorted :
    (loc : Location) (locs : List Location)
    → in_order locs ≡ true
    → in_order (insert_sorted loc locs) ≡ true
unfolding insert_sorted
in_order-insert_sorted loc [] h = refl
in_order-insert_sorted loc (l ∷ []) h = ground (arith, text_before_asym (show l) (show loc))
in_order-insert_sorted loc (l ∷ m ∷ locs) h =
    ground (arith, text_before_asym (show l) (show loc), in_order-insert_sorted loc (m ∷ locs))

pub in_order-sort_locations : (locs : List Location) → in_order (sort_locations locs) ≡ true
unfolding sort_locations
in_order-sort_locations [] = refl
in_order-sort_locations (loc ∷ locs) =
    in_order-insert_sorted loc (sort_locations locs) (in_order-sort_locations locs)

any-insert_sorted :
    (p : Location → Bool) (loc : Location) (locs : List Location)
    → any p (insert_sorted loc locs) ≡ (p loc || any p locs)
unfolding insert_sorted
any-insert_sorted p loc [] = refl
any-insert_sorted p loc (l ∷ locs) = ground (arith, any-insert_sorted p loc locs)

-- sorting does not change whether some location passes a test
pub any-sort_locations :
    (p : Location → Bool) (locs : List Location) → any p (sort_locations locs) ≡ any p locs
unfolding sort_locations
any-sort_locations p [] = refl
any-sort_locations p (loc ∷ locs) =
    ground (arith, any-insert_sorted p loc (sort_locations locs), any-sort_locations p locs)
