-- ===== src/Copy/Merge.antt =====
-- Merging two filters (`NodeCopyFilter::merge`): what the result clears and resets.
use native.Mathlib.Decide.{dec_lt}
use tierkreis.Base.{
  ℕ, ◌≤◌, ◌≡◌, Bool, false, ◌||◌, Option, none, some, List, [], ◌∷◌, ◌==◌, arith, if◌then◌else◌,
  ltb, add, contains, contains-add, length, Bool-cases, inl, inr, list_beq_iff, Option-cases,
}
use tierkreis.Base.Map.{Map, get, get-insert, Unique}
use tierkreis.Bits.{BitVec, BitOps, BitLaws, bit, bit_outside}
use tierkreis.Location.{Location, location_eq, component_eq}
use tierkreis.Copy.{
  NodeCopyFilter, union, lower_index, merge_indices, join_bits, add_elems, merge_elems, merge,
}

pub contains-union :
    (xs ys : List Location) (loc : Location)
    → contains (union xs ys) loc ≡ (contains xs loc || contains ys loc)
unfolding union
contains-union xs [] loc = ground arith
contains-union xs (y ∷ ys) loc =
    ground (arith, contains-union (add y xs) ys loc, contains-add y loc xs)

-- the smaller of two indices
abbrev pub lower : Option ℕ → Option ℕ → Option ℕ
lower none b = b
lower (some x) none = some x
lower (some x) (some y) = some (if ltb y x then y else x)

get-lower_index :
    (m : Map Location ℕ) (l : Location) (index : ℕ) (loc : Location)
    → get (lower_index m l index) loc
      ≡ (if l == loc then lower (get m loc) (some index) else get m loc)
unfolding lower_index
get-lower_index m l index loc = elim (Option-cases (get m l)) [
  | inl e ↦
      rw (e, lower_index)
        (ground (arith, get-insert m l loc index, list_beq_iff component_eq l loc))
  | inr (x, e) ↦
      rw (e, lower_index)
        (ground (
          arith,
          get-insert m l loc (if ltb index x then index else x),
          list_beq_iff component_eq l loc,
        ))
]

get-merge_indices :
    (m n : Map Location ℕ) (loc : Location)
    → Unique n
    → get (merge_indices m n) loc ≡ lower (get m loc) (get n loc)
unfolding merge_indices get
get-merge_indices m [] loc u = ground arith
get-merge_indices m ((l, index) ∷ n) loc u = ground (
  arith,
  get-merge_indices (lower_index m l index) n loc u.1,
  get-lower_index m l index loc,
  list_beq_iff component_eq l loc,
  u.0,
)

-- element `i` of an entry that may be missing
abbrev pub elem : Option BitVec → ℕ → Bool
elem none i = false
elem (some b) i = bit b i

module _ (bits : BitOps) (laws : BitLaws bits) where
  bit-bitor_any :
      (a b : BitVec) (i : ℕ)
      → length b ≤ length a
      → bit (bits.bitor_assign a b) i ≡ (bit a i || bit b i)
  bit-bitor_any a b i fits = elim (dec_lt i (length a)) [
    | yes l ↦ laws.bit-bitor a b i l
    | no g ↦ ground (
      arith,
      bit_outside a i,
      bit_outside b i,
      bit_outside (bits.bitor_assign a b) i,
      laws.length-bitor a b,
    )
  ]

  bit-join_bits : (a b : BitVec) (i : ℕ) → bit (join_bits bits a b) i ≡ (bit a i || bit b i)
  unfolding join_bits
  bit-join_bits a b i = elim (Bool-cases (ltb (length a) (length b))) [
    | inl l ↦
        rw (l, join_bits)
          (ground (
            arith,
            bit-bitor_any (bits.resize a (length b)) b i,
            laws.length-resize a (length b),
            laws.bit-resize a (length b) i,
          ))
    | inr g ↦ rw (g, join_bits) (bit-bitor_any a b i (ground arith))
  ]

  elem-add_elems :
      (m : Map Location BitVec) (l : Location) (b : BitVec) (loc : Location) (i : ℕ)
      → elem (get (add_elems bits m l b) loc) i
        ≡ (if l == loc then (elem (get m loc) i || bit b i) else elem (get m loc) i)
  unfolding add_elems
  elem-add_elems m l b loc i = elim (Option-cases (get m l)) [
    | inl e ↦
        rw (e, add_elems) (ground (arith, get-insert m l loc b, list_beq_iff component_eq l loc))
    | inr (x, e) ↦
        rw (e, add_elems)
          (ground (
            arith,
            get-insert m l loc (join_bits bits x b),
            list_beq_iff component_eq l loc,
            bit-join_bits x b i,
          ))
  ]

  elem-merge_elems :
      (m n : Map Location BitVec) (loc : Location) (i : ℕ)
      → Unique n
      → elem (get (merge_elems bits m n) loc) i ≡ (elem (get m loc) i || elem (get n loc) i)
  unfolding merge_elems get
  elem-merge_elems m [] loc i u = ground arith
  elem-merge_elems m ((l, b) ∷ n) loc i u = ground (
    arith,
    elem-merge_elems (add_elems bits m l b) n loc i u.1,
    elem-add_elems m l b loc i,
    list_beq_iff component_eq l loc,
    u.0,
  )

  -- The merged filter clears and truncates what either does, resets a loop to the smaller of the two
  -- indices, and resets the map elements that either resets. The two maps of the second filter have
  -- one entry for a key, as maps do.
  pub merge_lem :
      (f g : NodeCopyFilter) (loc : Location) (i : ℕ)
      → Unique g.reset_loop_index
      → Unique g.reset_map_elems
      → (contains (merge bits f g).clear_roots loc
          ≡ (contains f.clear_roots loc || contains g.clear_roots loc))
        × (contains (merge bits f g).truncate_exact loc
            ≡ (contains f.truncate_exact loc || contains g.truncate_exact loc))
        × (get (merge bits f g).reset_loop_index loc
            ≡ lower (get f.reset_loop_index loc) (get g.reset_loop_index loc))
        × (elem (get (merge bits f g).reset_map_elems loc) i
            ≡ (elem (get f.reset_map_elems loc) i || elem (get g.reset_map_elems loc) i))
  unfolding merge
  merge_lem f g loc i u v = (
    contains-union f.clear_roots g.clear_roots loc,
    contains-union f.truncate_exact g.truncate_exact loc,
    get-merge_indices f.reset_loop_index g.reset_loop_index loc u,
    elem-merge_elems f.reset_map_elems g.reset_map_elems loc i v,
  )
