-- ===== src/Copy/Elements.antt =====
-- The completed elements of a map node in a new attempt: `copy_node_states_from` of
-- tierkreis/src/state/inmemory.rs.
use native.Mathlib.Decide.{dec_lt}
use tierkreis.Base.{ℕ, ◌<◌, ◌≡◌, true, false, not, ◌&&◌, ◌||◌, some, arith, length}
use tierkreis.Base.Map.{get}
use tierkreis.Bits.{BitVec, BitOps, BitLaws, bit, bit_outside}
use tierkreis.Location.{Location, location_eq}
use tierkreis.State.{NodeState}
use tierkreis.Copy.{NodeCopyFilter, copy_state}

module _ (bits : BitOps) (laws : BitLaws bits) (filter : NodeCopyFilter) (loc : Location)
    (state : NodeState) where
  map_completed-copy_state :
      (m mask : BitVec)
      → state.map_completed ≡ some m
      → get filter.reset_map_elems loc ≡ some mask
      → (copy_state bits filter loc state).map_completed ≡ some (bits.bitxor_assign m mask)
  unfolding copy_state
  map_completed-copy_state m mask has resets = ground arith

  -- Where all elements to reset were complete, the new attempt has as many elements, of which
  -- exactly the complete ones that are not to be reset are complete.
  pub copy_state_clears :
      (m mask : BitVec) (i : ℕ)
      → state.map_completed ≡ some m
      → get filter.reset_map_elems loc ≡ some mask
      → ((j : ℕ) → (not (bit mask j) || bit m j) ≡ true)
      → (m' : BitVec) × ((copy_state bits filter loc state).map_completed ≡ some m')
        × (length m' ≡ length m)
        × (bit m' i ≡ (bit m i && not (bit mask i)))
  copy_state_clears m mask i has resets within = (
    bits.bitxor_assign m mask,
    map_completed-copy_state m mask has resets,
    laws.length-bitxor m mask,
    elim (dec_lt i (length m)) [
      | yes l ↦ ground (arith, laws.bit-bitxor m mask i l, within i)
      | no g ↦ ground (
        arith,
        bit_outside m i,
        bit_outside (bits.bitxor_assign m mask) i,
        laws.length-bitxor m mask,
      )
    ],
  )

  -- An element that is to be reset, and that was not complete, is complete in the new attempt.
  pub copy_state_completes :
      (m mask : BitVec) (i : ℕ)
      → state.map_completed ≡ some m
      → get filter.reset_map_elems loc ≡ some mask
      → i < length m
      → bit mask i ≡ true
      → bit m i ≡ false
      → (m' : BitVec) × ((copy_state bits filter loc state).map_completed ≡ some m')
        × (bit m' i ≡ true)
  copy_state_completes m mask i has resets l reset open_ = (
    bits.bitxor_assign m mask,
    map_completed-copy_state m mask has resets,
    ground (arith, laws.bit-bitxor m mask i l),
  )
