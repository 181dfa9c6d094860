-- ===== src/Bits.antt =====
-- `bitvec::BitVec`, which is not part of the repository: its operations are a parameter over the
-- sequence of bits that a `BitVec` is, and what the code relies on is stated as laws.
pub mod Plain
use tierkreis.Base.{
  ℕ, zero, suc, ◌≤◌, ◌<◌, ◌≡◌, ◌↔◌, refl, ap, Bool, true, false, not, ◌&&◌, ◌||◌, List, [], ◌∷◌,
  ◌++◌, arith, if◌then◌else◌, length, get_or, set, replicate, length-replicate, all, Outcome, ok,
  panic, ltb,
}

abbrev pub BitVec : Type 0
BitVec = List Bool

-- bit `i`, `false` outside
abbrev pub bit : BitVec → ℕ → Bool
bit b i = get_or b i false

pub bit_outside : (b : BitVec) (i : ℕ) → length b ≤ i → bit b i ≡ false
bit_outside [] i h = refl
bit_outside (x ∷ b) zero h = absurd (omega arith)
bit_outside (x ∷ b) (suc i) h = bit_outside b i (omega arith)

pub record BitOps : Type 0 where
  pub repeat : Bool → ℕ → BitVec
  -- `set(i, true)`, which panics out of range
  pub set_bit : BitVec → ℕ → Outcome BitVec
  pub all_set : BitVec → Bool
  pub resize : BitVec → ℕ → BitVec
  pub bitor_assign : BitVec → BitVec → BitVec
  pub bitxor_assign : BitVec → BitVec → BitVec

pub record BitLaws (o : BitOps) : Type 0 where
  pub length-repeat : (b : Bool) (n : ℕ) → length (o.repeat b n) ≡ n
  pub bit-repeat_false : (n i : ℕ) → bit (o.repeat false n) i ≡ false
  pub set_bit_lem :
      (b : BitVec) (i : ℕ)
      → i < length b
      → (b' : BitVec) × (o.set_bit b i ≡ ok b')
        × (length b' ≡ length b)
        × (bit b' i ≡ true)
        × ((j : ℕ) → ¬ (i ≡ j) → bit b' j ≡ bit b j)
  pub set_bit_panics : (b : BitVec) (i : ℕ) → length b ≤ i → o.set_bit b i ≡ panic
  pub all_set_iff : (b : BitVec) → (o.all_set b ≡ true) ↔ ((i : ℕ) → i < length b → bit b i ≡ true)
  pub length-resize : (b : BitVec) (n : ℕ) → length (o.resize b n) ≡ n
  pub bit-resize : (b : BitVec) (n i : ℕ) → length b ≤ n → bit (o.resize b n) i ≡ bit b i
  -- the receiver keeps its length
  pub length-bitor : (a b : BitVec) → length (o.bitor_assign a b) ≡ length a
  pub bit-bitor :
      (a b : BitVec) (i : ℕ) → i < length a → bit (o.bitor_assign a b) i ≡ (bit a i || bit b i)
  pub length-bitxor : (a b : BitVec) → length (o.bitxor_assign a b) ≡ length a
  pub bit-bitxor :
      (a b : BitVec) (i : ℕ)
      → i < length a
      → bit (o.bitxor_assign a b) i ≡ (if bit b i then not (bit a i) else bit a i)
