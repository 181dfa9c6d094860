-- ===== src/Bits/Plain.antt =====
-- The bit vector operations on plain lists, which fill the laws of `BitOps`: for the examples.
use tierkreis.Base.{
  ℕ, zero, suc, ◌≤◌, ◌<◌, ◌≡◌, refl, ap, sym, Bool, true, false, not, ◌&&◌, ◌||◌, [], ◌∷◌, arith,
  if◌then◌else◌, length, set, replicate, length-replicate, ok, panic, ltb,
}
use tierkreis.Bits.{BitVec, bit, BitOps, BitLaws}

abbrev zip_bits : (Bool → Bool → Bool) → BitVec → BitVec → BitVec
zip_bits f [] bs = []
zip_bits f (a ∷ rest) [] = a ∷ rest
zip_bits f (a ∷ rest) (b ∷ bs) = f a b ∷ zip_bits f rest bs

abbrev xor : Bool → Bool → Bool
xor a b = if b then not a else a

abbrev all_bits : BitVec → Bool
all_bits [] = true
all_bits (b ∷ bs) = b && all_bits bs

abbrev resized : BitVec → ℕ → BitVec
resized b zero = []
resized [] (suc n) = false ∷ resized [] n
resized (x ∷ b) (suc n) = x ∷ resized b n

abbrev pub plain_ops : BitOps
plain_ops = record {
  repeat = λ b n. replicate n b;
  set_bit = λ b i. if ltb i (length b) then ok (set b i true) else panic;
  all_set = all_bits;
  resize = resized;
  bitor_assign = zip_bits ◌||◌;
  bitxor_assign = zip_bits xor;
}

bit-replicate : (n i : ℕ) → bit (replicate n false) i ≡ false
bit-replicate zero i = refl
bit-replicate (suc n) zero = refl
bit-replicate (suc n) (suc i) = bit-replicate n i

length-set : (b : BitVec) (i : ℕ) → length (set b i true) ≡ length b
length-set [] i = refl
length-set (x ∷ b) zero = refl
length-set (x ∷ b) (suc i) = ap suc (length-set b i)

bit-set : (b : BitVec) (i : ℕ) → i < length b → bit (set b i true) i ≡ true
bit-set [] i h = absurd (omega arith)
bit-set (x ∷ b) zero h = refl
bit-set (x ∷ b) (suc i) h = bit-set b i (omega arith)

bit-set_other : (b : BitVec) (i j : ℕ) → ¬ (i ≡ j) → bit (set b i true) j ≡ bit b j
bit-set_other [] i j h = refl
bit-set_other (x ∷ b) zero zero h = absurd (h refl)
bit-set_other (x ∷ b) zero (suc j) h = refl
bit-set_other (x ∷ b) (suc i) zero h = refl
bit-set_other (x ∷ b) (suc i) (suc j) h = bit-set_other b i j (λ e. h (ap suc e))

all_bits_sound : (b : BitVec) → all_bits b ≡ true → (i : ℕ) → i < length b → bit b i ≡ true
all_bits_sound [] h i l = absurd (omega arith)
all_bits_sound (x ∷ b) h zero l = ground arith
all_bits_sound (x ∷ b) h (suc i) l = all_bits_sound b (ground arith) i (omega arith)

all_bits_complete : (b : BitVec) → ((i : ℕ) → i < length b → bit b i ≡ true) → all_bits b ≡ true
all_bits_complete [] h = refl
all_bits_complete (x ∷ b) h =
    let first : x ≡ true = h 0 (omega arith) in
    ground (arith, all_bits_complete b (λ i l. h (suc i) (omega arith)))

length-resized : (b : BitVec) (n : ℕ) → length (resized b n) ≡ n
length-resized b zero = refl
length-resized [] (suc n) = ap suc (length-resized [] n)
length-resized (x ∷ b) (suc n) = ap suc (length-resized b n)

bit-resized : (b : BitVec) (n i : ℕ) → length b ≤ n → bit (resized b n) i ≡ bit b i
bit-resized [] zero i h = refl
bit-resized (x ∷ b) zero i h = absurd (omega arith)
bit-resized [] (suc n) zero h = refl
bit-resized [] (suc n) (suc i) h = bit-resized [] n i (omega arith)
bit-resized (x ∷ b) (suc n) zero h = refl
bit-resized (x ∷ b) (suc n) (suc i) h = bit-resized b n i (omega arith)

length-zip_bits : (f : Bool → Bool → Bool) (a b : BitVec) → length (zip_bits f a b) ≡ length a
length-zip_bits f [] b = refl
length-zip_bits f (x ∷ a) [] = refl
length-zip_bits f (x ∷ a) (y ∷ b) = ap suc (length-zip_bits f a b)

bit-zip_bits :
    (f : Bool → Bool → Bool)
    → ((x : Bool) → f x false ≡ x)
    → (a b : BitVec) (i : ℕ) → i < length a
    → bit (zip_bits f a b) i ≡ f (bit a i) (bit b i)
bit-zip_bits f e [] b i h = absurd (omega arith)
bit-zip_bits f e (x ∷ a) [] i h = sym (e (bit (x ∷ a) i))
bit-zip_bits f e (x ∷ a) (y ∷ b) zero h = refl
bit-zip_bits f e (x ∷ a) (y ∷ b) (suc i) h = bit-zip_bits f e a b i (omega arith)

pub plain_laws : BitLaws plain_ops
plain_laws = record {
  length-repeat = λ b n. length-replicate n b;
  bit-repeat_false = bit-replicate;
  set_bit_lem =
      λ b i h. (set b i true, ground arith, length-set b i, bit-set b i h, bit-set_other b i);
  set_bit_panics = λ b i h. ground arith;
  all_set_iff = λ b. (all_bits_sound b, all_bits_complete b);
  length-resize = length-resized;
  bit-resize = bit-resized;
  length-bitor = length-zip_bits ◌||◌;
  bit-bitor = bit-zip_bits ◌||◌ (λ x. ground arith);
  length-bitxor = length-zip_bits xor;
  bit-bitxor = bit-zip_bits xor (λ x. ground arith);
}
