-- ===== src/Location/Text.antt =====
-- `Display` and `FromStr` of tierkreis/src/location.rs. A text is the list of its code points. The
-- printing and parsing of unsigned integers are the standard library's: an optional `+`, at least
-- one digit, and no overflow.
pub mod RoundTrip
use tierkreis.Base.{
  ℕ, zero, suc, ◌+◌, ◌-◌, ◌*◌, ◌/◌, ◌%◌, ◌^◌, Bool, true, false, ◌&&◌, List, [], ◌∷◌, ◌++◌, leb,
  ltb, nat_beq, if◌then◌else◌, Outcome, ok, err, malformed_location, invalid_integer, ◌>>=◌,
}
use tierkreis.Location.{Component, node, loop_index, map_index, Location, u32_size}

abbrev pub Text : Type 0
Text = List ℕ

-- the digits of `n`, before `out`; a round divides by ten
unfoldable pub digits : ℕ → ℕ → Text → Text
digits zero n out = out
digits (suc fuel) n out =
    let here = (b'0' + n % 10) ∷ out in
    let more = digits fuel (n / 10) here in if nat_beq (n / 10) 0 then here else more

unfoldable pub show_uint : ℕ → Text
unfolding digits
show_uint n = digits (suc n) n []

unfoldable pub is_digit : ℕ → Bool
is_digit c = leb b'0' c && leb c b'9'

-- `n` is what the digits so far spell; `size` is one more than the largest value of the type
unfoldable pub scan_uint : ℕ → Text → ℕ → Outcome ℕ
unfolding is_digit
scan_uint size [] n = ok n
scan_uint size (c ∷ s) n =
    let value = n * 10 + (c - b'0') in
    let more = scan_uint size s value in
    if is_digit c
    then (if ltb value size then more else err invalid_integer)
    else err invalid_integer

-- `str::parse::<u32>()`, `str::parse::<usize>()`
unfoldable pub parse_uint : ℕ → Text → Outcome ℕ
unfolding scan_uint
parse_uint size [] = err invalid_integer
parse_uint size (c ∷ []) = scan_uint size (c ∷ []) 0
parse_uint size (c ∷ d ∷ s) =
    if nat_beq c b'+' then scan_uint size (d ∷ s) 0 else scan_uint size (c ∷ d ∷ s) 0

abbrev pub usize_size : ℕ
usize_size = 2 ^ 64

pub show_component : Component → Text
unfolding show_uint
show_component (node n) = b'N' ∷ show_uint n
show_component (loop_index index) = b'L' ∷ show_uint index
show_component (map_index index) = b'M' ∷ show_uint index

-- each later step behind a dot
pub show_rest : Location → Text
unfolding show_component
show_rest [] = []
show_rest (step ∷ steps) = b'.' ∷ (show_component step ++ show_rest steps)

pub show : Location → Text
unfolding show_rest
show [] = []
show (first_step ∷ steps) = show_component first_step ++ show_rest steps

-- `split_terminator('.')`: a last part that is empty is left out
pub cut : Text → Text → List Text
cut [] [] = []
cut [] (c ∷ part) = (c ∷ part) ∷ []
cut (c ∷ s) part = elim (nat_beq c b'.') [ true ↦ part ∷ cut s [] | false ↦ cut s (part ++ c ∷ []) ]

pub split_terminator : Text → List Text
unfolding cut
split_terminator k = cut k []

-- `NodeIndex::new` panics on an index that is too large for it
module _ (node_index_new : ℕ → Outcome ℕ) where
  pub new_component : Text → Outcome Component
  unfolding parse_uint
  new_component [] = err malformed_location
  new_component (tag ∷ idx_str) =
      if nat_beq tag b'N'
      then (do idx ← parse_uint usize_size idx_str; i ← node_index_new idx; ok (node i))
      else if nat_beq tag b'L'
      then (do index ← parse_uint u32_size idx_str; ok (loop_index index))
      else if nat_beq tag b'M'
      then (do index ← parse_uint u32_size idx_str; ok (map_index index))
      else err malformed_location

  pub push_steps : List Text → Location → Outcome Location
  unfolding new_component
  push_steps [] steps = ok steps
  push_steps (part ∷ parts) steps =
      new_component part >>= λ step. push_steps parts (steps ++ step ∷ [])

  pub new : Text → Outcome Location
  unfolding split_terminator push_steps
  new k = push_steps (split_terminator k) []
