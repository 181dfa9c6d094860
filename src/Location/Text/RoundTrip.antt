-- ===== src/Location/Text/RoundTrip.antt =====
-- Parsing what `Display` prints (tierkreis/src/location.rs).
use mathlib.Core.List.{append_assoc, append-nil}
use tierkreis.Base.{
  ℕ, zero, suc, ◌+◌, ◌/◌, ◌%◌, ◌≤◌, ◌<◌, ◌≡◌, ◌≢◌, refl, ap, ◌∙◌, false, [], ◌∷◌, ◌++◌, map, arith,
  All, nat_beq, Outcome, ok, Bool-cases, inl, inr,
}
use tierkreis.Location.{Component, node, loop_index, map_index, Location, u32_size}
use tierkreis.Location.Text.{
  Text, digits, show_uint, scan_uint, parse_uint, usize_size, show_component, show_rest, show, cut,
  split_terminator, new_component, push_steps, new,
}

abbrev pub IsDigit : ℕ → Type 0
IsDigit c = (b'0' ≤ c) × (c ≤ b'9')

abbrev StartsWithDigit : Text → Type 0
StartsWithDigit [] = ⊥
StartsWithDigit (c ∷ _) = IsDigit c

b0_plus_remainder : (n : ℕ) → IsDigit (b'0' + n % 10)
b0_plus_remainder n = omega arith

digits-StartsWithDigit :
    (fuel n : ℕ) (out : Text) → StartsWithDigit out → StartsWithDigit (digits fuel n out)
unfolding digits
digits-StartsWithDigit zero n out h = h
digits-StartsWithDigit (suc fuel) n out h = elim (Bool-cases (nat_beq (n / 10) 0)) [
  | inl e ↦ rw e (b0_plus_remainder n)
  | inr e ↦ rw e (digits-StartsWithDigit fuel (n / 10) _ (b0_plus_remainder n))
]

show_uint-StartsWithDigit : (n : ℕ) → StartsWithDigit (show_uint n)
unfolding show_uint
show_uint-StartsWithDigit n = elim (Bool-cases (nat_beq (n / 10) 0)) [
  | inl e ↦ rw e (b0_plus_remainder n)
  | inr e ↦ rw e (digits-StartsWithDigit n (n / 10) _ (b0_plus_remainder n))
]

digits-All : (fuel n : ℕ) (out : Text) → All IsDigit out → All IsDigit (digits fuel n out)
unfolding digits
digits-All zero n out h = h
digits-All (suc fuel) n out h = elim (Bool-cases (nat_beq (n / 10) 0)) [
  | inl e ↦ rw e (b0_plus_remainder n, h)
  | inr e ↦ rw e (digits-All fuel (n / 10) _ (b0_plus_remainder n, h))
]

pub show_uint-All : (n : ℕ) → All IsDigit (show_uint n)
unfolding show_uint
show_uint-All n = digits-All (suc n) n [] tt

-- one more digit behind those of `n / 10` spells `n`
scan_last :
    (size n : ℕ) (out : Text)
    → n < size
    → scan_uint size ((b'0' + n % 10) ∷ out) (n / 10) ≡ scan_uint size out n
unfolding scan_uint
scan_last size n out h = ground arith

scan-digits :
    (size fuel n : ℕ) (out : Text)
    → n < fuel
    → n < size
    → scan_uint size (digits fuel n out) 0 ≡ scan_uint size out n
unfolding digits
scan-digits size zero n out f h = absurd (omega arith)
scan-digits size (suc fuel) n out f h = elim (Bool-cases (nat_beq (n / 10) 0)) [
  | inl e ↦ rw e (ground (arith, scan_last size n out h))
  | inr e ↦ rw e (
      ground
        (arith, scan-digits size fuel (n / 10) ((b'0' + n % 10) ∷ out), scan_last size n out h))
]

parse-scan : (size : ℕ) (s : Text) → StartsWithDigit s → parse_uint size s ≡ scan_uint size s 0
unfolding parse_uint
parse-scan size [] h = absurd h
parse-scan size (c ∷ []) h = refl
parse-scan size (c ∷ d ∷ s) h = ground arith

-- An integer that fits the type is read back from its print.
pub parse-show_uint : (size n : ℕ) → n < size → parse_uint size (show_uint n) ≡ ok n
parse-show_uint size n h = rw (parse-scan size _ (show_uint-StartsWithDigit n)) (
    unfold show_uint in
    rw (scan-digits size (suc n) n [] (omega arith) h) (unfold scan_uint in refl))

-- no dot
abbrev Plain : Text → Type 0
Plain = All (λ c. nat_beq c b'.' ≡ false)

Plain-digits : (s : Text) → All IsDigit s → Plain s
Plain-digits [] h = tt
Plain-digits (c ∷ s) h = (ground arith, Plain-digits s h.1)

show_component-Plain : (c : Component) → Plain (show_component c)
unfolding show_component show_uint
show_component-Plain (node n) = (refl, Plain-digits _ (show_uint-All n))
show_component-Plain (loop_index n) = (refl, Plain-digits _ (show_uint-All n))
show_component-Plain (map_index n) = (refl, Plain-digits _ (show_uint-All n))

cut-append : (p rest part : Text) → Plain p → cut (p ++ rest) part ≡ cut rest (part ++ p)
unfolding cut
cut-append [] rest part h = rw append-nil
cut-append (c ∷ p) rest part h =
    rw (h.0, cut)
      (cut-append p rest (part ++ c ∷ []) h.1 ∙ ap (cut rest) (append_assoc part (c ∷ []) p))

cut_end : (part : Text) → part ≢ [] → cut [] part ≡ part ∷ []
unfolding cut
cut_end [] h = absurd (h refl)
cut_end (c ∷ part) h = refl

cut_dot : (s part : Text) → cut (b'.' ∷ s) part ≡ part ∷ cut s []
unfolding cut
cut_dot s part = refl

show_component-ne-nil : (c : Component) → show_component c ≢ []
unfolding show_component
show_component-ne-nil (node n) h = cc
show_component-ne-nil (loop_index n) h = cc
show_component-ne-nil (map_index n) h = cc

cut-show_rest :
    (steps : Location) (part : Text)
    → part ≢ []
    → cut (show_rest steps) part ≡ part ∷ map show_component steps
unfolding show_rest
cut-show_rest [] part h = cut_end part h
cut-show_rest (c ∷ steps) part h =
    cut_dot (show_component c ++ show_rest steps) part
    ∙ ap (◌∷◌ part) (
        cut-append (show_component c) (show_rest steps) [] (show_component-Plain c)
        ∙ cut-show_rest steps (show_component c) (show_component-ne-nil c))

split-show : (l : Location) → split_terminator (show l) ≡ map show_component l
unfolding split_terminator show
split-show [] = refl
split-show (c ∷ l) =
    cut-append (show_component c) (show_rest l) [] (show_component-Plain c)
    ∙ cut-show_rest l (show_component c) (show_component-ne-nil c)

-- What the types of the fields and `NodeIndex::new` allow.
module _ (node_index_new : ℕ → Outcome ℕ) (size : ℕ) where
  abbrev pub AcceptsBelow : Type 0
  AcceptsBelow = (i : ℕ) → i < size → node_index_new i ≡ ok i

  abbrev pub Fits : Component → Type 0
  Fits (node n) = (n < size) × (n < usize_size)
  Fits (loop_index index) = index < u32_size
  Fits (map_index index) = index < u32_size

  new-show_component :
      (c : Component)
      → AcceptsBelow
      → Fits c
      → new_component node_index_new (show_component c) ≡ ok c
  unfolding new_component show_component
  new-show_component (node n) h f = rw (parse-show_uint usize_size n f.1, h n f.0)
  new-show_component (loop_index n) h f = rw (parse-show_uint u32_size n f)
  new-show_component (map_index n) h f = rw (parse-show_uint u32_size n f)

  push-map :
      (l acc : Location)
      → AcceptsBelow
      → All Fits l
      → push_steps node_index_new (map show_component l) acc ≡ ok (acc ++ l)
  unfolding push_steps
  push-map [] acc h f = rw append-nil
  push-map (c ∷ l) acc h f =
      rw (new-show_component c h f.0)
        (push-map l (acc ++ c ∷ []) h f.1 ∙ ap ok (append_assoc acc (c ∷ []) l))

  -- Parsing the print of a location gives the location back, if its loop and map indices are below
  -- 2^32, its node indices below 2^64 and below the size up to which `NodeIndex::new` accepts.
  pub new-show : (l : Location) → AcceptsBelow → All Fits l → new node_index_new (show l) ≡ ok l
  unfolding new
  new-show l h f = rw split-show (push-map l [] h f)
