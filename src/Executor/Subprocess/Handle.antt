-- ===== src/Executor/Subprocess/Handle.antt =====
-- The handles and the identities of processes of tierkreis/src/executor/subprocess.rs.
pub mod RoundTrip
use Prim.Native.Nat.{Ordering, compare}
use Prim.Native.Char.{Char, char, code, nul, IsScalar}
use tierkreis.Base.{
  ℕ, zero, suc, ◌+◌, ◌<◌, ◌≤◌, ◌^◌, ◌≡◌, refl, ap, ◌∙◌, Bool, true, false, Option, none, some, List,
  [], ◌∷◌, ◌++◌, nat_beq, ltb, if◌then◌else◌, Outcome, ok, err, or_error, ◌>>=◌, external, arith,
  All, Bool-cases, inl, inr, String,
}
use tierkreis.Event.{TaskHandle}
use tierkreis.Location.{u32_size}
use tierkreis.Location.Text.{Text, show_uint, parse_uint, digits}
use tierkreis.Location.Text.RoundTrip.{IsDigit, parse-show_uint}

-- the code points of a string
abbrev pub text : String → Text
text String.[] = []
text (String.◌∷◌ c s) = code c ∷ text s

-- what `ltb` answers is the order that it has compared
order_lt :
    (o : Ordering)
    → elim o [ Ordering.lt ↦ true | Ordering.eq ↦ false | Ordering.gt ↦ false ] ≡ true
    → o ≡ Ordering.lt
order_lt Ordering.lt h = refl
order_lt Ordering.eq h = cc
order_lt Ordering.gt h = cc

pub ascii-IsScalar : (n : ℕ) → ltb n 128 ≡ true → IsScalar n
ascii-IsScalar n h =
    let below : ltb n 55296 ≡ true = ground arith in rw (order_lt (compare n 55296) below) tt

-- the string of ASCII characters
abbrev pub ascii_char : (c : ℕ) (b : Bool) → ltb c 128 ≡ b → Char
ascii_char c true h = char c (ascii-IsScalar c h)
ascii_char c false h = nul

abbrev pub ascii : Text → String
ascii [] = ""
ascii (c ∷ s) = String.◌∷◌ (ascii_char c (ltb c 128) refl) (ascii s)

code-ascii_char : (c : ℕ) (b : Bool) (h : ltb c 128 ≡ b) → b ≡ true → code (ascii_char c b h) ≡ c
code-ascii_char c true h k = refl
code-ascii_char c false h k = cc

pub text-ascii : (s : Text) → All (λ c. ltb c 128 ≡ true) s → text (ascii s) ≡ s
text-ascii [] h = refl
text-ascii (c ∷ s) h =
    ap (λ d. d ∷ text (ascii s)) (code-ascii_char c (ltb c 128) refl h.0)
    ∙ ap (◌∷◌ c) (text-ascii s h.1)

-- `split_once(c)`
unfoldable pub split_once : ℕ → Text → Option (Text × Text)
split_once c [] = none
split_once c (d ∷ s) =
    let rest = split_once c s in
    if nat_beq d c
    then some ([], s)
    else (elim rest [ none ↦ none | some parts ↦ some (d ∷ parts.0, parts.1) ])

-- `rsplit_once(c)`: the text behind the last one
unfoldable pub behind_last : ℕ → Text → Option Text
behind_last c [] = none
behind_last c (d ∷ s) = elim (behind_last c s) [
  | none ↦ if nat_beq d c then some s else none
  | some after ↦ some after
]

-- an empty word is left out
abbrev pub add_word : Text → List Text → List Text
add_word [] words = words
add_word (c ∷ word) words = (c ∷ word) ∷ words

-- `split_whitespace()`, from behind `word`
unfoldable pub split_words : (ℕ → Bool) → Text → Text → List Text
split_words is_whitespace word [] = add_word word []
split_words is_whitespace word (c ∷ s) =
    let ended = split_words is_whitespace [] s in
    let longer = split_words is_whitespace (word ++ c ∷ []) s in
    if is_whitespace c then add_word word ended else longer

abbrev pub nth : List Text → ℕ → Option Text
nth [] n = none
nth (s ∷ words) zero = some s
nth (s ∷ words) (suc n) = nth words n

-- `process_identity` on Linux, of the text of `/proc/{pid}/stat`
unfoldable pub process_identity : (ℕ → Bool) → ℕ → Text → Outcome (ℕ × ℕ)
unfolding behind_last split_words
process_identity is_whitespace pid stat = or_error external (behind_last b')' stat) >>= λ fields.
    or_error external (nth (split_words is_whitespace [] fields) 19) >>= λ word.
    parse_uint (2 ^ 64) word >>= λ start_time. ok (pid, start_time)

unfoldable pub format_subprocess_handle : ℕ → ℕ → TaskHandle
format_subprocess_handle pid start_time = ascii (show_uint pid ++ b':' ∷ show_uint start_time)

unfoldable pub parse_subprocess_handle : TaskHandle → Outcome (ℕ × ℕ)
unfolding split_once
parse_subprocess_handle handle = or_error external (split_once b':' (text handle)) >>= λ parts.
    parse_uint u32_size parts.0 >>= λ pid.
    parse_uint (2 ^ 64) parts.1 >>= λ start_time. ok (pid, start_time)
