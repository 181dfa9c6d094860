-- ===== src/Executor/Subprocess/Handle/RoundTrip.antt =====
-- Reading a handle that tierkreis/src/executor/subprocess.rs has made.
use tierkreis.Base.{
  ℕ, ◌<◌, ◌^◌, ◌≡◌, refl, true, false, some, [], ◌∷◌, ◌++◌, nat_beq, ltb, ok, arith, All,
}
use tierkreis.Location.{u32_size}
use tierkreis.Location.Text.{Text, show_uint}
use tierkreis.Location.Text.RoundTrip.{IsDigit, show_uint-All, parse-show_uint}
use tierkreis.Executor.Subprocess.Handle.{
  text-ascii, split_once, format_subprocess_handle, parse_subprocess_handle,
}

abbrev IsAscii : Text → Type 0
IsAscii = All (λ c. ltb c 128 ≡ true)

IsAscii-digits : (s : Text) → All IsDigit s → IsAscii s
IsAscii-digits [] h = tt
IsAscii-digits (c ∷ s) h = (ground arith, IsAscii-digits s h.1)

IsAscii-append : (s t : Text) → IsAscii s → IsAscii t → IsAscii (s ++ t)
IsAscii-append [] t h k = k
IsAscii-append (c ∷ s) t h k = (h.0, IsAscii-append s t h.1 k)

IsAscii-show_uint : (n : ℕ) → IsAscii (show_uint n)
IsAscii-show_uint n = IsAscii-digits (show_uint n) (show_uint-All n)

-- a text is split at the first separator
split_once-append : (p s : Text) → All IsDigit p → split_once b':' (p ++ b':' ∷ s) ≡ some (p, s)
unfolding split_once
split_once-append [] s h = refl
split_once-append (c ∷ p) s h =
    let other : nat_beq c b':' ≡ false = ground arith in rw (other, split_once-append p s h.1) refl

-- The handle that is made of a PID of 32 bits and a start time of 64 bits is read back as the two.
pub parse-format_subprocess_handle :
    (pid start_time : ℕ)
    → pid < u32_size
    → start_time < 2 ^ 64
    → parse_subprocess_handle (format_subprocess_handle pid start_time) ≡ ok (pid, start_time)
unfolding parse_subprocess_handle format_subprocess_handle
parse-format_subprocess_handle pid start_time h k =
    let whole =
      IsAscii-append (show_uint pid) (b':' ∷ show_uint start_time) (IsAscii-show_uint pid)
        (refl, IsAscii-show_uint start_time) in
    rw
      (
        text-ascii _ whole,
        split_once-append (show_uint pid) (show_uint start_time) (show_uint-All pid),
        parse-show_uint u32_size pid h,
        parse-show_uint (2 ^ 64) start_time k,
      )
      refl
