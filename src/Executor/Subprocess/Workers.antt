-- ===== src/Executor/Subprocess/Workers.antt =====
-- The processes of tierkreis/src/executor/subprocess.rs: how a worker is spawned, and how the process
-- of a restored task is ended.
use Prim.Native.String.{◌++◌ as append}
use Prim.Native.Char.{char, code}
use tierkreis.Base.{
  ℕ, String, Bool, false, Option, none, some, Outcome, ok, err, ◌>>=◌, ◌==◌, executor_failed,
  string_eq, nat_eq, nat_beq, pair_eq, if◌then◌else◌,
}
use tierkreis.Base.Map.{Map}
use tierkreis.Location.{location_eq}
use tierkreis.Location.Text.{Text}
use tierkreis.Event.{TaskHandle}
use tierkreis.Executor.Subprocess.Handle.{process_identity, parse_subprocess_handle}

-- what a worker reads of the JSON file of its arguments
pub record WorkerCallArgs : Type 0 where
  pub function_name : String
  pub inputs : Map String String
  pub outputs : Map String String
  pub output_dir : String
  pub done_path : String
  pub error_path : String
  pub logs_path : Option String

-- an `ExitStatus` with its text
pub record ExitStatus : Type 0 where
  pub success : Bool
  pub shown : String

-- `std::process` and `/proc`, in a world `W`
pub record Processes (W : Type 0) : Type 0 where
  pub read_stat : ℕ → W → Outcome Text
  pub is_whitespace : ℕ → Bool
  -- the command `kill`: its status
  pub kill : ℕ → W → Outcome (ExitStatus × W)
  -- the process of a command, with its PID if there is one
  pub spawn : String → WorkerCallArgs → Map String String → W → Outcome (Option ℕ × W)

-- `replace('_', "-")`
abbrev pub dashed : String → String
dashed String.[] = ""
dashed (String.◌∷◌ c s) = String.◌∷◌ (if nat_beq (code c) b'_' then char b'-' tt else c) (dashed s)

module _ {W : Type 0} (processes : Processes W) where
  open processes use {read_stat, is_whitespace, kill, spawn}

  unfoldable pub spawn_worker :
      String → WorkerCallArgs → Map String String → W → Outcome (Option ℕ × W)
  spawn_worker worker_name worker_args environment w =
      spawn (append "tkr-" (dashed worker_name)) worker_args environment w

  abbrev pub identity_of : ℕ → W → Outcome (ℕ × ℕ)
  identity_of pid w = read_stat pid w >>= process_identity is_whitespace pid

  -- whether the process of a handle is the one that it was made of
  abbrev pub is_original : ℕ × ℕ → W → Bool
  is_original handle w = elim (identity_of handle.0 w) [
    | ok identity ↦ identity == handle
    | _ ↦ false
  ]

  -- the process that a restored task has left is ended
  unfoldable pub terminate : Option TaskHandle → W → Outcome W
  terminate none w = ok w
  terminate (some handle) w = parse_subprocess_handle handle >>= λ original.
      if is_original original w
      then (kill original.0 w >>= λ (status, killed).
          (if status.success then ok killed else err executor_failed))
      else ok w
