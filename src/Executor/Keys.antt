-- ===== src/Executor/Keys.antt =====
-- What the executors of tierkreis/src/executor keep their tasks by.
use tierkreis.Base.{ℕ}
use tierkreis.Location.{Location}

-- `(Uuid, u32, Location)`
abbrev pub TaskKey : Type 0
TaskKey = (ℕ × ℕ) × Location
