-- ===== src/Executor/Hpc/Listed.antt =====
-- The jobs that `check_jobs` of tierkreis/src/executor/hpc.rs looks up.
use tierkreis.Base.{
  ◌≡◌, refl, true, false, ◌==◌, none, List, [], ◌∷◌, All, nat_eq, string_eq, pair_eq, Bool-cases,
  inl, inr,
}
use tierkreis.Base.Map.{get}
use tierkreis.Location.{location_eq}
use tierkreis.Event.{TaskHandle}
use tierkreis.Executor.Keys.{TaskKey}
use tierkreis.Executor.Hpc.Handles.{IsSound, key_iff}
use tierkreis.Executor.Hpc.Frame.{is_watching}
use tierkreis.Executor.Hpc.{
  watching, TaskRegistration, cancel_before_registration, JobHandles, watched_jobs,
}

-- the key of each listed job has another key than those behind it, and is watched
abbrev pub AllOther : TaskKey → List (TaskKey × TaskHandle) → Type 0
AllOther key jobs = All (λ j. (key == j.0) ≡ false) jobs

abbrev pub AreDistinct : List (TaskKey × TaskHandle) → Type 0
AreDistinct [] = Unit
AreDistinct (job ∷ jobs) = AllOther job.0 jobs × AreDistinct jobs

abbrev pub AreWatched : JobHandles → List (TaskKey × TaskHandle) → Type 0
AreWatched handles jobs = All (λ j. is_watching (get handles j.0) ≡ true) jobs

pub AllOther-AreWatched :
    (handles : JobHandles) (key : TaskKey) (jobs : List (TaskKey × TaskHandle))
    → get handles key ≡ none
    → AreWatched handles jobs
    → AllOther key jobs
AllOther-AreWatched handles key [] h w = tt
AllOther-AreWatched handles key (job ∷ jobs) h w = (
  elim (Bool-cases (key == job.0)) [
    | inl same ↦
        let wrong : is_watching none ≡ true = rw (← (key_iff key job.0).0 same, h) at (w.0) in cc
    | inr other ↦ other
  ],
  AllOther-AreWatched handles key jobs h w.1,
)

AreWatched-cons :
    (handles : JobHandles) (key : TaskKey) (r : TaskRegistration)
    (jobs : List (TaskKey × TaskHandle))
    → AllOther key jobs
    → AreWatched handles jobs
    → AreWatched ((key, r) ∷ handles) jobs
unfolding get
AreWatched-cons handles key r [] d w = tt
AreWatched-cons handles key r (job ∷ jobs) d w =
    (rw (d.0) w.0, AreWatched-cons handles key r jobs d.1 w.1)

pub watched_jobs-AreWatched :
    (handles : JobHandles)
    → IsSound handles
    → AreWatched handles (watched_jobs handles) × AreDistinct (watched_jobs handles)
unfolding watched_jobs get
watched_jobs-AreWatched [] h = (tt, tt)
watched_jobs-AreWatched ((key, watching job_id task status) ∷ handles) h =
    let (w, d) = watched_jobs-AreWatched handles h.2 in
    let other = AllOther-AreWatched handles key (watched_jobs handles) h.0 w in
    (
      (
        rw ((key_iff key key).1 refl) refl,
        AreWatched-cons handles key (watching job_id task status) (watched_jobs handles) other w,
      ),
      (other, d),
    )
watched_jobs-AreWatched ((key, cancel_before_registration) ∷ handles) h =
    let (w, d) = watched_jobs-AreWatched handles h.2 in
    let other = AllOther-AreWatched handles key (watched_jobs handles) h.0 w in
    (AreWatched-cons handles key cancel_before_registration (watched_jobs handles) other w, d)
