-- ===== src/State/Attempts/Last.antt =====
-- The loop of `new_attempt` of tierkreis/src/state/inmemory.rs.
use tierkreis.Base.{
  ℕ, zero, suc, ◌+◌, ◌%◌, ◌≤◌, ◌<◌, ◌≡◌, refl, ap, ◌∙◌, Option, none, some, arith, ◌==◌, pair_eq,
  nat_eq, pair_beq_iff, ok, or_error, >>=-eq-ok, or_error-eq-ok, ok-injective, length, [], ◌∷◌,
  Bool-cases, Option-cases, inl, inr, inputs_not_found, Eq,
}
use tierkreis.Base.Map.{Map, get, remove, get-remove}
use tierkreis.Location.{location_eq, root, u32_size}
use tierkreis.State.{RunAttemptState}
use tierkreis.State.Runtime.{Runtime}
use tierkreis.State.Attempts.{Latest, find_latest}

module _ {K V : Type 0} ⦃e : Eq K⦄ where
  length-remove-le : (m : Map K V) (k : K) → length (remove m k) ≤ length m
  unfolding remove
  length-remove-le [] k = omega arith
  length-remove-le ((j, w) ∷ m) k = ground (arith, length-remove-le m k)

  pub length-remove-lt :
      (m : Map K V) (k : K) {v : V} → get m k ≡ some v → length (remove m k) < length m
  unfolding remove get
  length-remove-lt [] k h = cc
  length-remove-lt ((j, w) ∷ m) k {v} h =
      ground (arith, length-remove-le m k, length-remove-lt m k {v = v})

module _ {V : Type 0} (run_id : ℕ) where
  -- the attempts 0, 1, …, k - 1 are there
  abbrev pub Below : Map (ℕ × ℕ) V → ℕ → Type 0
  Below m k = (i : ℕ) → i < k → (v : V) × (get m (run_id, i) ≡ some v)

  -- as many attempts need as many entries
  pub Below-le-length : (k : ℕ) (m : Map (ℕ × ℕ) V) → Below m k → k ≤ length m
  Below-le-length zero m h = omega arith
  Below-le-length (suc k) m h =
      let (v, found) = h k (omega arith) in
      omega (
        arith,
        length-remove-lt m (run_id, k) found,
        Below-le-length k (remove m (run_id, k)) λ i lt.
            let (w, there) = h i (omega arith) in
            (
              w,
              get-remove m (run_id, k) (run_id, i)
                  ∙ ground (arith, pair_beq_iff nat_eq nat_eq (run_id, k) (run_id, i)),
            ),
      )

-- what the loop holds after it saw the attempts below `a`
abbrev pub Holds : {G : Type 0} → Runtime G → ℕ → ℕ → Option Latest → Type 0
Holds s run_id a none = a ≡ 0
Holds s run_id a (some l) =
    (run : RunAttemptState) × (suc l.attempt ≡ a)
    × (get s.runs (run_id, l.attempt) ≡ some run)
    × (l.workflow_id ≡ run.workflow_id)
    × (l.metadata ≡ run.metadata)
    × (get run.inputs root ≡ some l.inputs)

module _ {G : Type 0} (s : Runtime G) (run_id : ℕ) where
  Below-suc :
      (a : ℕ) (run : RunAttemptState)
      → Below run_id s.runs a
      → get s.runs (run_id, a) ≡ some run
      → Below run_id s.runs (suc a)
  Below-suc a run b found i lt = elim (Bool-cases (i == a)) [
    | inl y ↦ (run, ap (λ j. get s.runs (run_id, j)) (ground arith) ∙ found)
    | inr n ↦ b i (ground arith)
  ]

  -- With a round for each run and one more, the loop ends at an attempt that is missing, all below
  -- which are there, and it holds the data of the attempt before.
  pub find_latest_lem :
      (fuel a : ℕ) (latest : Option Latest) {out : Option Latest}
      → length s.runs < u32_size
      → length s.runs < fuel + a
      → Below run_id s.runs a
      → Holds s run_id a latest
      → find_latest fuel s run_id a latest ≡ ok out
      → (b : ℕ) × Below run_id s.runs b × (get s.runs (run_id, b) ≡ none) × Holds s run_id b out
  unfolding find_latest
  find_latest_lem zero a latest small room b h e =
      absurd (omega (arith, Below-le-length run_id a s.runs b))
  find_latest_lem (suc fuel) a latest {out} small room b h e =
      elim (Option-cases (get s.runs (run_id, a))) [
        | inl missing ↦ (a, b, missing, rw (ok-injective (rw (missing, find_latest) at e)) at h)
        | inr (run, found) ↦
            let (inputs, read, next) =
              >>=-eq-ok (or_error inputs_not_found (get run.inputs root)) _
                (rw (found, find_latest) at e) in
            let more = Below-suc a run b found in
            let counted : (a + 1) % u32_size ≡ suc a =
              omega (arith, Below-le-length run_id (suc a) s.runs more) in
            find_latest_lem fuel (suc a) _ small (omega arith) more
              (run, refl, found, refl, refl, or_error-eq-ok inputs_not_found _ read)
              (rw counted at next)
      ]
