-- ===== src/State/Listing/Ordered.antt =====
-- The order and the entries of `list_workflow_run_summaries` of
-- tierkreis/src/state/inmemory.rs.
use tierkreis.Base.{
  ℕ, ◌≡◌, refl, ◌∙◌, Bool, true, false, ◌&&◌, Option, none, some, List, [], ◌∷◌, arith, ◌==◌,
  pair_eq, nat_eq, if◌then◌else◌, Outcome, ok, err, panic, Bool-cases, inl, inr,
}
use tierkreis.Base.Map.{Map, get, Unique, get_or_default}
use tierkreis.State.{RunAttemptState}
use tierkreis.State.Runtime.{Runtime, RunKey, Summary, summarise, summary, load_workflow_run_state}
use tierkreis.State.Listing.{
  not_after, insert_by_start, sort_by_start, summaries_of, list_workflow_run_summaries,
}

-- no summary starts after the one behind it
abbrev pub in_start_order : List Summary → Bool
in_start_order [] = true
in_start_order (x ∷ []) = true
in_start_order (x ∷ y ∷ ys) = not_after x.started_time y.started_time && in_start_order (y ∷ ys)

-- the summaries of one attempt of a run
abbrev pub entries : RunKey → List Summary → List Summary
entries k [] = []
entries k (x ∷ xs) =
    let rest = entries k xs in if (x.run_id, x.attempt) == k then x ∷ rest else rest

-- the value of a call, if it succeeds
abbrev pub listed : Outcome Summary → List Summary
listed (ok x) = x ∷ []
listed (err e) = []
listed panic = []

not_after-total : (a b : Option ℕ) → not_after a b ≡ false → not_after b a ≡ true
not_after-total none b h = ground (arith, h)
not_after-total (some a) none h = refl
not_after-total (some a) (some b) h = ground arith

in_start_order-insert_by_start :
    (x : Summary) (xs : List Summary)
    → in_start_order xs ≡ true
    → in_start_order (insert_by_start x xs) ≡ true
unfolding insert_by_start
in_start_order-insert_by_start x [] h = refl
in_start_order-insert_by_start x (y ∷ []) h =
    ground (arith, not_after-total x.started_time y.started_time)
in_start_order-insert_by_start x (y ∷ z ∷ ys) h = ground (
  arith,
  not_after-total x.started_time y.started_time,
  in_start_order-insert_by_start x (z ∷ ys),
)

in_start_order-sort_by_start : (xs : List Summary) → in_start_order (sort_by_start xs) ≡ true
unfolding sort_by_start
in_start_order-sort_by_start [] = refl
in_start_order-sort_by_start (x ∷ xs) =
    in_start_order-insert_by_start x (sort_by_start xs) (in_start_order-sort_by_start xs)

-- an attempt that has no other summary stands alone
entries-insert_by_start :
    (k : RunKey) (x : Summary) (xs : List Summary)
    → entries k xs ≡ []
    → entries k (insert_by_start x xs) ≡ entries k (x ∷ [])
unfolding insert_by_start
entries-insert_by_start k x [] h = refl
entries-insert_by_start k x (y ∷ ys) h = elim (Bool-cases ((y.run_id, y.attempt) == k)) [
  | inl e ↦ ground (arith, rw e at h)
  | inr e ↦ elim (Bool-cases (not_after x.started_time y.started_time)) [
    | inl e1 ↦ rw (e1, h) refl
    | inr e1 ↦ rw (e1, e) (entries-insert_by_start k x ys (rw e at h))
  ]
]

-- the summaries of other attempts stay
entries-insert_by_start_other :
    (k : RunKey) (x : Summary) (xs : List Summary)
    → ((x.run_id, x.attempt) == k) ≡ false
    → entries k (insert_by_start x xs) ≡ entries k xs
unfolding insert_by_start
entries-insert_by_start_other k x [] h = rw h refl
entries-insert_by_start_other k x (y ∷ ys) h =
    elim (Bool-cases (not_after x.started_time y.started_time)) [
      | inl e ↦ rw (e, h) refl
      | inr e ↦ rw (e, entries-insert_by_start_other k x ys h) refl
    ]

module _ {G : Type 0} where
  entries-summaries_of :
      (s : Runtime G) (runs : Map RunKey RunAttemptState) (k : RunKey)
      → Unique runs
      → entries k (sort_by_start (summaries_of s runs))
        ≡ elim (get runs k) [ none ↦ [] | some run ↦ summarise s k run.workflow_id run ∷ [] ]
  unfolding sort_by_start summaries_of get
  entries-summaries_of s [] k u = refl
  entries-summaries_of s ((j, run) ∷ runs) k (fresh, u) =
      let x = summarise s j run.workflow_id run in
      let rest = sort_by_start (summaries_of s runs) in
      elim (Bool-cases (j == k)) [
        | inl e ↦
            let same : j ≡ k = (pair_eq.beq_iff j k).0 e in
            let h : entries k rest ≡ [] =
              entries-summaries_of s runs k u ∙ rw (← same, fresh) refl in
            entries-insert_by_start k x rest h ∙ rw (e, same) refl
        | inr e ↦
            entries-insert_by_start_other k x rest e ∙ entries-summaries_of s runs k u ∙ rw e refl
      ]

  -- Where no key of the runs has two entries, the summaries that are listed are in the order of
  -- their start times, a run that has not started first, and those of an attempt are the one that
  -- `summary` returns for the handle of that attempt, or none where it fails
  pub list_workflow_run_summaries_lem :
      (s : Runtime G) (run_id attempt : ℕ)
      → Unique s.runs
      → (in_start_order (list_workflow_run_summaries s) ≡ true)
        × (entries (run_id, attempt) (list_workflow_run_summaries s)
            ≡ listed (summary (load_workflow_run_state run_id attempt s).1 s))
  unfolding list_workflow_run_summaries load_workflow_run_state summary get_or_default
  list_workflow_run_summaries_lem s run_id attempt u = (
    in_start_order-sort_by_start (summaries_of s s.runs),
    entries-summaries_of s s.runs (run_id, attempt) u ∙ ground arith,
  )
