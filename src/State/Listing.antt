-- ===== src/State/Listing.antt =====
-- `list_workflow_run_summaries` of tierkreis/src/state/inmemory.rs.
pub mod Ordered
use tierkreis.Base.{Bool, true, false, Option, none, some, List, [], ◌∷◌, leb, if◌then◌else◌}
use tierkreis.Base.Map.{Map}
use tierkreis.State.{Time, RunAttemptState}
use tierkreis.State.Runtime.{Runtime, RunKey, Summary, summarise}

-- the order of optional times: a missing one comes first
abbrev pub not_after : Option Time → Option Time → Bool
not_after none b = true
not_after (some a) none = false
not_after (some a) (some b) = leb a b

-- in front of the first one that starts no earlier
unfoldable pub insert_by_start : Summary → List Summary → List Summary
insert_by_start x [] = x ∷ []
insert_by_start x (y ∷ ys) =
    let rest = insert_by_start x ys in
    if not_after x.started_time y.started_time then x ∷ y ∷ ys else y ∷ rest

-- `sort_by_key(|k| k.started_time)`, which is stable
unfoldable pub sort_by_start : List Summary → List Summary
unfolding insert_by_start
sort_by_start [] = []
sort_by_start (x ∷ xs) = insert_by_start x (sort_by_start xs)

module _ {G : Type 0} where
  unfoldable pub summaries_of : Runtime G → Map RunKey RunAttemptState → List Summary
  summaries_of s [] = []
  summaries_of s ((k, run) ∷ runs) = summarise s k run.workflow_id run ∷ summaries_of s runs

  unfoldable pub list_workflow_run_summaries : Runtime G → List Summary
  unfolding sort_by_start summaries_of
  list_workflow_run_summaries s = sort_by_start (summaries_of s s.runs)
