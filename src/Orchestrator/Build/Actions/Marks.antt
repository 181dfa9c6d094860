-- ===== src/Orchestrator/Build/Actions/Marks.antt =====
-- The locations that `build_actions` of tierkreis/src/orchestrator.rs marks as scheduled, and those of
-- nodes that wait at a breakpoint.
use tierkreis.Base.{
  ℕ, ◌≤◌, ◌≡◌, inl, inr, true, false, List, [], ◌∷◌, arith, length, length-append, contains, add,
  ap, nat_beq_iff, nat_eq, list_beq_iff, contains-add, ◌==◌, Bool-cases,
}
use tierkreis.Location.{node, Location, with_node, component_eq, location_eq}
use tierkreis.State.{Nodes}
use tierkreis.Graph.{PortGraph, WorkflowGraph}
use tierkreis.Orchestrator.Build.Actions.{schedule, waits}

pub schedule_keeps :
    (parent : Location) (ready : List ℕ) (scheduled : List Location) (loc : Location)
    → contains scheduled loc ≡ true
    → contains (schedule parent ready scheduled) loc ≡ true
unfolding schedule
schedule_keeps parent [] scheduled loc h = h
schedule_keeps parent (n ∷ ready) scheduled loc h =
    schedule_keeps parent ready (add (with_node parent n) scheduled) loc
      (ground (arith, h, contains-add (with_node parent n) loc scheduled))

pub schedule_marks :
    (parent : Location) (ready : List ℕ) (scheduled : List Location) (n : ℕ)
    → contains ready n ≡ true
    → contains (schedule parent ready scheduled) (with_node parent n) ≡ true
unfolding schedule
schedule_marks parent [] scheduled n h = ground (arith, h)
schedule_marks parent (m ∷ ready) scheduled n h = elim (Bool-cases (m == n)) [
  | inl e ↦ rw ((nat_beq_iff m n).0 e) (
      schedule_keeps parent ready (add (with_node parent n) scheduled) (with_node parent n) (
        ground (
          arith,
          contains-add (with_node parent n) (with_node parent n) scheduled,
          list_beq_iff component_eq (with_node parent n) (with_node parent n),
        )))
  | inr e ↦
      schedule_marks parent ready (add (with_node parent m) scheduled) n (ground (arith, h, e))
]

pub longer_location :
    (loc parent : Location) (n : ℕ) → length loc ≤ length parent → with_node parent n == loc ≡ false
longer_location loc parent n h = elim (Bool-cases (with_node parent n == loc)) [
  | inl e ↦
      let same = (list_beq_iff component_eq (with_node parent n) loc).0 e in
      absurd (omega (arith, h, ap length same, length-append parent (node n ∷ [])))
  | inr e ↦ e
]

with_node-injective :
    (parent : Location) (n m : ℕ) → with_node parent n ≡ with_node parent m → n ≡ m
with_node-injective [] n m h = cc
with_node-injective (c ∷ parent) n m h = with_node-injective parent n m (cc h)

-- the location of a node that does not wait is not that of one that does
pub other_location :
    {P : PortGraph} {J : Type 0} (g : WorkflowGraph P J) (nodes : Nodes) (parent : Location) (n : ℕ)
    → waits g nodes parent n ≡ false
    → (m : ℕ) → waits g nodes parent m ≡ true
    → with_node parent m == with_node parent n ≡ false
other_location g nodes parent n w m v =
    elim (Bool-cases (with_node parent m == with_node parent n)) [
      | inl e ↦
          let same =
            with_node-injective parent m n
              ((list_beq_iff component_eq (with_node parent m) (with_node parent n)).0 e) in
          absurd (ground (arith, w, v, same))
      | inr e ↦ e
    ]
