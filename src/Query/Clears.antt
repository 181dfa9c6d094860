-- ===== src/Query/Clears.antt =====
-- `build_node_copy_filter` of tierkreis/src/workflow_state_query.rs: what a restart of a location
-- clears and truncates, and how it finds the graphs of the nodes on the way.
use mathlib.Core.List.{append_assoc, append-nil}
use tierkreis.Base.{
  ℕ, ◌≡◌, refl, ap, sym, ◌∙◌, Bool, true, not, ◌||◌, List, [], ◌∷◌, ◌++◌, arith, Outcome, ok, ◌>>=◌,
  >>=-eq-ok, contains, contains-add, list_beq_iff, if◌then◌else◌, ◌==◌, add,
}
use tierkreis.Base.Map.{insert}
use tierkreis.Bits.{BitOps}
use tierkreis.Location.{
  Component, node, loop_index, map_index, Location, location_eq, component_eq, root, with_node,
  with_loop_index, with_map_index, is_ancestor,
}
use tierkreis.Location.Order.{is_ancestor_iff}
use tierkreis.Asset.{AssetSpec}
use tierkreis.State.{Nodes}
use tierkreis.Graph.{PortGraph, WorkflowGraph}
use tierkreis.Copy.{NodeCopyFilter, union}
use tierkreis.Copy.Merge.{contains-union}
use tierkreis.Query.{walk, graph_for, single_bit, dependent_locations, build_node_copy_filter}

with_map_index-eq-ok :
    (working : Location) (index : ℕ) {loc : Location}
    → with_map_index working index ≡ ok loc
    → working ++ map_index index ∷ [] ≡ loc
unfolding with_map_index
with_map_index-eq-ok working index h = ground arith

module _ (location l : Location) where
  -- a filter that clears the location, and truncates `l` only as an ancestor of it
  abbrev Within : NodeCopyFilter → Type 0
  Within acc =
      (contains acc.clear_roots location ≡ true)
      × ((not (contains acc.truncate_exact l) || is_ancestor l location) ≡ true)

  truncates-Within :
      (truncated : List Location) (working : Location) (components : List Component)
      → location ≡ working ++ components
      → (not (contains truncated l) || is_ancestor l location) ≡ true
      → (not (contains (if working == location then truncated else add working truncated) l)
          || is_ancestor l location)
        ≡ true
  truncates-Within truncated working [] e h =
      rw ((list_beq_iff component_eq working location).1 (sym (e ∙ append-nil working))) h
  truncates-Within truncated working (c ∷ rest) e h =
      let above : is_ancestor working location ≡ true =
        (is_ancestor_iff working location).1 (c, rest, e) in
      let same : working ≡ l → is_ancestor l location ≡ true =
        λ q. ap (λ w. is_ancestor w location) (sym q) ∙ above in
      ground (arith, contains-add working l truncated, list_beq_iff component_eq working l, same)

module _ {P : PortGraph} {J : Type 0} (bits : BitOps) (read_many : List Location → Outcome Nodes)
    (load_subgraph : AssetSpec → Outcome (WorkflowGraph P J)) (location l : Location) where
  abbrev node_step : WorkflowGraph P J → Location → ℕ → NodeCopyFilter → NodeCopyFilter
  node_step g' working n acc = record acc {
    clear_roots =
        union acc.clear_roots (dependent_locations P bits read_many load_subgraph g' working n);
    truncate_exact =
        if with_node working n == location
        then acc.truncate_exact
        else add (with_node working n) acc.truncate_exact;
  }

  abbrev after_node :
      Location → ℕ → List Component → NodeCopyFilter → WorkflowGraph P J → Outcome NodeCopyFilter
  after_node working n components acc g' =
      walk P bits read_many load_subgraph location components g' (with_node working n)
        (node_step g' working n acc)

  abbrev after_element :
      Location
      → List Component
      → WorkflowGraph P J
      → NodeCopyFilter
      → List Bool
      → Location
      → Outcome NodeCopyFilter
  after_element working components g acc bitset working' =
      walk P bits read_many load_subgraph location components g working'
        (record acc { reset_map_elems = insert acc.reset_map_elems working bitset })

  walk-Within :
      (components : List Component) (g : WorkflowGraph P J) (working : Location)
      (acc : NodeCopyFilter) {f : NodeCopyFilter}
      → location ≡ working ++ components
      → Within location l acc
      → walk P bits read_many load_subgraph location components g working acc ≡ ok f
      → Within location l f
  unfolding walk
  walk-Within [] g working acc e w h = (cc (w.0, h), cc (w.1, h))
  walk-Within (node n ∷ components) g working acc e w h =
      let (g', e1, e2) =
        >>=-eq-ok (graph_for P bits read_many load_subgraph g working)
          (after_node working n components acc) h in
      walk-Within components g' (with_node working n) (node_step g' working n acc)
        (e ∙ sym (append_assoc working (node n ∷ []) components))
        (
          rw
              (
                contains-union acc.clear_roots
                    (dependent_locations P bits read_many load_subgraph g' working n) location,
                w.0,
              )
              refl,
          truncates-Within location l acc.truncate_exact (with_node working n) components
              (e ∙ sym (append_assoc working (node n ∷ []) components)) (w.1),
        )
        e2
  walk-Within (loop_index i ∷ components) g working acc e w h =
      walk-Within components g (with_loop_index working i) _
        (e ∙ sym (append_assoc working (loop_index i ∷ []) components)) w h
  walk-Within (map_index i ∷ components) g working acc e w h =
      let (bitset, e1, e2) =
        >>=-eq-ok (single_bit P bits read_many load_subgraph i)
          (λ bitset. with_map_index working i >>= after_element working components g acc bitset)
          h in
      let (working', e3, e4) =
        >>=-eq-ok (with_map_index working i) (after_element working components g acc bitset) e2 in
      walk-Within components g working' _
        (e
          ∙ sym (append_assoc working (map_index i ∷ []) components)
          ∙ ap (λ v. v ++ components) (with_map_index-eq-ok working i e3))
        w e4

  -- the location itself is cleared
  pub clears_location :
      (g : WorkflowGraph P J) {f : NodeCopyFilter}
      → build_node_copy_filter P bits read_many load_subgraph g location ≡ ok f
      → contains f.clear_roots location ≡ true
  unfolding build_node_copy_filter
  clears_location g h =
      let w =
        walk-Within location g root _ refl
          (ground (arith, list_beq_iff component_eq location location), refl) h in
      w.0

  -- A restart clears the location itself, and every location that it truncates is an ancestor of the
  -- location.
  pub build_node_copy_filter_lem :
      (g : WorkflowGraph P J) {f : NodeCopyFilter}
      → build_node_copy_filter P bits read_many load_subgraph g location ≡ ok f
      → (contains f.clear_roots location ≡ true)
        × ((not (contains f.truncate_exact l) || is_ancestor l location) ≡ true)
  unfolding build_node_copy_filter
  build_node_copy_filter_lem g h =
      walk-Within location g root _ refl
        (ground (arith, list_beq_iff component_eq location location), refl) h
