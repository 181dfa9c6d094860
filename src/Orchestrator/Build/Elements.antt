-- ===== src/Orchestrator/Build/Elements.antt =====
-- The elements of a `Map` node in tierkreis/src/orchestrator.rs: the input sets that
-- `build_initial_map_actions` fills, and the bundles that `build_completed_map_action` folds.
use mathlib.Core.List.{append_assoc, append-nil}
use tierkreis.Base.{
  ℕ, zero, suc, ◌≡◌, refl, sym, ◌∙◌, String, Bool, true, false, none, some, List, [], ◌∷◌, ◌++◌,
  arith, Outcome, ok, err, panic, ok-injective, if◌then◌else◌, Bool-cases, inl, inr, ◌==◌,
  string_eq, length, ltb,
}
use tierkreis.Base.Map.{Map, insert, get_or_default, get_or_default-insert}
use tierkreis.Location.{Location, map_index, with_node, with_map_index}
use tierkreis.Asset.{AssetSpec, Assets}
use tierkreis.State.Runtime.{read}
use tierkreis.Graph.{PortGraph}
use tierkreis.Orchestrator.Build.{Services}
use tierkreis.Orchestrator.Build.Nested.{insert_unfolded, push_outputs, bundle_outputs}

abbrev pub panics {ℓ} : {A : Type ℓ} → Outcome A → Bool
panics (ok a) = false
panics (err e) = false
panics panic = true

-- Putting the assets of a mapped port into the input sets panics exactly when there are more assets
-- than sets.
pub panics-insert_unfolded :
    (port : String) (assets : List AssetSpec) (input_sets : List Assets)
    → panics (insert_unfolded port assets input_sets) ≡ ltb (length input_sets) (length assets)
unfolding insert_unfolded
panics-insert_unfolded port [] input_sets = ground arith
panics-insert_unfolded port (asset ∷ assets) [] = ground arith
panics-insert_unfolded port (asset ∷ assets) (input_set ∷ input_sets) =
    ground (arith, panics-insert_unfolded port assets input_sets)

-- the assets of a name among the outputs of an element
abbrev pub values_of : String → Assets → List AssetSpec
values_of k [] = []
values_of k ((j, v) ∷ outputs) = let rest = values_of k outputs in if j == k then v ∷ rest else rest

push_outputs_lem :
    (k : String) (outputs : Assets) (bundles : Map String (List AssetSpec))
    → get_or_default [] (push_outputs outputs bundles) k
      ≡ get_or_default [] bundles k ++ values_of k outputs
unfolding push_outputs
push_outputs_lem k [] bundles = sym (append-nil (get_or_default [] bundles k))
push_outputs_lem k ((j, v) ∷ outputs) bundles =
    push_outputs_lem k outputs (insert bundles j (get_or_default [] bundles j ++ v ∷ []))
    ∙ elim (Bool-cases (j == k)) [
      | inl same ↦
          rw
            (
              get_or_default-insert [] bundles j k (get_or_default [] bundles j ++ v ∷ []),
              same,
              (string_eq.beq_iff j k).0 same,
            )
            (append_assoc (get_or_default [] bundles k) (v ∷ []) (values_of k outputs))
      | inr other ↦
          rw (get_or_default-insert [] bundles j k (get_or_default [] bundles j ++ v ∷ []), other)
            refl
    ]

module _ {P : PortGraph} {J W : Type 0} (env : Services P J W) (loc : Location)
    (output_node : ℕ) where
  -- the outputs that the element of an index has
  abbrev pub element_outputs : ℕ → Assets
  element_outputs index =
      elim (read env.run (with_node (loc ++ map_index index ∷ []) output_node) env.state) [
        | ok state ↦ elim state.outputs [ none ↦ [] | some outputs ↦ outputs ]
        | err e ↦ []
        | panic ↦ []
      ]

  -- the assets of a name that so many elements have, from an index on
  abbrev pub gathered : String → ℕ → ℕ → List AssetSpec
  gathered k index zero = []
  gathered k index (suc left) = values_of k (element_outputs index) ++ gathered k (suc index) left

  -- one element of the loop
  element_lem :
      (index left : ℕ) (bundles result : Map String (List AssetSpec))
      → bundle_outputs env loc output_node index (suc left) bundles ≡ ok result
      → bundle_outputs env loc output_node
          (suc index)
          left
          (push_outputs (element_outputs index) bundles)
        ≡ ok result
  unfolding bundle_outputs with_map_index
  element_lem index left bundles result h = ground (arith, h)

  -- What a completed `Map` node folds under a name are the assets that its elements have under that
  -- name, in the order of the elements, after those that were there before.
  pub bundle_outputs_lem :
      (k : String) (index left : ℕ) (bundles result : Map String (List AssetSpec))
      → bundle_outputs env loc output_node index left bundles ≡ ok result
      → get_or_default [] result k ≡ get_or_default [] bundles k ++ gathered k index left
  unfolding bundle_outputs
  bundle_outputs_lem k index zero bundles result h =
      rw (← ok-injective h) (sym (append-nil (get_or_default [] bundles k)))
  bundle_outputs_lem k index (suc left) bundles result h =
      bundle_outputs_lem k (suc index) left (push_outputs (element_outputs index) bundles) result
        (element_lem index left bundles result h)
      ∙ rw (push_outputs_lem k (element_outputs index) bundles) (
          append_assoc (get_or_default [] bundles k) (values_of k (element_outputs index))
            (gathered k (suc index) left))
