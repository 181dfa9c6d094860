-- ===== src/Orchestrator/Plan/Elements.antt =====
-- The elements of map nodes that a plan of tierkreis/src/orchestrator.rs marks as complete.
use native.Mathlib.Decide.{dec_lt}
use tierkreis.Base.{
  ℕ, ◌≡◌, refl, ap, sym, ◌∙◌, Bool, true, false, ◌&&◌, ◌||◌, String, List, [], ◌∷◌, arith, ok,
  >>=-eq-ok, ok-injective, any, ◌==◌, nat_beq, nat_beq_iff, map, list_beq_iff, length, Option-cases,
  inl, inr, Bool-cases,
}
use tierkreis.Base.Map.{Map, get, insert, get_or_default, get_or_default-insert}
use tierkreis.Bits.{BitVec, BitOps, BitLaws, bit}
use tierkreis.Location.{Location, location_eq, component_eq}
use tierkreis.Orchestrator.Plan.{
  ActionKind, set_map_elem_complete, Action, ActionPlan, empty_plan, plan_action, plan_actions,
}

-- the action marks element `i` of the map node at `l`
abbrev pub marks : {J : Type 0} → Location → ℕ → Location → ActionKind J → Bool
marks l i loc (set_map_elem_complete size index) = loc == l && nat_beq index i
marks l i loc _ = false

module _ (bits : BitOps) (laws : BitLaws bits) where
  bit-set_at :
      (b c : BitVec) (index i : ℕ)
      → bit c index ≡ true
      → (¬ (index ≡ i) → bit c i ≡ bit b i)
      → bit c i ≡ (bit b i || nat_beq index i)
  bit-set_at b c index i s o = elim (Bool-cases (nat_beq index i)) [
    | inl y ↦ rw (y, ◌||◌) (ap (bit c) (sym ((nat_beq_iff index i).0 y)) ∙ s ∙ ground arith)
    | inr z ↦ ground (arith, nat_beq_iff index i)
  ]

  -- a bit that was set is set, and no other one changed
  bit-set_bit :
      (b b' : BitVec) (index i : ℕ)
      → bits.set_bit b index ≡ ok b'
      → bit b' i ≡ (bit b i || nat_beq index i)
  bit-set_bit b b' index i h = elim (dec_lt index (length b)) [
    | yes l ↦
        let (c, e, n, s, o) = laws.set_bit_lem b index l in
        let same : c ≡ b' = ok-injective (sym e ∙ h) in
        ap (λ v. bit v i) (sym same) ∙ bit-set_at b c index i s (o i)
    | no g ↦ absurd (let e = laws.set_bit_panics b index (omega arith) in cc)
  ]

  bit-default :
      (m : Map Location BitVec) (l : Location) (size i : ℕ)
      → bit (get_or_default (bits.repeat false size) m l) i ≡ bit (get_or_default [] m l) i
  unfolding get_or_default
  bit-default m l size i = elim (Option-cases (get m l)) [
    | inl e ↦ rw (e, get_or_default) (laws.bit-repeat_false size i)
    | inr (b, e) ↦ rw (e, get_or_default) refl
  ]

  plan_action-bit :
      {J : Type 0} (executor storage : String) (run attempt : ℕ) (l : Location) (i : ℕ)
      (loc : Location) (kind : ActionKind J) (plan plan' : ActionPlan J)
      → plan_action bits executor storage run attempt loc kind plan ≡ ok plan'
      → bit (get_or_default [] plan'.map_elem_complete l) i
        ≡ (bit (get_or_default [] plan.map_elem_complete l) i || marks l i loc kind)
  unfolding plan_action
  plan_action-bit executor storage run attempt l i loc (set_map_elem_complete size index) plan plan'
        h =
      let before = get_or_default (bits.repeat false size) plan.map_elem_complete loc in
      let (entry, e1, e2) =
        >>=-eq-ok (bits.set_bit before index)
          (λ entry.
            ok (record plan { map_elem_complete = insert plan.map_elem_complete loc entry }))
          h in
      ap (λ p. bit (get_or_default [] p.map_elem_complete l) i) (sym (ok-injective e2))
      ∙ ap (λ v. bit v i) (get_or_default-insert [] plan.map_elem_complete loc l entry)
      ∙ elim (Bool-cases (loc == l)) [
        | inl y ↦
            let same =
              ap (λ k. bit (get_or_default [] plan.map_elem_complete k) i)
                ((list_beq_iff component_eq loc l).0 y) in
            rw y (
              bit-set_bit before entry index i e1
              ∙ ap (λ b. b || nat_beq index i)
                  (bit-default plan.map_elem_complete loc size i ∙ same))
        | inr z ↦ rw z (ground arith)
      ]
  plan_action-bit executor storage run attempt l i loc kind plan plan' h = ground arith

  plan_actions-bit :
      {J : Type 0} (executor storage : String) (run attempt : ℕ) (l : Location) (i : ℕ)
      (actions : List (Action J)) (plan : ActionPlan J) {plan' : ActionPlan J}
      → plan_actions bits executor storage run attempt (map ok actions) plan ≡ ok plan'
      → bit (get_or_default [] plan'.map_elem_complete l) i ≡ (
          bit (get_or_default [] plan.map_elem_complete l) i
          || any (λ a. marks l i a.loc a.kind) actions)
  unfolding plan_actions
  plan_actions-bit executor storage run attempt l i [] plan h =
      ap (λ p. bit (get_or_default [] p.map_elem_complete l) i) (sym (ok-injective h))
      ∙ ground arith
  plan_actions-bit executor storage run attempt l i (a ∷ actions) plan h =
      let (next, e1, e2) =
        >>=-eq-ok (plan_action bits executor storage run attempt a.loc a.kind plan)
          (plan_actions bits executor storage run attempt (map ok actions)) h in
      plan_actions-bit executor storage run attempt l i actions next e2
      ∙ ap (λ b. b || any (λ a. marks l i a.loc a.kind) actions)
          (plan_action-bit executor storage run attempt l i a.loc a.kind plan next e1)
      ∙ ground arith

  -- In a plan that is built from actions, an element of a map node is marked as complete exactly when
  -- one of the actions completes that element.
  pub plan_actions-elements :
      {J : Type 0} (executor storage : String) (run attempt : ℕ) (l : Location) (i : ℕ)
      (actions : List (Action J)) {plan : ActionPlan J}
      → plan_actions bits executor storage run attempt (map ok actions) empty_plan ≡ ok plan
      → bit (get_or_default [] plan.map_elem_complete l) i
        ≡ any (λ a. marks l i a.loc a.kind) actions
  unfolding get_or_default get
  plan_actions-elements executor storage run attempt l i actions h =
      plan_actions-bit executor storage run attempt l i actions empty_plan h
