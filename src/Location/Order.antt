-- ===== src/Location/Order.antt =====
-- Prefixes of locations: `is_ancestor`, `node_ancestors`, `parent` and `split_last` of
-- tierkreis/src/location.rs against concatenation of paths.
use mathlib.Core.Bool.{false≢true}
use mathlib.Core.List.{append_assoc, append-nil}
use tierkreis.Base.{
  ◌<◌, ◌≡◌, ◌↔◌, inl, inr, refl, ap, sym, ◌∙◌, true, some, [], ◌∷◌, ◌++◌, arith, length, last,
  drop_last, last-concat, drop_last-concat, contains, list_beq_iff, list_beq, Bool-cases,
  Option-cases,
}
use tierkreis.Location.{
  Component, component_eq, component_beq_iff, Location, location_eq, zip_agree, is_ancestor,
  split_last, scan_prefixes, node_ancestors, root,
}

-- `b` continues `a` by at least one component
abbrev pub Extends : Location → Location → Type 0
Extends a b = (c : Component) × (rest : Location) × (b ≡ a ++ c ∷ rest)

zip_agree_sound : (b a : Location) → length a < length b → zip_agree b a ≡ true → Extends a b
zip_agree_sound [] a h z = absurd (omega arith)
zip_agree_sound (x ∷ b) [] h z = (x, b, refl)
zip_agree_sound (x ∷ b) (y ∷ a) h z =
    let (c, rest, e) = zip_agree_sound b a (omega arith) (ground arith) in
    (c, rest, cc (e, (component_beq_iff x y).0 (ground arith)))

zip_agree_complete :
    (a : Location) (c : Component) (rest : Location) → zip_agree (a ++ c ∷ rest) a ≡ true
zip_agree_complete [] c rest = refl
zip_agree_complete (x ∷ a) c rest =
    ground (arith, component_beq_iff x x, zip_agree_complete a c rest)

length-lt-append :
    (a : Location) (c : Component) (rest : Location) → length a < length (a ++ c ∷ rest)
length-lt-append [] c rest = omega arith
length-lt-append (x ∷ a) c rest = omega (arith, length-lt-append a c rest)

-- One location is an ancestor of another exactly when the other continues its path by at least one
-- component.
pub is_ancestor_iff : (a b : Location) → (is_ancestor a b ≡ true) ↔ Extends a b
unfolding is_ancestor
is_ancestor_iff a b = (
  λ h. zip_agree_sound b a (ground arith) (ground arith),
  λ (c, rest, e). rw e (ground (arith, length-lt-append a c rest, zip_agree_complete a c rest)),
)

module _ (a : Location) where
  scan_sound :
      (p rest : Location)
      → contains (scan_prefixes p rest) a ≡ true
      → (u : Location) × (c : Component) × (v : Location) × (rest ≡ u ++ c ∷ v) × (a ≡ p ++ u)
  scan_sound p [] h = absurd (false≢true h)
  scan_sound p (c ∷ rest) h = elim (Bool-cases (list_beq component_eq p a)) [
    | inl e ↦ ([], c, rest, refl, sym ((list_beq_iff component_eq p a).0 e) ∙ sym (append-nil p))
    | inr e ↦
        let (u, d, v, s, t) = scan_sound (p ++ c ∷ []) rest (rw e at h) in
        (c ∷ u, d, v, ap (◌∷◌ c) s, t ∙ append_assoc p (c ∷ []) u)
  ]

  scan_complete :
      (p u : Location) (c : Component) (v : Location)
      → a ≡ p ++ u
      → contains (scan_prefixes p (u ++ c ∷ v)) a ≡ true
  scan_complete p [] c v e = rw ((list_beq_iff component_eq p a).1 (sym (e ∙ append-nil p)))
  scan_complete p (x ∷ u) c v e = elim (Bool-cases (list_beq component_eq p a)) [
    | inl y ↦ rw y
    | inr n ↦ rw n (scan_complete (p ++ x ∷ []) u c v (e ∙ sym (append_assoc p (x ∷ []) u)))
  ]

-- The iterator of ancestors yields exactly the locations for which `is_ancestor` holds.
pub node_ancestors_iff :
    (a b : Location) → (contains (node_ancestors b) a ≡ true) ↔ (is_ancestor a b ≡ true)
unfolding node_ancestors
node_ancestors_iff a b = (
  λ h.
      let (u, c, v, s, t) = scan_sound a root b h in
      (is_ancestor_iff a b).1 (c, v, s ∙ ap (λ w. w ++ c ∷ v) (sym t)),
  λ h. let (c, v, s) = (is_ancestor_iff a b).0 h in rw s (scan_complete a root a c v refl),
)

concat_of_last : (l : Location) (c : Component) → last l ≡ some c → l ≡ drop_last l ++ c ∷ []
concat_of_last [] c h = cc
concat_of_last (x ∷ []) c h = cc
concat_of_last (x ∷ y ∷ l) c h = ap (◌∷◌ x) (concat_of_last (y ∷ l) c h)

split_last-eq-some : (l p : Location) (c : Component) → split_last l ≡ some (p, c) → l ≡ p ++ c ∷ []
unfolding split_last
split_last-eq-some l p c h = elim (Option-cases (last l)) [
  | inl n ↦ cc (rw (n, split_last) at h)
  | inr (d, e) ↦
      let h' : some (drop_last l, d) ≡ some (p, c) = rw (e, split_last) at h in
      cc (h', concat_of_last l d e)
]

split_last-concat : (p : Location) (c : Component) → split_last (p ++ c ∷ []) ≡ some (p, c)
unfolding split_last
split_last-concat p c = rw (last-concat p c, split_last) (rw (drop_last-concat p c))

-- Splitting off the last component yields a parent and a component exactly when the location is that
-- parent's path with that component behind it.
pub split_last_iff :
    (l p : Location) (c : Component) → (split_last l ≡ some (p, c)) ↔ (l ≡ p ++ c ∷ [])
unfolding split_last
split_last_iff l p c = (split_last-eq-some l p c, λ e. ap split_last e ∙ split_last-concat p c)
