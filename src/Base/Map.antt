-- ===== src/Base/Map.antt =====
-- `HashMap`, `BTreeMap` and `DashMap` as association lists. The order of a hash map's entries is not
-- specified by the language.
use mathlib.Core.Path.{◌≡◌, refl}
use mathlib.Core.List.{List, [], ◌∷◌}
use mathlib.Core.Option.{Option, none, some}
use native.Mathlib.Omega.{arith}
use mathlib.Core.Bool.{false}
use tierkreis.Base.Tests.{Eq, ◌==◌, if◌then◌else◌, Bool-cases}
use mathlib.Core.Logic.{inl, inr}

abbrev pub Map {ℓ κ} : Type ℓ → Type κ → Type (ℓ ⊔ κ)
Map K V = List (K × V)

-- the second, or else the first
abbrev pub later {κ} : {V : Type κ} → Option V → Option V → Option V
later a none = a
later a (some v) = some v

module _ {ℓ κ} {K : Type ℓ} {V : Type κ} ⦃e : Eq K⦄ where
  unfoldable pub get : Map K V → K → Option V
  get [] k = none
  get ((j, v) ∷ m) k = if j == k then some v else get m k

  -- an entry keeps its place when it is overwritten
  unfoldable pub insert : Map K V → K → V → Map K V
  insert [] k v = (k, v) ∷ []
  insert ((j, w) ∷ m) k v = if j == k then (k, v) ∷ m else (j, w) ∷ insert m k v

  unfoldable pub remove : Map K V → K → Map K V
  remove [] k = []
  remove ((j, w) ∷ m) k = let rest = remove m k in if j == k then rest else (j, w) ∷ rest

  -- `extend`: the new entries win; those of a map have distinct keys, so their order is no matter
  unfoldable pub extend : Map K V → Map K V → Map K V
  unfolding insert
  extend m [] = m
  extend m ((k, v) ∷ n) = insert (extend m n) k v

  unfoldable pub get_or_default : V → Map K V → K → V
  unfolding get
  get_or_default d m k = elim (get m k) [ none ↦ d | some v ↦ v ]

  pub get-insert :
      (m : Map K V) (k j : K) (v : V) → get (insert m k v) j ≡ (if k == j then some v else get m j)
  unfolding get insert
  get-insert [] k j v = refl
  get-insert ((i, w) ∷ m) k j v =
      ground (arith, e.beq_iff k j, e.beq_iff i k, e.beq_iff i j, get-insert m k j v)

  pub get-remove : (m : Map K V) (k j : K) → get (remove m k) j ≡ (if k == j then none else get m j)
  unfolding get remove
  get-remove [] k j = ground arith
  get-remove ((i, w) ∷ m) k j =
      ground (arith, e.beq_iff k j, e.beq_iff i k, e.beq_iff i j, get-remove m k j)

  pub get-insert_other :
      (m : Map K V) (k j : K) (v : V) → (k == j) ≡ false → get (insert m k v) j ≡ get m j
  get-insert_other m k j v h = rw (get-insert, h) refl

  pub get-remove_other : (m : Map K V) (k j : K) → (k == j) ≡ false → get (remove m k) j ≡ get m j
  get-remove_other m k j h = rw (get-remove, h) refl

  pub get-insert_self : (m : Map K V) (k : K) (v : V) → get (insert m k v) k ≡ some v
  get-insert_self m k v = rw (get-insert, (e.beq_iff k k).1 refl)

  pub get-remove_self : (m : Map K V) (k : K) → get (remove m k) k ≡ none
  get-remove_self m k = rw (get-remove, (e.beq_iff k k).1 refl)

  pub get_or_default-insert :
      (d : V) (m : Map K V) (k j : K) (v : V)
      → get_or_default d (insert m k v) j ≡ (if k == j then v else get_or_default d m j)
  unfolding get_or_default
  get_or_default-insert d m k j v = rw (get-insert, get_or_default) (ground arith)

  -- no key has two entries
  abbrev pub Unique : Map K V → Type κ
  Unique [] = Unit
  Unique ((k, v) ∷ m) = (get m k ≡ none) × Unique m

  pub get-extend : (m n : Map K V) (j : K) → get (extend m n) j ≡ later (get m j) (get n j)
  unfolding extend get
  get-extend m [] j = refl
  get-extend m ((k, v) ∷ n) j = ground (arith, get-insert (extend m n) k j v, get-extend m n j)

  pub get_or_default_of_some :
      (d : V) (m : Map K V) (k : K) {v : V} → get m k ≡ some v → get_or_default d m k ≡ v
  unfolding get_or_default
  get_or_default_of_some d m k h = rw (h, get_or_default)

  pub insert-Unique : (m : Map K V) (k : K) (v : V) → Unique m → Unique (insert m k v)
  unfolding insert get
  insert-Unique [] k v u = (refl, tt)
  insert-Unique ((j, w) ∷ m) k v u = elim (Bool-cases (j == k)) [
    | inl same ↦ rw same (rw ((e.beq_iff j k).0 same) at (u.0), u.1)
    | inr other ↦ rw other (
      rw (get-insert m k j v) (ground (arith, e.beq_iff j k, e.beq_iff k j, u.0)),
      insert-Unique m k v u.1,
    )
  ]

  pub extend-Unique : (m n : Map K V) → Unique m → Unique (extend m n)
  unfolding extend
  extend-Unique m [] u = u
  extend-Unique m ((k, v) ∷ n) u = insert-Unique (extend m n) k v (extend-Unique m n u)
