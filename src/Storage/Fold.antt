-- ===== src/Storage/Fold.antt =====
-- Folding assets into one and unfolding it: `fold_assets` and `unfold_asset` of
-- tierkreis/src/asset_storage.rs.
use tierkreis.Base.{
  ◌≡◌, refl, ap, sym, ◌∙◌, String, true, some, List, [], ◌∷◌, Outcome, ok, ◌>>=◌, >>=-eq-ok,
  ok-injective, arith, string_eq, nat_eq, Bool-cases, inl, inr,
}
use tierkreis.Base.Map.{get}
use tierkreis.Asset.{AssetKind, AssetSpec, Assets}
use tierkreis.Storage.{
  Bytes, Storages, Json, require, load_asset_from_spec, save_fresh, save_values, unfold_asset,
  load_values, fold_assets,
}
use tierkreis.Storage.Laws.{StorageLaws, JsonLaws}

module _ {W : Type 0} (storages : Storages W) (laws : StorageLaws storages) where
  save_fresh-eq-ok :
      (name : String) (value : Bytes) (w : W) {spec : AssetSpec} {w' : W}
      → save_fresh storages name value w ≡ ok (spec, w')
      → (kind : AssetKind) × (storages.save name (storages.draw w).0 value (storages.draw w).1
          ≡ ok (kind, w'))
        × (spec ≡ record { kind = kind; storage_name = name; asset_key = (storages.draw w).0 })
  unfolding save_fresh
  save_fresh-eq-ok name value w h =
      let ((kind, saved), e1, e2) =
        >>=-eq-ok (storages.save name (storages.draw w).0 value (storages.draw w).1)
          (λ p.
            ok (record { kind = p.0; storage_name = name; asset_key = (storages.draw w).0 }, p.1))
          h in
      (kind, cc (e1, ok-injective e2), cc (ok-injective e2))

  -- a fresh asset leaves the others as they are
  load-save_fresh :
      (name : String) (value : Bytes) (w : W) {spec : AssetSpec} {w' : W} (other : AssetSpec)
      {b : Bytes}
      → save_fresh storages name value w ≡ ok (spec, w')
      → load_asset_from_spec storages other w ≡ ok b
      → load_asset_from_spec storages other w' ≡ ok b
  unfolding load_asset_from_spec
  load-save_fresh name value w {spec} {w'} other h l =
      let (kind, e, s) = save_fresh-eq-ok name value w h in
      ground (
        arith,
        laws.load-save (storages.draw w).1 w' name (storages.draw w).0 value kind e
            other.storage_name other.asset_key,
        laws.load-draw w other.storage_name other.asset_key,
        laws.drawn_unused w other.storage_name,
        string_eq.beq_iff name other.storage_name,
      )

  load-save_fresh_self :
      (name : String) (value : Bytes) (w : W) {spec : AssetSpec} {w' : W}
      → storages.contains_key name ≡ true
      → save_fresh storages name value w ≡ ok (spec, w')
      → load_asset_from_spec storages spec w' ≡ ok value
  unfolding load_asset_from_spec
  load-save_fresh_self name value w {spec} {w'} known h =
      let (kind, e, s) = save_fresh-eq-ok name value w h in
      rw s (
        ground (
          arith,
          laws.load-save (storages.draw w).1 w' name (storages.draw w).0 value kind e name
              (storages.draw w).0,
          string_eq.beq_iff name name,
        ))

  module _ {J : Type 0} (json : Json J) (json_laws : JsonLaws json) (name : String) where
    save_values-eq-ok :
        (value : J) (values : List J) (w : W) {specs : List AssetSpec} {w' : W}
        → save_values storages json name (value ∷ values) w ≡ ok (specs, w')
        → (b : Bytes) × (spec : AssetSpec) × (mid : W) × (rest : List AssetSpec) × (json.to_vec
              value
            ≡ ok b)
          × (save_fresh storages name b w ≡ ok (spec, mid))
          × (save_values storages json name values mid ≡ ok (rest, w'))
          × (specs ≡ spec ∷ rest)
    unfolding save_values
    save_values-eq-ok value values w h =
        let (b, e1, h1) =
          >>=-eq-ok (json.to_vec value)
            (λ b. save_fresh storages name b w >>= λ p.
              save_values storages json name values p.1 >>= λ q. ok (p.0 ∷ q.0, q.1))
            h in
        let (p, e2, h2) =
          >>=-eq-ok (save_fresh storages name b w)
            (λ p. save_values storages json name values p.1 >>= λ q. ok (p.0 ∷ q.0, q.1)) h1 in
        let (q, e3, h3) =
          >>=-eq-ok (save_values storages json name values p.1) (λ q. ok (p.0 ∷ q.0, q.1)) h2 in
        (b, p.0, p.1, q.0, e1, e2, cc (e3, ok-injective h3), cc (ok-injective h3))

    -- what was saved before stays
    load-save_values :
        (values : List J) (w : W) {specs : List AssetSpec} {w' : W} (other : AssetSpec) {b : Bytes}
        → save_values storages json name values w ≡ ok (specs, w')
        → load_asset_from_spec storages other w ≡ ok b
        → load_asset_from_spec storages other w' ≡ ok b
    unfolding save_values
    load-save_values [] w other h l = cc (ok-injective h, l)
    load-save_values (value ∷ values) w other h l =
        let (b, spec, mid, rest, e1, e2, e3, e4) = save_values-eq-ok value values w h in
        load-save_values values mid other e3 (load-save_fresh name b w other e2 l)

    -- the saved values are the ones that are loaded
    load_values-save_values :
        (values : List J) (w : W) {specs : List AssetSpec} {w' : W}
        → storages.contains_key name ≡ true
        → save_values storages json name values w ≡ ok (specs, w')
        → load_values storages json specs w' ≡ ok values
    unfolding save_values load_values
    load_values-save_values [] w known h = rw (← ap (λ p. p.0) (ok-injective h)) refl
    load_values-save_values (value ∷ values) w {specs} {w'} known h =
        let (b, spec, mid, rest, e1, e2, e3, e4) = save_values-eq-ok value values w h in
        let loaded = load-save_values values mid spec e3 (load-save_fresh_self name b w known e2) in
        rw (e4, load_values)
          (rw
            (
              loaded,
              json_laws.from_slice-to_vec value b e1,
              load_values-save_values values mid known e3,
            )
            refl)

    require-eq-ok :
        {A : Type 0} (next : Outcome A) {a : A}
        → (require storages name >>= λ _. next) ≡ ok a
        → (storages.contains_key name ≡ true) × (next ≡ ok a)
    require-eq-ok next h = elim (Bool-cases (storages.contains_key name)) [
      | inl y ↦ (y, rw y at h)
      | inr n ↦ cc (rw n at h)
    ]

    fold_assets-eq-ok :
        (specs : List AssetSpec) (w : W) {spec : AssetSpec} {w1 : W}
        → fold_assets storages json name specs w ≡ ok (spec, w1)
        → (values : List J) × (b : Bytes) × (load_values storages json specs w ≡ ok values)
          × (storages.contains_key name ≡ true)
          × (json.list_to_vec values ≡ ok b)
          × (save_fresh storages name b w ≡ ok (spec, w1))
    unfolding fold_assets
    fold_assets-eq-ok specs w h =
        let (values, e1, h1) =
          >>=-eq-ok (load_values storages json specs w)
            (λ values. require storages name >>= λ _.
              json.list_to_vec values >>= λ b. save_fresh storages name b w)
            h in
        let (known, h2) =
          require-eq-ok (json.list_to_vec values >>= λ b. save_fresh storages name b w) h1 in
        let (b, e2, e3) =
          >>=-eq-ok (json.list_to_vec values) (λ b. save_fresh storages name b w) h2 in
        (values, b, e1, known, e2, e3)

    -- Unfolding an asset that was folded from others gives new assets with the values of those, in
    -- their order, if the storage keeps what is saved and draws unused keys, and the JSON library
    -- reads back what it writes.
    pub unfold_asset-fold_assets :
        (specs : List AssetSpec) (w : W) {spec : AssetSpec} {w1 w2 : W} (assets : Assets)
        (port : String) {parts : List AssetSpec}
        → fold_assets storages json name specs w ≡ ok (spec, w1)
        → get assets port ≡ some spec
        → unfold_asset storages json assets port w1 ≡ ok (parts, w2)
        → load_values storages json parts w2 ≡ load_values storages json specs w
    unfolding unfold_asset
    unfold_asset-fold_assets specs w {spec} {w1} {w2} assets port {parts} h found u =
        let (values, b, loaded, known, listed, saved) = fold_assets-eq-ok specs w h in
        let back = load-save_fresh_self name b w known saved in
        let (kind, stored, same) = save_fresh-eq-ok name b w saved in
        let u' : save_values storages json spec.storage_name values w1 ≡ ok (parts, w2) =
          rw (found, back, json_laws.list_from_slice-list_to_vec values b listed) at u in
        let u'' : save_values storages json name values w1 ≡ ok (parts, w2) =
          ap (λ s. save_values storages json (AssetSpec.storage_name s) values w1) (sym same)
          ∙ u' in
        load_values-save_values values w1 known u'' ∙ sym loaded
