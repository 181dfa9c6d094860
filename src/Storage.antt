-- ===== src/Storage.antt =====
-- tierkreis/src/asset_storage.rs: assets in the storages of a registry. The storages are a parameter
-- over the world `W` that they live in, from which the fresh UUIDs of asset keys are drawn as well;
-- the library for JSON values is one too. Storage/Memory is a registry of the storages of
-- tierkreis/src/asset_storage/inmemory.rs.
pub mod Memory
pub mod Laws
pub mod Fold
pub mod Plain
mod Tests
use tierkreis.Base.{
  ℕ, zero, suc, String, Bool, true, false, List, [], ◌∷◌, ◌++◌, Outcome, ok, err, ◌>>=◌, or_error,
  if◌then◌else◌, string_eq, ◌==◌, storage_not_found, asset_not_found,
}
use tierkreis.Base.Map.{Map, get, insert}
use tierkreis.Asset.{AssetKind, AssetSpec, Assets}

abbrev pub Bytes : Type 0
Bytes = List ℕ

-- an `AssetStorageRegistry`: an operation names the storage it is of
pub record Storages (W : Type 0) : Type 0 where
  pub contains_key : String → Bool
  -- `AssetKey::new()`
  pub draw : W → ℕ × W
  pub reserve : String → ℕ → W → Outcome (AssetKind × W)
  pub save : String → ℕ → Bytes → W → Outcome (AssetKind × W)
  pub load : String → ℕ → W → Outcome Bytes

-- what is used of `serde_json`, for a value and for a list of values
pub record Json (J : Type 0) : Type 0 where
  pub from_slice : Bytes → Outcome J
  pub to_vec : J → Outcome Bytes
  pub list_from_slice : Bytes → Outcome (List J)
  pub list_to_vec : List J → Outcome Bytes

module _ {W : Type 0} (storages : Storages W) where
  open storages use {contains_key, draw, reserve, save, load}

  -- `registry.get(storage_name).ok_or_else(..)?`
  abbrev pub require : String → Outcome (Unit {0})
  require storage_name = if contains_key storage_name then ok tt else err storage_not_found

  unfoldable pub load_asset_from_spec : AssetSpec → W → Outcome Bytes
  load_asset_from_spec asset_spec w =
      require asset_spec.storage_name >>= λ _. load asset_spec.storage_name asset_spec.asset_key w

  unfoldable pub load_assets : Assets → W → Outcome (Map String Bytes)
  unfolding load_asset_from_spec
  load_assets [] w = ok []
  load_assets ((k, v) ∷ assets) w = load_asset_from_spec v w >>= λ asset.
      load_assets assets w >>= λ loaded. ok ((k, asset) ∷ loaded)

  unfoldable pub load_asset : Assets → String → W → Outcome Bytes
  unfolding load_asset_from_spec
  load_asset assets name w =
      or_error asset_not_found (get assets name) >>= λ asset_spec. load_asset_from_spec asset_spec w

  -- a fresh key, and the value saved under it
  unfoldable pub save_fresh : String → Bytes → W → Outcome (AssetSpec × W)
  save_fresh storage_name value w =
      let (asset_key, drawn) = draw w in
      save storage_name asset_key value drawn >>= λ (kind, saved).
      ok (record { kind = kind; storage_name = storage_name; asset_key = asset_key }, saved)

  unfoldable pub save_asset : String → Bytes → W → Outcome (AssetSpec × W)
  unfolding save_fresh
  save_asset storage_name value w = require storage_name >>= λ _. save_fresh storage_name value w

  unfoldable pub save_all : String → Map String Bytes → W → Outcome (Assets × W)
  unfolding save_fresh
  save_all storage_name [] w = ok ([], w)
  save_all storage_name ((name, raw_asset) ∷ raw_assets) w =
      save_fresh storage_name raw_asset w >>= λ (asset_spec, saved).
      save_all storage_name raw_assets saved >>= λ (asset_specs, done).
      ok ((name, asset_spec) ∷ asset_specs, done)

  unfoldable pub save_assets : String → Map String Bytes → W → Outcome (Assets × W)
  unfolding save_all
  save_assets storage_name raw_assets w =
      require storage_name >>= λ _. save_all storage_name raw_assets w

  unfoldable pub save_asset_with_spec : AssetSpec → Bytes → W → Outcome W
  save_asset_with_spec asset_spec value w = require asset_spec.storage_name >>= λ _.
      save asset_spec.storage_name asset_spec.asset_key value w >>= λ (kind, saved). ok saved

  unfoldable pub transfer_all : String → Assets → W → Outcome (Assets × W)
  unfolding load_asset_from_spec save_fresh
  transfer_all storage_name_to [] w = ok ([], w)
  transfer_all storage_name_to ((name, asset_from) ∷ assets_from) w =
      (if asset_from.storage_name == storage_name_to
        then ok (asset_from, w)
        else (load_asset_from_spec asset_from w >>= λ asset. save_fresh storage_name_to asset w))
      >>= λ (asset_to, moved).
          transfer_all storage_name_to assets_from moved >>= λ (transferred, done).
          ok ((name, asset_to) ∷ transferred, done)

  unfoldable pub transfer_assets : String → Assets → W → Outcome (Assets × W)
  unfolding transfer_all
  transfer_assets storage_name_to assets_from w =
      require storage_name_to >>= λ _. transfer_all storage_name_to assets_from w

  unfoldable pub reserve_all : String → ℕ → W → Outcome (List AssetSpec × W)
  reserve_all storage_name zero w = ok ([], w)
  reserve_all storage_name (suc total) w =
      let (asset_key, drawn) = draw w in
      reserve storage_name asset_key drawn >>= λ (kind, reserved).
      reserve_all storage_name total reserved >>= λ (asset_specs, done). ok (
        record { kind = kind; storage_name = storage_name; asset_key = asset_key } ∷ asset_specs,
        done,
      )

  unfoldable pub reserve_asset_specs : String → ℕ → W → Outcome (List AssetSpec × W)
  unfolding reserve_all
  reserve_asset_specs storage_name total w =
      require storage_name >>= λ _. reserve_all storage_name total w

  module _ {J : Type 0} (json : Json J) where
    open json use {from_slice, to_vec, list_from_slice, list_to_vec}

    unfoldable pub save_values : String → List J → W → Outcome (List AssetSpec × W)
    unfolding save_fresh
    save_values storage_name [] w = ok ([], w)
    save_values storage_name (value ∷ values) w = to_vec value >>= λ asset_bytes.
        save_fresh storage_name asset_bytes w >>= λ (asset_spec, saved).
        save_values storage_name values saved >>= λ (asset_specs, done).
        ok (asset_spec ∷ asset_specs, done)

    unfoldable pub unfold_asset : Assets → String → W → Outcome (List AssetSpec × W)
    unfolding load_asset_from_spec save_values
    unfold_asset assets name w = or_error asset_not_found (get assets name) >>= λ asset_spec.
        load_asset_from_spec asset_spec w >>= λ asset.
        list_from_slice asset >>= λ values. save_values asset_spec.storage_name values w

    unfoldable pub load_values : List AssetSpec → W → Outcome (List J)
    unfolding load_asset_from_spec
    load_values [] w = ok []
    load_values (asset_spec ∷ asset_specs) w = load_asset_from_spec asset_spec w >>= λ asset.
        from_slice asset >>= λ value. load_values asset_specs w >>= λ values. ok (value ∷ values)

    unfoldable pub fold_assets : String → List AssetSpec → W → Outcome (AssetSpec × W)
    unfolding load_values save_fresh
    fold_assets storage_name asset_specs w = load_values asset_specs w >>= λ values.
        require storage_name >>= λ _.
        list_to_vec values >>= λ asset_bytes. save_fresh storage_name asset_bytes w
