-- ===== src/Storage/Tests.antt =====
-- An example of the round trip of folded assets (tierkreis/src/asset_storage.rs).
use tierkreis.Base.{ℕ, ◌≡◌, refl, true, [], ◌∷◌, nat_eq, string_eq}
use tierkreis.Base.Map.{get, insert, get_or_default}
use tierkreis.Asset.{AssetSpec, memory}
use tierkreis.Storage.{load_values, fold_assets, unfold_asset}
use tierkreis.Storage.Memory.{Memory, storages_of, load, save}
use tierkreis.Storage.Memory.Lawful.{storages_of-StorageLaws}
use tierkreis.Storage.Plain.{plain_json, plain_json_laws}
use tierkreis.Storage.Fold.{unfold_asset-fold_assets}

abbrev asset : ℕ → AssetSpec
asset key = record { kind = memory; storage_name = "memory"; asset_key = key }

abbrev before : Memory
before = ("memory", (0, 7 ∷ []) ∷ (1, 9 ∷ []) ∷ []) ∷ []

abbrev folded : Memory
folded = ("memory", (0, 7 ∷ []) ∷ (1, 9 ∷ []) ∷ (2, 7 ∷ 9 ∷ []) ∷ []) ∷ []

abbrev unfolded : Memory
unfolded =
    ("memory", (0, 7 ∷ []) ∷ (1, 9 ∷ []) ∷ (2, 7 ∷ 9 ∷ []) ∷ (3, 7 ∷ []) ∷ (4, 9 ∷ []) ∷ []) ∷ []

unfold_asset-fold_assets_example :
    load_values (storages_of (λ _. true)) plain_json (asset 3 ∷ asset 4 ∷ []) unfolded
    ≡ load_values (storages_of (λ _. true)) plain_json (asset 0 ∷ asset 1 ∷ []) before
unfolding fold_assets unfold_asset load_values insert get get_or_default load save
unfold_asset-fold_assets_example =
    unfold_asset-fold_assets (storages_of (λ _. true)) (storages_of-StorageLaws (λ _. true))
      plain_json plain_json_laws "memory" (asset 0 ∷ asset 1 ∷ []) before {spec = asset 2}
      {w1 = folded} {w2 = unfolded} (("xs", asset 2) ∷ []) "xs" {parts = asset 3 ∷ asset 4 ∷ []}
      refl refl refl
