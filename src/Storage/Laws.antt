-- ===== src/Storage/Laws.antt =====
-- What the code relies on of a storage and of a JSON library: tierkreis/src/asset_storage.rs.
use tierkreis.Base.{
  ℕ, ◌≡◌, String, Bool, true, false, ◌&&◌, List, Outcome, ok, err, panic, ◌==◌, string_eq, nat_eq,
  if◌then◌else◌,
}
use tierkreis.Asset.{AssetKind}
use tierkreis.Storage.{Bytes, Storages, Json}

abbrev pub is_ok {ℓ} : {A : Type ℓ} → Outcome A → Bool
is_ok (ok a) = true
is_ok (err e) = false
is_ok panic = false

pub record StorageLaws {W : Type 0} (storages : Storages W) : Type 0 where
  -- a fresh key has not been used, and drawing it changes no asset
  pub drawn_unused :
      (w : W) (name : String) → is_ok (storages.load name (storages.draw w).0 w) ≡ false
  pub load-draw :
      (w : W) (name : String) (key : ℕ)
      → storages.load name key (storages.draw w).1 ≡ storages.load name key w
  -- a saved value is the one that is loaded, and no other asset changes
  pub load-save :
      (w w' : W) (name : String) (key : ℕ) (value : Bytes) (kind : AssetKind)
      → storages.save name key value w ≡ ok (kind, w')
      → (other : String) (k : ℕ)
      → storages.load other k w'
        ≡ (if name == other && key == k then ok value else storages.load other k w)

pub record JsonLaws {J : Type 0} (json : Json J) : Type 0 where
  pub from_slice-to_vec :
      (value : J) (b : Bytes) → json.to_vec value ≡ ok b → json.from_slice b ≡ ok value
  pub list_from_slice-list_to_vec :
      (values : List J) (b : Bytes)
      → json.list_to_vec values ≡ ok b
      → json.list_from_slice b ≡ ok values
