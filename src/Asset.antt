-- ===== src/Asset.antt =====
-- tierkreis/src/asset_storage/interface.rs: the specification of a stored asset.
use tierkreis.Base.{ℕ, String}
use tierkreis.Base.Map.{Map}

-- a path is a text
pub data AssetKind : Type 0 where
  memory : AssetKind
  file : String → AssetKind

-- an `AssetKey` is a UUID, a 128-bit number
pub record AssetSpec : Type 0 where
  pub kind : AssetKind
  pub storage_name : String
  pub asset_key : ℕ

-- `HashMap<String, AssetSpec>`
abbrev pub Assets : Type 0
Assets = Map String AssetSpec
