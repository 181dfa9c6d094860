-- ===== src/Storage/Memory/Lawful.antt =====
-- The storages of tierkreis/src/asset_storage/inmemory.rs are lawful storages.
use tierkreis.Base.{
  ℕ, ◌≤◌, ◌≡◌, refl, String, Bool, ◌&&◌, none, [], ◌∷◌, ok, arith, string_eq, nat_eq, if◌then◌else◌,
  ◌==◌, nat_beq_iff,
}
use tierkreis.Base.Map.{get, insert, get_or_default, get_or_default-insert, get-insert}
use tierkreis.Asset.{AssetKind}
use tierkreis.Storage.{Bytes}
use tierkreis.Storage.Laws.{StorageLaws}
use tierkreis.Storage.Memory.{
  InMemoryStorage, Memory, save, load, above_keys, above_all, storages_of,
}

get-above_keys : (store : InMemoryStorage) (key : ℕ) → above_keys store ≤ key → get store key ≡ none
unfolding get
get-above_keys [] key h = refl
get-above_keys ((k, v) ∷ store) key h = ground (arith, get-above_keys store key, nat_beq_iff k key)

get-above_all :
    (w : Memory) (name : String) (key : ℕ)
    → above_all w ≤ key
    → get (get_or_default [] w name) key ≡ none
unfolding get_or_default get
get-above_all [] name key h = refl
get-above_all ((n, store) ∷ w) name key h =
    ground (arith, get-above_all w name key, get-above_keys store key)

module _ (names : String → Bool) where
  load-save_memory :
      (w w' : Memory) (name : String) (key : ℕ) (value : Bytes) (kind : AssetKind)
      → (storages_of names).save name key value w ≡ ok (kind, w')
      → (other : String) (k : ℕ)
      → (storages_of names).load other k w'
        ≡ (if name == other && key == k then ok value else (storages_of names).load other k w)
  unfolding save load
  load-save_memory w w' name key value kind h other k =
      let store = insert (get_or_default [] w name) key value in
      let saved : insert w name store ≡ w' = cc h in
      rw (← saved) (
        ground (
          arith,
          get_or_default-insert [] w name other store,
          get-insert (get_or_default [] w name) key k value,
          string_eq.beq_iff name other,
        ))

  pub storages_of-StorageLaws : StorageLaws (storages_of names)
  unfolding load
  storages_of-StorageLaws = record {
    drawn_unused = λ w name. rw (get-above_all w name (above_all w) (omega arith)) refl;
    load-draw = λ w name key. refl;
    load-save = load-save_memory;
  }
