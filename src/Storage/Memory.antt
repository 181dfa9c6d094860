-- ===== src/Storage/Memory.antt =====
-- `InMemoryStorage` of tierkreis/src/asset_storage/inmemory.rs, and a registry of such storages. A
-- fresh key is one above all keys.
pub mod Lawful
use tierkreis.Base.{
  ℕ, suc, ◌+◌, ◌≤◌, ◌<◌, ◌≡◌, refl, ap, String, Bool, true, false, not, ◌&&◌, Option, none, some,
  List, [], ◌∷◌, Outcome, ok, err, or_error, arith, string_eq, nat_eq, asset_not_found,
  asset_exists, if◌then◌else◌, ltb, ◌==◌, Option-cases, inl, inr, ◌>>=◌, >>=-eq-ok,
}
use tierkreis.Base.Map.{Map, get, insert, get_or_default, get_or_default-insert, get-insert}
use tierkreis.Asset.{AssetKind, memory}
use tierkreis.Storage.{Bytes, Storages}

abbrev pub InMemoryStorage : Type 0
InMemoryStorage = Map ℕ Bytes

unfoldable pub reserve : ℕ → InMemoryStorage → Outcome AssetKind
reserve key store = elim (get store key) [ none ↦ ok memory | some value ↦ err asset_exists ]

unfoldable pub save : ℕ → Bytes → InMemoryStorage → Outcome AssetKind × InMemoryStorage
save key value store = (ok memory, insert store key value)

unfoldable pub load : ℕ → InMemoryStorage → Outcome Bytes
load key store = or_error asset_not_found (get store key)

-- the storages by name
abbrev pub Memory : Type 0
Memory = Map String InMemoryStorage

abbrev larger : ℕ → ℕ → ℕ
larger a b = if ltb a b then b else a

abbrev pub above_keys : InMemoryStorage → ℕ
above_keys [] = 0
above_keys ((k, v) ∷ store) = larger (suc k) (above_keys store)

abbrev pub above_all : Memory → ℕ
above_all [] = 0
above_all ((name, store) ∷ stores) = larger (above_keys store) (above_all stores)

abbrev pub storages_of : (String → Bool) → Storages Memory
storages_of names = record {
  contains_key = names;
  draw = λ w. (above_all w, w);
  reserve = λ name key w. reserve key (get_or_default [] w name) >>= λ kind. ok (kind, w);
  save = λ name key value w.
      let (kind, store) = save key value (get_or_default [] w name) in
      kind >>= λ k. ok (k, insert w name store);
  load = λ name key w. load key (get_or_default [] w name);
}
