-- ===== src/Storage/Plain.antt =====
-- A JSON library for the examples: the values are numbers, one byte each.
use tierkreis.Base.{ℕ, refl, ok-injective, [], ◌∷◌, Outcome, ok, err, external}
use tierkreis.Storage.{Bytes, Json}
use tierkreis.Storage.Laws.{JsonLaws}

abbrev first : Bytes → Outcome ℕ
first [] = err external
first (b ∷ bytes) = ok b

abbrev pub plain_json : Json ℕ
plain_json = record {
  from_slice = first;
  to_vec = λ value. ok (value ∷ []);
  list_from_slice = λ bytes. ok bytes;
  list_to_vec = λ values. ok values;
}

pub plain_json_laws : JsonLaws plain_json
plain_json_laws = record {
  from_slice-to_vec = λ value b h. rw (← ok-injective h) refl;
  list_from_slice-list_to_vec = λ values b h. rw (ok-injective h) refl;
}
