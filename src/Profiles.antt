-- ===== src/Profiles.antt =====
-- `ResourceProfiles::resolve` and `valid_name` of tierkreis/src/resource_profiles.rs. Reading a
-- profile from files is left out: the contexts of the selected profile are given. What is used of
-- `serde_json::Value` is a parameter.
pub mod Resolved
mod Tests
use tierkreis.Base.{
  ℕ, String, Bool, true, false, not, ◌&&◌, ◌||◌, Option, none, some, List, [], ◌∷◌, Outcome, ok,
  ◌>>=◌, or_error, string_eq, ◌==◌, if◌then◌else◌, unknown_context, contains, nat_eq, list_eq,
}
use tierkreis.Base.Map.{Map, get, insert, remove}
use tierkreis.Orchestrator.Plan.{ResolvedContext}

pub record Values (J : Type 0) : Type 0 where
  pub null : J
  -- `value.get(key)`
  pub member : J → String → Option J
  pub is_empty_object : J → Bool

abbrev pub ResourceProfiles : Type 0 → Type 0
ResourceProfiles J = Map String (ResolvedContext J)

abbrev pub default_context : {J : Type 0} → ResolvedContext J
default_context = record { name = none; executor = none; resources = []; environment = [] }

-- `or`, `or_else`
abbrev pub or_option {ℓ} : {A : Type ℓ} → Option A → Option A → Option A
or_option none b = b
or_option (some a) b = some a

module _ {J : Type 0} (values : Values J) where
  open values use {null, member, is_empty_object}

  -- the context of the name, or the default one
  unfoldable pub requested_context :
      ResourceProfiles J → Option String → Outcome (ResolvedContext J)
  requested_context profiles none = ok default_context
  requested_context profiles (some name) =
      or_error unknown_context (get profiles name) >>= λ context.
      ok (record context { name = some name })

  -- the part of `native` that is for the executor
  unfoldable pub native_for : Option String → Map String J → Option J
  native_for none resources = none
  native_for (some executor) resources = elim (get resources "native") [
    | none ↦ member null executor
    | some native ↦ member native executor
  ]

  unfoldable pub set_native : Option J → Map String J → Map String J
  set_native none resources = resources
  set_native (some native) resources =
      if is_empty_object native then resources else insert resources "native" native

  unfoldable pub resolve :
      ResourceProfiles J → Option String → Option String → Outcome (ResolvedContext J)
  unfolding requested_context native_for set_native
  resolve profiles requested executor = requested_context profiles requested >>= λ context.
      let chosen = or_option executor context.executor in
      ok (record context {
        executor = chosen;
        resources =
            set_native (native_for chosen context.resources) (remove context.resources "native");
      })

-- a name is a text, which is not empty and no path
unfoldable pub valid_name : List ℕ → Bool
valid_name name =
    not (name == [])
    && (not (contains name b'/' || contains name b'\\')
        && (not (name == b'.' ∷ []) && not (name == b'.' ∷ b'.' ∷ [])))
