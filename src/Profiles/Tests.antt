-- ===== src/Profiles/Tests.antt =====
-- An example of resolving an execution context (tierkreis/src/resource_profiles.rs).
use tierkreis.Base.{
  true, false, err, unknown_context, ◌⊎◌, ℕ, suc, ◌≡◌, refl, none, some, [], ◌∷◌, ok, string_eq,
  nat_beq,
}
use tierkreis.Base.Map.{get, insert, remove}
use tierkreis.Orchestrator.Plan.{ResolvedContext}
use tierkreis.Profiles.{
  Values, ResourceProfiles, requested_context, native_for, set_native, resolve,
}
use tierkreis.Profiles.Resolved.{is_known, member_for, own, resolve_lem}

-- values that are numbers: `n` is an object whose every member is `n + 1`
abbrev numbers : Values ℕ
numbers = record { null = 0; member = λ n key. some (suc n); is_empty_object = λ n. nat_beq n 0 }

abbrev profiles : ResourceProfiles ℕ
profiles =
    (
      "gpu",
      record {
        name = none;
        executor = some "slurm";
        resources = ("native", 4) ∷ ("cpus", 8) ∷ [];
        environment = [];
      },
    )
    ∷ []

abbrev resolved : ResolvedContext ℕ
resolved = record {
  name = some "gpu";
  executor = some "pbs";
  resources = ("cpus", 8) ∷ ("native", 5) ∷ [];
  environment = [];
}

resolve_lem_example :
    (is_known profiles (some "gpu") ≡ false)
      × (resolve numbers profiles (some "gpu") (some "pbs") ≡ err unknown_context)
    ⊎ ((r : ResolvedContext ℕ) × (resolve numbers profiles (some "gpu") (some "pbs") ≡ ok r)
        × (is_known profiles (some "gpu") ≡ true)
        × (r.name ≡ some "gpu")
        × (r.executor ≡ some "pbs")
        × (r.environment ≡ [])
        × (get r.resources "native"
            ≡ member_for numbers r.executor (own numbers profiles (some "gpu")) "native"))
unfolding get
resolve_lem_example = resolve_lem numbers profiles (some "gpu") (some "pbs") "native"

resolve-resolved : resolve numbers profiles (some "gpu") (some "pbs") ≡ ok resolved
unfolding resolve requested_context native_for get insert remove set_native
resolve-resolved = refl
