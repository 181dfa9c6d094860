-- ===== src/Profiles/Resolved.antt =====
-- What `resolve` of tierkreis/src/resource_profiles.rs returns.
use tierkreis.Base.{
  Bool, true, false, [], ◌⊎◌, inl, inr, Option-cases, ◌∙◌, err, unknown_context, refl, String, ◌≡◌,
  Option, none, some, arith, ap, ok, string_eq, ◌==◌, if◌then◌else◌,
}
use tierkreis.Base.Map.{Map, get, remove, get-insert, get-remove}
use tierkreis.Orchestrator.Plan.{ResolvedContext}
use tierkreis.Profiles.{
  Values, ResourceProfiles, or_option, requested_context, native_for, set_native, resolve,
}

-- what a profile has for the requested name, and `empty` if no context is requested
abbrev pub of_named :
    {J A : Type 0} → A → (ResolvedContext J → A) → ResourceProfiles J → Option String → A
of_named empty field profiles none = empty
of_named empty field profiles (some name) = elim (get profiles name) [
  | none ↦ empty
  | some context ↦ field context
]

abbrev pub is_known : {J : Type 0} → ResourceProfiles J → Option String → Bool
is_known profiles none = true
is_known profiles (some name) = elim (get profiles name) [ none ↦ false | some context ↦ true ]

module _ {J : Type 0} (values : Values J) where
  open values use {null, member, is_empty_object}

  -- an object with no members says nothing
  abbrev pub nonempty : Option J → Option J
  nonempty none = none
  nonempty (some native) = if is_empty_object native then none else some native

  get-set_native :
      (native : Option J) (resources : Map String J) (key : String)
      → get (set_native values native (remove resources "native")) key
        ≡ (if "native" == key then nonempty native else get resources key)
  unfolding set_native
  get-set_native none resources key = get-remove resources "native" key
  get-set_native (some native) resources key = ground (
    arith,
    get-remove resources "native" key,
    get-insert (remove resources "native") "native" key native,
  )

  -- what stands under a key of the resources for the executor that is chosen
  abbrev pub member_for : Option String → (String → Option J) → String → Option J
  member_for executor resource key =
      if "native" == key
      then (elim executor [
        | none ↦ none
        | some chosen ↦
            nonempty
              (member (elim (resource "native") [ none ↦ null | some native ↦ native ]) chosen)
      ])
      else resource key

  nonempty-native_for :
      (executor : Option String) (resources : Map String J)
      → nonempty (native_for values executor resources)
        ≡ member_for executor (λ k. get resources k) "native"
  unfolding native_for
  nonempty-native_for none resources = refl
  nonempty-native_for (some chosen) resources = elim (Option-cases (get resources "native")) [
    | inl missing ↦ rw (missing, native_for) refl
    | inr (native, found) ↦ rw (found, native_for) refl
  ]

  get-resources :
      (executor : Option String) (resources : Map String J) (key : String)
      → get
          (set_native values (native_for values executor resources) (remove resources "native"))
          key
        ≡ member_for executor (λ k. get resources k) key
  get-resources executor resources key =
      get-set_native (native_for values executor resources) resources key
      ∙ ap (λ o. if "native" == key then o else get resources key)
          (nonempty-native_for executor resources)

  chosen-executor :
      (executor own : Option String)
      → or_option executor own ≡ elim executor [ none ↦ own | some asked ↦ some asked ]
  chosen-executor none own = refl
  chosen-executor (some asked) own = refl

  abbrev pub own : ResourceProfiles J → Option String → String → Option J
  own profiles requested key = of_named none (λ c. get c.resources key) profiles requested

  of_named-found :
      {A : Type 0} (empty : A) (field : ResolvedContext J → A) (profiles : ResourceProfiles J)
      (name : String) {c : ResolvedContext J}
      → get profiles name ≡ some c
      → field c ≡ of_named empty field profiles (some name)
  of_named-found empty field profiles name found = rw (found, of_named) refl

  -- Resolving fails exactly if a context is requested by a name that no profile has. A resolved
  -- context has the requested name, if one is requested; an executor that is asked for goes before
  -- that of the named context; the environment and all resources but `native` are those of the named
  -- context, and there are none if no context is requested; and under `native` stands only the member
  -- that is called like the executor that is chosen, unless there is none or it is empty.
  pub resolve_lem :
      (profiles : ResourceProfiles J) (requested executor : Option String) (key : String)
      → (is_known profiles requested ≡ false)
          × (resolve values profiles requested executor ≡ err unknown_context)
        ⊎ ((r : ResolvedContext J) × (resolve values profiles requested executor ≡ ok r)
            × (is_known profiles requested ≡ true)
            × (r.name ≡ requested)
            × (r.executor ≡ elim executor [
              | none ↦ of_named none (λ c. c.executor) profiles requested
              | some asked ↦ some asked
            ])
            × (r.environment ≡ of_named [] (λ c. c.environment) profiles requested)
            × (get r.resources key ≡ member_for r.executor (own profiles requested) key))
  unfolding resolve get requested_context
  resolve_lem profiles none executor key = inr (
    _,
    refl,
    refl,
    refl,
    chosen-executor executor none,
    refl,
    get-resources (or_option executor none) [] key,
  )
  resolve_lem profiles (some name) executor key = elim (Option-cases (get profiles name)) [
    | inl missing ↦ inl (rw (missing, is_known) refl, rw (missing, requested_context) refl)
    | inr (c, found) ↦ inr (
      _,
      rw (found, requested_context) refl,
      rw (found, is_known) refl,
      refl,
      chosen-executor executor c.executor
          ∙ ap (λ o. elim executor [ none ↦ o | some asked ↦ some asked ])
              (of_named-found none (λ c. c.executor) profiles name found),
      of_named-found [] (λ c. c.environment) profiles name found,
      get-resources (or_option executor c.executor) c.resources key
          ∙ ap (λ resource. member_for (or_option executor c.executor) resource key)
              (λ i k. of_named-found none (λ c. get c.resources k) profiles name found i),
    )
  ]
