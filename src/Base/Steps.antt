-- ===== src/Base/Steps.antt =====
-- A fallible function that changes a state, and leaves the state as it is then when it fails.
use mathlib.Core.Path.{◌≡◌, ap}
use tierkreis.Base.Outcomes.{Outcome, ok, err, panic}

abbrev pub Step : Type 0 → Type 0 → Type 0
Step S A = S → Outcome A × S

infixl 5 ◌>>◌
abbrev pub ◌>>◌ : {S A B : Type 0} → Outcome A × S → (A → Step S B) → Outcome B × S
(ok a, s) >> f = f a s
(err e, s) >> f = (err e, s)
(panic, s) >> f = (panic, s)

-- what the first step has made true and the next ones keep
pub kept_after :
    {S A B : Type 0} (P : S → Type 0) (r : Outcome A × S) (f : A → Step S B)
    → P r.1
    → ((a : A) (s : S) → P s → P (f a s).1)
    → P (r >> f).1
kept_after P (ok a, s) f h k = k a s h
kept_after P (err e, s) f h k = h
kept_after P (panic, s) f h k = h

-- `.expect(..)`, and an error that is only logged
abbrev pub expecting : {S : Type 0} → Outcome (Unit {0}) × S → Outcome (Unit {0}) × S
expecting (ok done, s) = (ok tt, s)
expecting (err e, s) = (panic, s)
expecting (panic, s) = (panic, s)

abbrev pub logging : {S : Type 0} → Outcome (Unit {0}) × S → Outcome (Unit {0}) × S
logging (ok done, s) = (ok tt, s)
logging (err e, s) = (ok tt, s)
logging (panic, s) = (panic, s)

pub kept_expecting :
    {S : Type 0} (P : S → Type 0) (r : Outcome (Unit {0}) × S) → P r.1 → P (expecting r).1
kept_expecting P (ok done, s) h = h
kept_expecting P (err e, s) h = h
kept_expecting P (panic, s) h = h

pub kept_logging :
    {S : Type 0} (P : S → Type 0) (r : Outcome (Unit {0}) × S) → P r.1 → P (logging r).1
kept_logging P (ok done, s) h = h
kept_logging P (err e, s) h = h
kept_logging P (panic, s) h = h

-- what succeeds after an `expect` went on from the state of the first step
pub expecting-ok :
    {S B : Type 0} (r : Outcome (Unit {0}) × S) (f : Unit {0} → Step S B) {b : B} {s : S}
    → (expecting r >> f) ≡ (ok b, s)
    → f tt r.1 ≡ (ok b, s)
expecting-ok (ok done, s) f h = h
expecting-ok (err e, s) f h = let wrong = ap (λ r. r.0) h in cc
expecting-ok (panic, s) f h = let wrong = ap (λ r. r.0) h in cc
