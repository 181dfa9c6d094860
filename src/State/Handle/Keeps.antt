-- ===== src/State/Handle/Keeps.antt =====
-- A relation of two states of a node, for `handle_node_events` of tierkreis/src/state/inmemory.rs.
use tierkreis.Base.{ℕ, ◌≡◌, refl, ◌||◌, Option, none, some, arith, length}
use tierkreis.Bits.{BitVec, bit}
use tierkreis.Location.{location_eq}
use tierkreis.State.{Time, NodeState}
use tierkreis.State.Handle.{mark}

-- a value that is there stays
abbrev pub Kept {ℓ} : {A : Type ℓ} → Option A → Option A → Type ℓ
Kept none b = Unit
Kept (some x) b = b ≡ some x

-- once the first is there, the second no longer changes
abbrev pub FrozenBy {ℓ κ} : {A : Type ℓ} {B : Type κ} → Option A → Option B → Option B → Type κ
FrozenBy none a b = Unit
FrozenBy (some _) a b = b ≡ a

-- the same elements, and every completed one still completed
abbrev pub Covers : Option BitVec → Option BitVec → Type 0
Covers none b = Unit
Covers (some m) none = ⊥
Covers (some m) (some n) = (length n ≡ length m) × ((i : ℕ) → (bit m i || bit n i) ≡ bit n i)

abbrev pub CoversOnce : Option Time → Option BitVec → Option BitVec → Type 0
CoversOnce none a b = Unit
CoversOnce (some _) a b = Covers a b

pub record Keeps (a b : NodeState) : Type 0 where
  pub scheduled : Kept a.scheduled_time b.scheduled_time
  pub queued : Kept a.queued_time b.queued_time
  pub paused : Kept a.paused_time b.paused_time
  pub unpaused : b.unpaused_time ≡ a.unpaused_time
  pub running : Kept a.running_time b.running_time
  pub complete : Kept a.complete_time b.complete_time
  pub cancelled : Kept a.cancelled_time b.cancelled_time
  pub errored : Kept a.error_time b.error_time
  pub outputs : FrozenBy a.complete_time a.outputs b.outputs
  pub cond : FrozenBy a.running_time a.cond b.cond
  pub error : FrozenBy a.error_time a.error b.error
  pub detail : FrozenBy a.error_time a.error_detail b.error_detail
  pub elements : CoversOnce a.running_time a.map_completed b.map_completed

pub Kept-refl {ℓ} : {A : Type ℓ} (a : Option A) → Kept a a
Kept-refl none = tt
Kept-refl (some x) = refl

pub Kept-mark : (now : Time) (a : Option Time) → Kept a (mark now a)
Kept-mark now none = tt
Kept-mark now (some t) = refl

Kept-trans {ℓ} : {A : Type ℓ} (a b c : Option A) → Kept a b → Kept b c → Kept a c
Kept-trans none b c h k = tt
Kept-trans (some x) none c h k = cc
Kept-trans (some x) (some y) c h k = cc

pub FrozenBy-refl {ℓ κ} : {A : Type ℓ} {B : Type κ} (t : Option A) (a : Option B) → FrozenBy t a a
FrozenBy-refl none a = tt
FrozenBy-refl (some _) a = refl

FrozenBy-trans {ℓ κ} :
    {A : Type ℓ} {B : Type κ} (t u : Option A) (a b c : Option B)
    → Kept t u
    → FrozenBy t a b
    → FrozenBy u b c
    → FrozenBy t a c
FrozenBy-trans none u a b c k h g = tt
FrozenBy-trans (some x) none a b c k h g = cc
FrozenBy-trans (some x) (some y) a b c k h g = cc

Covers-refl : (a : Option BitVec) → Covers a a
Covers-refl none = tt
Covers-refl (some m) = (refl, λ i. ground arith)

Covers-trans : (a b c : Option BitVec) → Covers a b → Covers b c → Covers a c
Covers-trans none b c h k = tt
Covers-trans (some m) none c h k = absurd h
Covers-trans (some m) (some n) none h k = absurd k
Covers-trans (some m) (some n) (some o) h k =
    (omega (arith, h.0, k.0), λ i. ground (arith, h.1 i, k.1 i))

pub CoversOnce-refl : (t : Option Time) (a : Option BitVec) → CoversOnce t a a
CoversOnce-refl none a = tt
CoversOnce-refl (some _) a = Covers-refl a

CoversOnce-trans :
    (t u : Option Time) (a b c : Option BitVec)
    → Kept t u
    → CoversOnce t a b
    → CoversOnce u b c
    → CoversOnce t a c
CoversOnce-trans none u a b c k h g = tt
CoversOnce-trans (some x) none a b c k h g = cc
CoversOnce-trans (some x) (some y) a b c k h g = Covers-trans a b c h g

pub Keeps-refl : (a : NodeState) → Keeps a a
Keeps-refl a = record {
  scheduled = Kept-refl a.scheduled_time;
  queued = Kept-refl a.queued_time;
  paused = Kept-refl a.paused_time;
  unpaused = refl;
  running = Kept-refl a.running_time;
  complete = Kept-refl a.complete_time;
  cancelled = Kept-refl a.cancelled_time;
  errored = Kept-refl a.error_time;
  outputs = FrozenBy-refl a.complete_time a.outputs;
  cond = FrozenBy-refl a.running_time a.cond;
  error = FrozenBy-refl a.error_time a.error;
  detail = FrozenBy-refl a.error_time a.error_detail;
  elements = CoversOnce-refl a.running_time a.map_completed;
}

pub Keeps-trans : (a b c : NodeState) → Keeps a b → Keeps b c → Keeps a c
Keeps-trans a b c h k = record {
  scheduled = Kept-trans a.scheduled_time b.scheduled_time c.scheduled_time h.scheduled k.scheduled;
  queued = Kept-trans a.queued_time b.queued_time c.queued_time h.queued k.queued;
  paused = Kept-trans a.paused_time b.paused_time c.paused_time h.paused k.paused;
  unpaused = cc (h.unpaused, k.unpaused);
  running = Kept-trans a.running_time b.running_time c.running_time h.running k.running;
  complete = Kept-trans a.complete_time b.complete_time c.complete_time h.complete k.complete;
  cancelled = Kept-trans a.cancelled_time b.cancelled_time c.cancelled_time h.cancelled k.cancelled;
  errored = Kept-trans a.error_time b.error_time c.error_time h.errored k.errored;
  outputs =
      FrozenBy-trans a.complete_time b.complete_time a.outputs b.outputs c.outputs h.complete
        h.outputs k.outputs;
  cond = FrozenBy-trans a.running_time b.running_time a.cond b.cond c.cond h.running h.cond k.cond;
  error =
      FrozenBy-trans a.error_time b.error_time a.error b.error c.error h.errored h.error k.error;
  detail =
      FrozenBy-trans a.error_time b.error_time a.error_detail b.error_detail c.error_detail
        h.errored h.detail k.detail;
  elements =
      CoversOnce-trans a.running_time b.running_time a.map_completed b.map_completed c.map_completed
        h.running h.elements k.elements;
}
