-- ===== src/Status/Gates.antt =====
-- status.rs: how an operation takes a switch's turn and gives it back. The semaphore of tokio is a
-- parameter, known by what its documentation says of one with a single permit: it is handed to the waiting
-- tasks in the order in which they came.
use switch_configurator.Prelude.{
  ℕ, suc, ◌-◌, ◌≡◌, Bool, true, false, not, Option, none, some, List, [], ◌∷◌, ◌++◌, Text, text_eq,
  nat_eq, ◌==◌, if◌then◌else◌,
}
use switch_configurator.Prelude.HashMap.{get, insert}
use switch_configurator.Status.{
  SwitchGate, StatusTrackerInner, set_currently_configuring, clear_currently_configuring,
  is_switch_busy,
}

-- whether the permit is taken, and the tasks that wait for it
pub record Turn : Type 0 where
  pub taken : Bool
  pub waiters : List ℕ

abbrev pub free_turn : Turn
free_turn = record { taken = false; waiters = [] }

-- A task is given the permit, or waits behind the others.
abbrev pub acquired : ℕ → Turn → Turn
acquired t turn =
    if turn.taken
    then record { taken = true; waiters = turn.waiters ++ t ∷ [] }
    else record { taken = true; waiters = turn.waiters }

-- The permit that is given back goes to the task that has waited longest.
abbrev pub next_turn : List ℕ → Turn
next_turn [] = free_turn
next_turn (t ∷ ts) = record { taken = true; waiters = ts }

abbrev pub first_of {ℓ} : {A : Type ℓ} → List A → Option A
first_of [] = none
first_of (t ∷ ts) = some t

-- the first occurrence is taken out
unfoldable pub without_waiter : ℕ → List ℕ → List ℕ
without_waiter t [] = []
without_waiter t (u ∷ us) = let rest = without_waiter t us in if u == t then us else u ∷ rest

pub record Semaphore (S : Type 0) : Type 0 where
  pub turn_of : S → Turn
  pub new : S
  pub try_acquire : S → Option S
  -- whether the task is given the permit at once
  pub acquire : ℕ → S → Bool × S
  -- a waiting task is dropped
  pub give_up : ℕ → S → S
  -- the permit is dropped; the task that is given it
  pub drop_permit : S → Option ℕ × S
  pub turn_of-new : turn_of new ≡ free_turn
  pub try_acquire_taken : (s : S) → (turn_of s).taken ≡ true → try_acquire s ≡ none
  pub try_acquire_free :
      (s : S)
      → (turn_of s).taken ≡ false
      → (s2 : S) × ((try_acquire s ≡ some s2) × (turn_of s2 ≡ record (turn_of s) { taken = true }))
  pub acquire_now : (t : ℕ) (s : S) → (acquire t s).0 ≡ not (turn_of s).taken
  pub turn_of-acquire : (t : ℕ) (s : S) → turn_of (acquire t s).1 ≡ acquired t (turn_of s)
  pub turn_of-give_up :
      (t : ℕ) (s : S)
      → turn_of (give_up t s)
        ≡ record (turn_of s) { waiters = without_waiter t (turn_of s).waiters }
  pub drop_permit_to : (s : S) → (drop_permit s).0 ≡ first_of (turn_of s).waiters
  pub turn_of-drop_permit : (s : S) → turn_of (drop_permit s).1 ≡ next_turn (turn_of s).waiters

module _ {S : Type 0} (sem : Semaphore S) where
  abbrev pub new_gate : SwitchGate S
  new_gate = record { turn = sem.new; waiting = 0 }

  abbrev pub gate_or_new : Option (SwitchGate S) → SwitchGate S
  gate_or_new none = new_gate
  gate_or_new (some g) = g

  -- `gates.entry(id).or_insert_with(SwitchGate::new)`
  abbrev pub gate_at : Text → StatusTrackerInner S → SwitchGate S
  gate_at id inner = gate_or_new (get id inner.gates)

  abbrev pub with_gate : Text → SwitchGate S → StatusTrackerInner S → StatusTrackerInner S
  with_gate id gate inner = record inner { gates = insert id gate inner.gates }

  abbrev take_turn :
      Text → SwitchGate S → StatusTrackerInner S → Option S → StatusTrackerInner S × Bool
  take_turn id gate inner none = (with_gate id gate inner, false)
  take_turn id gate inner (some turn) =
      (set_currently_configuring id (with_gate id (record gate { turn = turn }) inner), true)

  -- The result tells whether there is a guard.
  unfoldable pub try_acquire_configuring : Text → StatusTrackerInner S → StatusTrackerInner S × Bool
  try_acquire_configuring id inner =
      if is_switch_busy id inner
      then (inner, false)
      else (let gate = gate_at id inner in take_turn id gate inner (sem.try_acquire gate.turn))

  -- `acquire_configuring_queued` until it is given the permit or waits
  unfoldable pub queue_for_turn : ℕ → Text → StatusTrackerInner S → StatusTrackerInner S × Bool
  queue_for_turn t id inner =
      let gate = gate_at id inner in
      let (now, turn) = sem.acquire t gate.turn in
      (with_gate id (record { turn = turn; waiting = suc gate.waiting }) inner, now)

  -- its wait is over, in time: it no longer counts as waiting
  unfoldable pub stop_waiting : Text → StatusTrackerInner S → StatusTrackerInner S
  stop_waiting id inner =
      let gate = gate_at id inner in with_gate id (record gate { waiting = gate.waiting - 1 }) inner

  -- it sets the flag and has the guard
  unfoldable pub start_turn : Text → StatusTrackerInner S → StatusTrackerInner S
  start_turn id inner = set_currently_configuring id inner

  -- the time-out, and a caller that goes away
  unfoldable pub leave_queue : ℕ → Text → StatusTrackerInner S → StatusTrackerInner S
  leave_queue t id inner =
      let gate = gate_at id inner in
      with_gate id (record { turn = sem.give_up t gate.turn; waiting = gate.waiting - 1 }) inner

  -- `ConfiguringGuard::release` and its drop first clear the flag,
  unfoldable pub end_turn : Text → StatusTrackerInner S → StatusTrackerInner S
  end_turn id inner = clear_currently_configuring id inner

  -- and then drop the permit; the task that is given it
  unfoldable pub pass_on : Text → StatusTrackerInner S → StatusTrackerInner S × Option ℕ
  pass_on id inner =
      let gate = gate_at id inner in
      let (to, turn) = sem.drop_permit gate.turn in
      (with_gate id (record gate { turn = turn }) inner, to)
