-- ===== src/Status/Turns/Holders.antt =====
-- What follows for the callers: one holder, exact counts, and when the turn can be taken at once.
use switch_configurator.Prelude.{
  count, ℕ, ◌+◌, ◌≤◌, ◌≡◌, ◌↔◌, refl, true, false, Option, none, some, List, [], ◌∷◌, Text, text_eq,
  nat_eq, arith, ==_refl, Bool-cases, inl, inr,
}
use switch_configurator.Prelude.HashMap.{get}
use switch_configurator.SessionPool.Balance.{one}
use switch_configurator.Status.{
  SwitchGate, StatusTrackerInner, is_switch_busy, is_currently_configuring, queued_count,
}
use switch_configurator.Status.Gates.{Semaphore, gate_at, gate_or_new, try_acquire_configuring}
use switch_configurator.Status.Turns.{
  Task, queued, granted, entitled, guarded, cleared, is_at, is_queued_as, System, IsReachable,
}
use switch_configurator.Status.Turns.Tally.{tally}
use switch_configurator.Status.Turns.Exclusive.{reachable-IsSound}

-- the tasks that have a switch's permit
abbrev pub holders : Text → List Task → ℕ
holders id tasks =
    tally (is_at granted id) tasks
    + tally (is_at entitled id) tasks
    + tally (is_at guarded id) tasks
    + tally (is_at cleared id) tasks

none_queued :
    (id : Text) (tasks : List Task)
    → ((t : ℕ) → tally (is_queued_as t id) tasks ≡ 0)
    → tally (is_at queued id) tasks ≡ 0
unfolding tally
none_queued id [] h = refl
none_queued id (x ∷ xs) h =
    ground (arith, h x.number, none_queued id xs (λ t. ground (arith, h t)), ==_refl x.number)

module _ {S : Type 0} (sem : Semaphore S) where
  queued_count_at :
      (o : Option (SwitchGate S)) (tasks : List Task) (id : Text) (inner : StatusTrackerInner S)
      → get id inner.gates ≡ o
      → queued_count id inner ≡ (gate_or_new sem o).waiting
  queued_count_at none tasks id inner q = rw q refl
  queued_count_at (some g) tasks id inner q = rw q refl

  -- However the tasks follow each other, at most one of them has a switch's permit; the switch is marked as
  -- being configured exactly while a task has a guard for it; and the number of queued operations that is
  -- reported is the number of tasks that wait or were just given the permit.
  pub one_holder :
      {sys : System sem}
      → IsReachable sem sys
      → (id : Text)
      → (holders id sys.tasks ≤ 1)
        × (one (is_currently_configuring id sys.inner) ≡ tally (is_at guarded id) sys.tasks)
        × (queued_count id sys.inner
            ≡ tally (is_at queued id) sys.tasks + tally (is_at granted id) sys.tasks)
  one_holder {sys} r id =
      let (a, b, c, d, e) = reachable-IsSound sem r id in
      (
        ground (arith, a),
        b,
        rw (queued_count_at (get id sys.inner.gates) sys.tasks id sys.inner refl) c,
      )

  -- However the tasks follow each other, a turn is taken at once exactly if the switch is not busy, no task
  -- has its permit and none waits for it: nobody in the line is overtaken.
  pub try_acquire_iff :
      {sys : System sem}
      → IsReachable sem sys
      → (id : Text)
      → ((try_acquire_configuring sem id sys.inner).1 ≡ true) ↔ (
          (is_switch_busy id sys.inner ≡ false)
          × (holders id sys.tasks ≡ 0)
          × (tally (is_at queued id) sys.tasks ≡ 0))
  unfolding try_acquire_configuring count
  try_acquire_iff {sys} r id =
      let (a, b, c, d, e) = reachable-IsSound sem r id in
      let gate = gate_at sem id sys.inner in
      elim (Bool-cases (sem.turn_of gate.turn).taken) [
        | inl taken ↦
            rw (sem.try_acquire_taken gate.turn taken) (λ h. ground arith, λ h. ground (arith, a))
        | inr free ↦
            let (s2, (got, turn)) = sem.try_acquire_free gate.turn free in
            let nobody = none_queued id sys.tasks (λ (t : ℕ). ground (arith, d t, e free)) in
            rw got (λ h. ground (arith, a, nobody), λ h. ground arith)
      ]
