-- ===== src/Status/Turns/Sound.antt =====
-- What the tracker says of a switch agrees with the tasks, for each step that a task takes.
use switch_configurator.Prelude.{
  ℕ, suc, ◌+◌, ◌-◌, ◌<◌, ◌≡◌, refl, Bool, true, false, not, List, [], ◌∷◌, ◌++◌, Text, text_eq,
  nat_eq, ◌==◌, if◌then◌else◌, arith, ==_iff, ==_refl, count, count-append,
}
use switch_configurator.SessionPool.Balance.{one}
use switch_configurator.Status.Gates.{Turn, acquired, next_turn, first_of, without_waiter}
use switch_configurator.Status.Turns.{
  Phase, Task, queued, granted, entitled, guarded, cleared, is_at, is_queued_as, grant, grant_to,
  task_at,
}
use switch_configurator.Status.Turns.Tally.{
  tally, tally-middle, grant_elsewhere, grant_elsewhere_as, grant_here, grant_here_as,
}

-- The permit, the flag, the number of those that wait and the line itself, against the tasks.
abbrev pub AgreesAt : Text → Turn → Bool → ℕ → List Task → Type 0
AgreesAt j turn flag waiting tasks =
    (one turn.taken
      ≡ tally (is_at granted j) tasks
        + tally (is_at entitled j) tasks
        + tally (is_at guarded j) tasks
        + tally (is_at cleared j) tasks)
    × (one flag ≡ tally (is_at guarded j) tasks)
    × (waiting ≡ tally (is_at queued j) tasks + tally (is_at granted j) tasks)
    × ((t : ℕ) → count t turn.waiters ≡ tally (is_queued_as t j) tasks)
    × (turn.taken ≡ false → turn.waiters ≡ [])

pub agrees-front :
    (j : Text) (turn : Turn) (flag : Bool) (w : ℕ) (before : List Task) (x : Task)
    (after : List Task)
    → AgreesAt j turn flag w (before ++ x ∷ after)
    → AgreesAt j turn flag w (x ∷ (before ++ after))
unfolding tally
agrees-front j turn flag w before x after (a, b, c, d, e) =
    let middle = λ (f : Task → Bool). tally-middle f before x after in
    (
      omega (
        arith,
        a,
        middle (is_at granted j),
        middle (is_at entitled j),
        middle (is_at guarded j),
        middle (is_at cleared j),
      ),
      omega (arith, b, middle (is_at guarded j)),
      omega (arith, c, middle (is_at queued j), middle (is_at granted j)),
      λ t. omega (arith, d t, middle (is_queued_as t j)),
      e,
    )

-- a task at another switch does not matter
pub agrees-tail :
    (j : Text) (turn : Turn) (flag : Bool) (w t : ℕ) (id : Text) (p : Phase) (tasks : List Task)
    → (id == j) ≡ false
    → AgreesAt j turn flag w (task_at t id p ∷ tasks)
    → AgreesAt j turn flag w tasks
unfolding tally
agrees-tail j turn flag w t id p tasks h (a, b, c, d, e) =
    (ground arith, ground arith, ground arith, λ u. ground (arith, d u), e)

pub agrees-cons :
    (j : Text) (turn : Turn) (flag : Bool) (w t : ℕ) (id : Text) (p : Phase) (tasks : List Task)
    → (id == j) ≡ false
    → AgreesAt j turn flag w tasks
    → AgreesAt j turn flag w (task_at t id p ∷ tasks)
unfolding tally
agrees-cons j turn flag w t id p tasks h (a, b, c, d, e) =
    (ground arith, ground arith, ground arith, λ u. ground (arith, d u), e)

pub agrees-grant :
    (j : Text) (turn : Turn) (flag : Bool) (w t : ℕ) (id : Text) (tasks : List Task)
    → (id == j) ≡ false
    → AgreesAt j turn flag w tasks
    → AgreesAt j turn flag w (grant t id tasks)
agrees-grant j turn flag w t id tasks h (a, b, c, d, e) =
    let same = λ (p : Phase). grant_elsewhere p t id j tasks h in
    (
      omega (arith, a, same granted, same entitled, same guarded, same cleared),
      omega (arith, b, same guarded),
      omega (arith, c, same queued, same granted),
      λ u. omega (arith, d u, grant_elsewhere_as u t id j tasks h),
      e,
    )

module _ (id : Text) where
  pub try_agrees :
      (turn : Turn) (flag : Bool) (w t : ℕ) (tasks : List Task)
      → turn.taken ≡ false
      → AgreesAt id turn flag w tasks
      → AgreesAt id (record turn { taken = true }) true w (task_at t id guarded ∷ tasks)
  unfolding tally
  try_agrees turn flag w t tasks h (a, b, c, d, e) = (
    ground (arith, ==_refl id),
    ground (arith, ==_refl id),
    ground arith,
    λ u. ground (arith, d u),
    λ q. ground arith,
  )

  pub queue_agrees :
      (turn : Turn) (flag : Bool) (w t : ℕ) (tasks : List Task)
      → AgreesAt id turn flag w tasks
      → AgreesAt id
          (acquired t turn)
          flag
          (suc w)
          (task_at t id (if not turn.taken then granted else queued) ∷ tasks)
  unfolding tally count
  queue_agrees turn flag w t tasks (a, b, c, d, e) = (
    ground (arith, ==_refl id),
    ground (arith, ==_refl id),
    ground (arith, ==_refl id),
    λ u. ground (arith, d u, ==_refl id, count-append turn.waiters (t ∷ []) u),
    λ q. ground arith,
  )

  count-without_waiter :
      (t u : ℕ) (us : List ℕ)
      → 0 < count t us
      → one (t == u) + count u (without_waiter t us) ≡ count u us
  unfolding count without_waiter
  count-without_waiter t u [] h = ground arith
  count-without_waiter t u (v ∷ us) h =
      ground (arith, count-without_waiter t u us, ==_iff v t, ==_iff v u, h)

  pub leave_agrees :
      (turn : Turn) (flag : Bool) (w t : ℕ) (tasks : List Task)
      → AgreesAt id turn flag w (task_at t id queued ∷ tasks)
      → AgreesAt id (record turn { waiters = without_waiter t turn.waiters }) flag (w - 1) tasks
  unfolding tally without_waiter
  leave_agrees turn flag w t tasks (a, b, c, d, e) = (
    ground (arith, ==_refl id),
    ground (arith, ==_refl id),
    ground (arith, ==_refl id),
    λ u. ground (arith, d u, d t, ==_refl id, ==_refl t, count-without_waiter t u turn.waiters),
    λ q. rw (e q) refl,
  )

  pub stop_agrees :
      (turn : Turn) (flag : Bool) (w t : ℕ) (tasks : List Task)
      → AgreesAt id turn flag w (task_at t id granted ∷ tasks)
      → AgreesAt id turn flag (w - 1) (task_at t id entitled ∷ tasks)
  unfolding tally
  stop_agrees turn flag w t tasks (a, b, c, d, e) = (
    ground (arith, ==_refl id),
    ground (arith, ==_refl id),
    ground (arith, ==_refl id),
    λ u. ground (arith, d u),
    e,
  )

  pub start_agrees :
      (turn : Turn) (flag : Bool) (w t : ℕ) (tasks : List Task)
      → AgreesAt id turn flag w (task_at t id entitled ∷ tasks)
      → AgreesAt id turn true w (task_at t id guarded ∷ tasks)
  unfolding tally
  start_agrees turn flag w t tasks (a, b, c, d, e) = (
    ground (arith, ==_refl id),
    ground (arith, ==_refl id),
    ground (arith, ==_refl id),
    λ u. ground (arith, d u),
    e,
  )

  pub end_agrees :
      (turn : Turn) (flag : Bool) (w t : ℕ) (tasks : List Task)
      → AgreesAt id turn flag w (task_at t id guarded ∷ tasks)
      → AgreesAt id turn false w (task_at t id cleared ∷ tasks)
  unfolding tally
  end_agrees turn flag w t tasks (a, b, c, d, e) = (
    ground (arith, ==_refl id),
    ground (arith, ==_refl id),
    ground (arith, ==_refl id),
    λ u. ground (arith, d u),
    e,
  )

  -- the permit is dropped in the same way by a task that never had a guard
  pub abandon_agrees :
      (j : Text) (turn : Turn) (flag : Bool) (w t : ℕ) (tasks : List Task)
      → AgreesAt j turn flag w (task_at t id entitled ∷ tasks)
      → AgreesAt j turn flag w (task_at t id cleared ∷ tasks)
  unfolding tally
  abandon_agrees j turn flag w t tasks (a, b, c, d, e) =
      (omega (arith, a), b, c, λ u. ground (arith, d u), e)

  pub pass_agrees :
      (taken flag : Bool) (ws : List ℕ) (w t : ℕ) (tasks : List Task)
      → AgreesAt id (record { taken = taken; waiters = ws }) flag w (task_at t id cleared ∷ tasks)
      → AgreesAt id (next_turn ws) flag w (grant_to (first_of ws) id tasks)
  unfolding tally count
  pass_agrees taken flag [] w t tasks (a, b, c, d, e) = (
    ground (arith, ==_refl id),
    ground (arith, ==_refl id),
    ground (arith, ==_refl id),
    λ u. ground (arith, d u),
    λ q. refl,
  )
  pass_agrees taken flag (v ∷ ws) w t tasks (a, b, c, d, e) =
      let waits : 0 < tally (is_queued_as v id) tasks = ground (arith, d v, ==_refl v) in
      let moved = grant_here v id tasks waits in
      (
        ground (arith, moved, ==_refl id),
        ground (arith, moved, ==_refl id),
        ground (arith, moved, ==_refl id),
        λ u. ground (arith, d u, grant_here_as u v id tasks waits),
        λ q. ground arith,
      )
