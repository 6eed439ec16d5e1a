-- ===== src/Status/Turns.antt =====
-- The tasks that want switches' turns, and the steps that they take in any order.
pub mod Tally
pub mod Sound
pub mod Exclusive
pub mod Holders
use switch_configurator.Prelude.{
  ℕ, suc, ◌+◌, ◌-◌, ◌≡◌, refl, Bool, true, false, not, ◌||◌, ◌&&◌, Option, none, some, List, [],
  ◌∷◌, ◌++◌, Text, text_eq, nat_eq, ◌==◌, if◌then◌else◌, arith, contains, Bool-cases, inl, inr,
  count,
}
use switch_configurator.Prelude.HashMap.{get, insert, get-insert}
use switch_configurator.Status.{
  SwitchGate, StatusTrackerInner, new_tracker, set_currently_configuring,
  clear_currently_configuring, is_switch_busy, is_currently_configuring, queued_count,
  queue_pending_reload, take_pending_reload,
}
use switch_configurator.Status.Gates.{
  Turn, Semaphore, gate_at, try_acquire_configuring, queue_for_turn, stop_waiting, start_turn,
  leave_queue, end_turn, pass_on,
}

-- A task waits in line; it has been given the permit and still counts as waiting; it waits for the tracker's
-- lock; it has a guard; it has cleared the flag and still has the permit.
pub data Phase : Type 0 where
  queued granted entitled guarded cleared : Phase

pub record Task : Type 0 where
  pub number : ℕ
  pub switch_id : Text
  pub phase : Phase

abbrev phase_code : Phase → ℕ
phase_code queued = 0
phase_code granted = 1
phase_code entitled = 2
phase_code guarded = 3
phase_code cleared = 4

abbrev pub is_at : Phase → Text → Task → Bool
is_at p id task = phase_code task.phase == phase_code p && task.switch_id == id

abbrev pub is_queued_as : ℕ → Text → Task → Bool
is_queued_as t id task = is_at queued id task && task.number == t

-- the task that is given the permit
unfoldable pub grant : ℕ → Text → List Task → List Task
grant t id [] = []
grant t id (task ∷ tasks) =
    let rest = grant t id tasks in
    if is_queued_as t id task then record task { phase = granted } ∷ tasks else task ∷ rest

abbrev pub grant_to : Option ℕ → Text → List Task → List Task
grant_to none id tasks = tasks
grant_to (some t) id tasks = grant t id tasks

abbrev pub task_at : ℕ → Text → Phase → Task
task_at t id phase = record { number = t; switch_id = id; phase = phase }

module _ {S : Type 0} (sem : Semaphore S) where
  pub record System : Type 0 where
    pub inner : StatusTrackerInner S
    pub tasks : List Task

  abbrev pub start : ℕ → System
  start now = record { inner = new_tracker now; tasks = [] }

  abbrev with_guard : ℕ → Text → Bool → List Task → List Task
  with_guard t id false tasks = tasks
  with_guard t id true tasks = task_at t id guarded ∷ tasks

  abbrev pub after_try : ℕ → Text → System → System
  after_try t id sys =
      let result = try_acquire_configuring sem id sys.inner in
      record { inner = result.0; tasks = with_guard t id result.1 sys.tasks }

  abbrev pub after_queue : ℕ → Text → System → System
  after_queue t id sys =
      let result = queue_for_turn sem t id sys.inner in
      record {
        inner = result.0;
        tasks = task_at t id (if result.1 then granted else queued) ∷ sys.tasks;
      }

  -- the permit is dropped, by a task that is gone
  abbrev pub after_pass_on : Text → StatusTrackerInner S → List Task → System
  after_pass_on id inner tasks =
      let result = pass_on sem id inner in
      record { inner = result.0; tasks = grant_to result.1 id tasks }

  -- The task that takes a step is taken out of the list and put in front.
  pub data Step (sys : System) : System → Type 0 where
    tries : (t : ℕ) (id : Text) → Step sys (after_try t id sys)
    queues : (t : ℕ) (id : Text) → Step sys (after_queue t id sys)
    leaves :
        (before : List Task) (t : ℕ) (id : Text) (after : List Task)
        → sys.tasks ≡ before ++ task_at t id queued ∷ after
        → Step sys (record { inner = leave_queue sem t id sys.inner; tasks = before ++ after })
    stops_waiting :
        (before : List Task) (t : ℕ) (id : Text) (after : List Task)
        → sys.tasks ≡ before ++ task_at t id granted ∷ after
        → Step sys (record {
          inner = stop_waiting sem id sys.inner;
          tasks = task_at t id entitled ∷ before ++ after;
        })
    starts :
        (before : List Task) (t : ℕ) (id : Text) (after : List Task)
        → sys.tasks ≡ before ++ task_at t id entitled ∷ after
        → Step sys (record {
          inner = start_turn sem id sys.inner;
          tasks = task_at t id guarded ∷ before ++ after;
        })
    abandons :
        (before : List Task) (t : ℕ) (id : Text) (after : List Task)
        → sys.tasks ≡ before ++ task_at t id entitled ∷ after
        → Step sys (after_pass_on id sys.inner (before ++ after))
    ends :
        (before : List Task) (t : ℕ) (id : Text) (after : List Task)
        → sys.tasks ≡ before ++ task_at t id guarded ∷ after
        → Step sys (record {
          inner = end_turn sem id sys.inner;
          tasks = task_at t id cleared ∷ before ++ after;
        })
    passes_on :
        (before : List Task) (t : ℕ) (id : Text) (after : List Task)
        → sys.tasks ≡ before ++ task_at t id cleared ∷ after
        → Step sys (after_pass_on id sys.inner (before ++ after))
    queues_reload :
        (id : Text) → Step sys (record sys { inner = queue_pending_reload id sys.inner })
    takes_reload :
        (id : Text) → Step sys (record sys { inner = (take_pending_reload id sys.inner).0 })

  pub data IsReachable : System → Type 0 where
    started : (now : ℕ) → IsReachable (start now)
    followed_by : {sys next : System} → IsReachable sys → Step sys next → IsReachable next
