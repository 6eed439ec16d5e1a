-- ===== src/Tests/Status.antt =====
-- The theorems on the status tracker, with a semaphore that keeps its line in a list.
use switch_configurator.Prelude.{
  contains, ◌+◌, ◌≤◌, ◌≡◌, ◌↔◌, refl, Bool, true, false, not, some, none, List, [], ◌∷◌, ◌++◌, Text,
  codes, text_eq, nat_eq, Option, arith,
}
use switch_configurator.Prelude.HashMap.{get, insert}
use switch_configurator.SessionPool.Balance.{one}
use switch_configurator.Status.{
  record_apply_success, record_apply_failure, StatusTrackerInner, SwitchStatus, new_tracker,
  ErrorRecord, is_currently_configuring, is_switch_busy, queued_count, set_currently_configuring,
  initialize_switches,
}
use switch_configurator.Status.Gates.{
  Turn, free_turn, acquired, next_turn, first_of, without_waiter, Semaphore,
  try_acquire_configuring, queue_for_turn, end_turn,
}
use switch_configurator.Status.Turns.{
  System, Step, task_at, queued, granted, guarded, cleared, is_at, start, after_try, after_queue,
  after_pass_on, tries, queues, ends, passes_on, IsReachable, started, followed_by,
}
use switch_configurator.Status.Turns.Tally.{tally}
use switch_configurator.Status.Turns.Holders.{holders, one_holder, try_acquire_iff}
use switch_configurator.Status.Order.{Run, rests, goes_on, IsOut, line, waits_no_longer}
use switch_configurator.Status.Records.{
  Recent, record_errors, record_errors_keeps_last, Update, succeeds, fails, update_all,
  counts_add_up,
}
use switch_configurator.Tests.Data.{wanted}

abbrev try_free : Bool → Turn → Option Turn
try_free true turn = none
try_free false turn = some (record turn { taken = true })

abbrev queue_semaphore : Semaphore Turn
queue_semaphore = record {
  turn_of = λ turn. turn;
  new = free_turn;
  try_acquire = λ turn. try_free turn.taken turn;
  acquire = λ t turn. (not turn.taken, acquired t turn);
  give_up = λ t turn. record turn { waiters = without_waiter t turn.waiters };
  drop_permit = λ turn. (first_of turn.waiters, next_turn turn.waiters);
  turn_of-new = refl;
  try_acquire_taken = λ turn h. rw h refl;
  try_acquire_free = λ turn h. (record turn { taken = true }, (rw h refl, refl));
  acquire_now = λ t turn. refl;
  turn_of-acquire = λ t turn. refl;
  turn_of-give_up = λ t turn. refl;
  drop_permit_to = λ turn. refl;
  turn_of-drop_permit = λ turn. refl;
}

abbrev sw1 : Text
sw1 = codes "sw1"

-- task 1 has the switch, and task 2 waits for it
abbrev taken_system : System queue_semaphore
taken_system = after_try queue_semaphore 1 sw1 (start queue_semaphore 0)

abbrev waiting_system : System queue_semaphore
waiting_system = after_queue queue_semaphore 2 sw1 taken_system

waiting-IsReachable : IsReachable queue_semaphore waiting_system
waiting-IsReachable = followed_by (followed_by (started 0) (tries 1 sw1)) (queues 2 sw1)

one_holder_example :
    (holders sw1 waiting_system.tasks ≤ 1)
    × (one (is_currently_configuring sw1 waiting_system.inner)
        ≡ tally (is_at guarded sw1) waiting_system.tasks)
    × (queued_count sw1 waiting_system.inner
        ≡ tally (is_at queued sw1) waiting_system.tasks
          + tally (is_at granted sw1) waiting_system.tasks)
one_holder_example = one_holder queue_semaphore waiting-IsReachable sw1

try_acquire_iff_example :
    ((try_acquire_configuring queue_semaphore sw1 waiting_system.inner).1 ≡ true) ↔ (
      (is_switch_busy sw1 waiting_system.inner ≡ false)
      × (holders sw1 waiting_system.tasks ≡ 0)
      × (tally (is_at queued sw1) waiting_system.tasks ≡ 0))
try_acquire_iff_example = try_acquire_iff queue_semaphore waiting-IsReachable sw1

waiting_tasks : waiting_system.tasks ≡ task_at 2 sw1 queued ∷ task_at 1 sw1 guarded ∷ []
unfolding try_acquire_configuring queue_for_turn get contains set_currently_configuring insert
    text_eq
waiting_tasks = refl

waiting_line : line queue_semaphore sw1 waiting_system ≡ [] ++ 2 ∷ []
unfolding try_acquire_configuring queue_for_turn get insert contains set_currently_configuring
    text_eq
waiting_line = refl

-- task 1 ends its turn, and passes the permit on
abbrev ended_system : System queue_semaphore
ended_system = record {
  inner = end_turn queue_semaphore sw1 waiting_system.inner;
  tasks = task_at 1 sw1 cleared ∷ task_at 2 sw1 queued ∷ [];
}

abbrev served_system : System queue_semaphore
served_system = after_pass_on queue_semaphore sw1 ended_system.inner (task_at 2 sw1 queued ∷ [])

abbrev end_step : Step queue_semaphore waiting_system ended_system
end_step = ends (task_at 2 sw1 queued ∷ []) 1 sw1 [] waiting_tasks

abbrev pass_step : Step queue_semaphore ended_system served_system
pass_step = passes_on [] 1 sw1 (task_at 2 sw1 queued ∷ []) refl

serving : Run queue_semaphore sw1 waiting_system 1 served_system
unfolding text_eq
serving = goes_on pass_step (goes_on end_step rests)

waits_no_longer_example : IsOut queue_semaphore sw1 2 waiting_system 1 served_system serving
waits_no_longer_example =
    waits_no_longer queue_semaphore sw1 2 [] [] serving waiting_line (omega arith)

abbrev two_errors : List ErrorRecord
two_errors =
    record {
      timestamp = 1;
      error_type = codes "apply";
      message = codes "timeout";
      switch_hostname = some (codes "core");
      operation = codes "configure";
    }
    ∷ record {
      timestamp = 2;
      error_type = codes "config";
      message = codes "unreadable";
      switch_hostname = none;
      operation = codes "reload";
    }
    ∷ []

record_errors_keeps_last_example :
    Recent two_errors (record_errors two_errors (new_tracker {S = Turn} 0)).recent_errors
record_errors_keeps_last_example = record_errors_keeps_last Turn 0 two_errors

abbrev updates : List Update
updates = succeeds (codes "sw1") 5 ∷ fails (codes "sw1") (codes "timeout") 6 ∷ []

abbrev entered_status : SwitchStatus
entered_status = record {
  id = wanted.id;
  hostname = codes "core";
  model = codes "model";
  management_ip = codes "192.0.2.1";
  connection_type = codes "ssh";
  last_applied = none;
  last_result = none;
  apply_count = 0;
  success_count = 0;
  failure_count = 0;
  warnings = [];
}

abbrev first_tracker : StatusTrackerInner Turn
first_tracker = record (new_tracker 0) { switch_status = (wanted.id, entered_status) ∷ [] }

first_entered :
    initialize_switches (λ m. codes "model") (λ c. codes "ssh") (wanted ∷ []) (new_tracker 0)
    ≡ some first_tracker
unfolding initialize_switches insert
first_entered = refl

abbrev last_status : SwitchStatus
last_status = record entered_status {
  last_applied = some 6;
  last_result = some (codes "failed: timeout");
  apply_count = 2;
  success_count = 1;
  failure_count = 1;
}

last_found : get (codes "sw1") (update_all updates first_tracker).switch_status ≡ some last_status
unfolding update_all get record_apply_failure record_apply_success text_eq insert
last_found = refl

counts_add_up_example :
    (last_status.id ≡ codes "sw1")
    × (last_status.apply_count ≡ last_status.success_count + last_status.failure_count)
counts_add_up_example =
    counts_add_up (λ m. codes "model") (λ c. codes "ssh") (wanted ∷ []) 0 first_tracker updates
      first_entered (codes "sw1") last_status last_found
