-- ===== src/Status/Turns/Exclusive.antt =====
-- In every order of the steps, a switch's turn is held by one task at most.
use switch_configurator.Prelude.{
  ℕ, suc, ◌-◌, ◌≡◌, refl, Bool, false, not, ◌||◌, ◌&&◌, Option, none, some, List, ◌∷◌, ◌++◌, Text,
  text_eq, nat_eq, ◌==◌, if◌then◌else◌, arith, ==_iff, ==_refl, ==_sym, contains, contains-filter,
  count, subst, Bool-cases, inl, inr,
}
use switch_configurator.Prelude.HashMap.{get, insert, get-insert}
use switch_configurator.Status.{
  SwitchGate, set_insert, set_remove, set_currently_configuring, clear_currently_configuring,
  queue_pending_reload, take_pending_reload, is_switch_busy,
}
use switch_configurator.Status.Gates.{
  Semaphore, gate_at, gate_or_new, try_acquire_configuring, queue_for_turn, stop_waiting,
  start_turn, leave_queue, end_turn, pass_on, with_gate,
}
use switch_configurator.Status.Turns.{
  Task, queued, granted, entitled, guarded, cleared, task_at, grant_to, System, after_try,
  after_queue, after_pass_on, Step, tries, queues, leaves, stops_waiting, starts, abandons, ends,
  passes_on, queues_reload, takes_reload, IsReachable, started, followed_by,
}
use switch_configurator.Status.Turns.Tally.{tally}
use switch_configurator.Status.Turns.Sound.{
  AgreesAt, agrees-front, agrees-tail, agrees-cons, agrees-grant, try_agrees, queue_agrees,
  leave_agrees, stop_agrees, start_agrees, end_agrees, abandon_agrees, pass_agrees,
}

contains-set_insert :
    (k j : Text) (ks : List Text) → contains (set_insert k ks) j ≡ (k == j || contains ks j)
unfolding set_insert contains
contains-set_insert k j ks = ground (arith, ==_iff k j)

contains-set_remove :
    (k j : Text) (ks : List Text) → contains (set_remove k ks) j ≡ (not (j == k) && contains ks j)
unfolding set_remove
contains-set_remove k j ks = contains-filter (λ i. not (i == k)) j ks

-- what is shown for the switch itself and for the others holds for all
at_each : (P : Text → Type 0) (id j : Text) → P id → ((id == j) ≡ false → P j) → P j
at_each P id j here elsewhere = elim (Bool-cases (id == j)) [
  | inl e ↦ subst P ((==_iff id j).0 e) here
  | inr e ↦ elsewhere e
]

module _ {S : Type 0} (sem : Semaphore S) where
  abbrev AgreesGate : Text → Option (SwitchGate S) → Bool → List Task → Type 0
  AgreesGate j gate flag tasks =
      AgreesAt j (sem.turn_of (gate_or_new sem gate).turn) flag (gate_or_new sem gate).waiting tasks

  abbrev pub IsSound : System sem → Type 0
  IsSound sys =
      (j : Text)
      → AgreesGate j (get j sys.inner.gates) (contains sys.inner.currently_configuring j) sys.tasks

  -- a step that changes the gate of one switch
  changes_gate :
      (id : Text) (gate : SwitchGate S) (before after : System sem)
      → after.inner.gates ≡ insert id gate before.inner.gates
      → AgreesGate id (some gate) (contains after.inner.currently_configuring id) after.tasks
      → ((j : Text)
          → (id == j) ≡ false
          → AgreesGate j
              (get j before.inner.gates)
              (contains after.inner.currently_configuring j)
              after.tasks)
      → IsSound after
  changes_gate id gate before after q here elsewhere = λ j.
      rw (q, get-insert id j gate before.inner.gates)
        (at_each
          (λ (i : Text).
            AgreesGate i (if id == i then some gate else get i before.inner.gates)
              (contains after.inner.currently_configuring i) after.tasks)
          id j (rw (==_refl id) here) (λ e. rw e (elsewhere j e)))

  queue-IsSound :
      (t : ℕ) (id : Text) (sys : System sem) → IsSound sys → IsSound (after_queue sem t id sys)
  unfolding queue_for_turn
  queue-IsSound t id sys h =
      changes_gate id
        (record {
          turn = (sem.acquire t (gate_at sem id sys.inner).turn).1;
          waiting = suc (gate_at sem id sys.inner).waiting;
        })
        sys (after_queue sem t id sys) refl
        (rw
          (
            sem.acquire_now t (gate_at sem id sys.inner).turn,
            sem.turn_of-acquire t (gate_at sem id sys.inner).turn,
          )
          (queue_agrees id (sem.turn_of (gate_at sem id sys.inner).turn)
            (contains sys.inner.currently_configuring id) (gate_at sem id sys.inner).waiting t
            sys.tasks (h id)))
        (λ j e. agrees-cons j _ _ _ t id _ sys.tasks e (h j))

  -- the task that takes the step, in front
  fronted :
      (sys : System sem) (before : List Task) (x : Task) (after : List Task)
      → sys.tasks ≡ before ++ x ∷ after
      → IsSound sys
      → (j : Text)
      → AgreesGate j
          (get j sys.inner.gates)
          (contains sys.inner.currently_configuring j)
          (x ∷ (before ++ after))
  fronted sys before x after q h j = agrees-front j _ _ _ before x after (
      subst
        (λ (ts : List Task).
          AgreesGate j (get j sys.inner.gates) (contains sys.inner.currently_configuring j) ts)
        q (h j))

  leave-IsSound :
      (sys : System sem) (t : ℕ) (id : Text) (before after : List Task)
      → sys.tasks ≡ before ++ task_at t id queued ∷ after
      → IsSound sys
      → IsSound (record { inner = leave_queue sem t id sys.inner; tasks = before ++ after })
  unfolding leave_queue
  leave-IsSound sys t id before after q h =
      let gate = gate_at sem id sys.inner in
      let f = fronted sys before (task_at t id queued) after q h in
      changes_gate id (record { turn = sem.give_up t gate.turn; waiting = gate.waiting - 1 }) sys
        (record { inner = leave_queue sem t id sys.inner; tasks = before ++ after }) refl
        (rw (sem.turn_of-give_up t gate.turn) (leave_agrees id _ _ _ t (before ++ after) (f id)))
        (λ j e. agrees-tail j _ _ _ t id queued (before ++ after) e (f j))

  stop-IsSound :
      (sys : System sem) (t : ℕ) (id : Text) (before after : List Task)
      → sys.tasks ≡ before ++ task_at t id granted ∷ after
      → IsSound sys
      → IsSound (record {
        inner = stop_waiting sem id sys.inner;
        tasks = task_at t id entitled ∷ before ++ after;
      })
  unfolding stop_waiting
  stop-IsSound sys t id before after q h =
      let gate = gate_at sem id sys.inner in
      let f = fronted sys before (task_at t id granted) after q h in
      changes_gate id (record gate { waiting = gate.waiting - 1 }) sys
        (record {
          inner = stop_waiting sem id sys.inner;
          tasks = task_at t id entitled ∷ before ++ after;
        })
        refl (stop_agrees id _ _ _ t (before ++ after) (f id))
        (λ j e.
          agrees-cons j _ _ _ t id entitled (before ++ after) e
            (agrees-tail j _ _ _ t id granted (before ++ after) e (f j)))

  start-IsSound :
      (sys : System sem) (t : ℕ) (id : Text) (before after : List Task)
      → sys.tasks ≡ before ++ task_at t id entitled ∷ after
      → IsSound sys
      → IsSound (record {
        inner = start_turn sem id sys.inner;
        tasks = task_at t id guarded ∷ before ++ after;
      })
  unfolding start_turn set_currently_configuring
  start-IsSound sys t id before after q h = λ j.
      let f = fronted sys before (task_at t id entitled) after q h in
      rw (contains-set_insert id j sys.inner.currently_configuring) (
        at_each
          (λ (i : Text).
            AgreesGate i (get i sys.inner.gates)
              (id == i || contains sys.inner.currently_configuring i)
              (task_at t id guarded ∷ before ++ after))
          id j (rw (==_refl id) (start_agrees id _ _ _ t (before ++ after) (f id)))
          (λ e. rw e (
            agrees-cons j _ _ _ t id guarded (before ++ after) e
              (agrees-tail j _ _ _ t id entitled (before ++ after) e (f j)))))

  end-IsSound :
      (sys : System sem) (t : ℕ) (id : Text) (before after : List Task)
      → sys.tasks ≡ before ++ task_at t id guarded ∷ after
      → IsSound sys
      → IsSound (record {
        inner = end_turn sem id sys.inner;
        tasks = task_at t id cleared ∷ before ++ after;
      })
  unfolding end_turn clear_currently_configuring
  end-IsSound sys t id before after q h = λ j.
      let f = fronted sys before (task_at t id guarded) after q h in
      rw (contains-set_remove id j sys.inner.currently_configuring) (
        at_each
          (λ (i : Text).
            AgreesGate i (get i sys.inner.gates)
              (not (i == id) && contains sys.inner.currently_configuring i)
              (task_at t id cleared ∷ before ++ after))
          id j (rw (==_refl id) (end_agrees id _ _ _ t (before ++ after) (f id)))
          (λ e.
            rw (==_sym j id, e)
              (agrees-cons j _ _ _ t id cleared (before ++ after) e
                (agrees-tail j _ _ _ t id guarded (before ++ after) e (f j)))))

  -- the permit is dropped by the task in front
  pass-IsSound :
      (sys : System sem) (t : ℕ) (id : Text) (rest : List Task)
      → IsSound (record { inner = sys.inner; tasks = task_at t id cleared ∷ rest })
      → IsSound (after_pass_on sem id sys.inner rest)
  unfolding pass_on
  pass-IsSound sys t id rest h =
      let gate = gate_at sem id sys.inner in
      changes_gate id (record gate { turn = (sem.drop_permit gate.turn).1 }) sys
        (after_pass_on sem id sys.inner rest) refl
        (rw (sem.drop_permit_to gate.turn, sem.turn_of-drop_permit gate.turn)
          (pass_agrees id _ _ (sem.turn_of gate.turn).waiters _ t rest (h id)))
        (λ j e.
          granted_elsewhere (sem.drop_permit gate.turn).0 j e
            (agrees-tail j _ _ _ t id cleared rest e (h j)))
    where
      granted_elsewhere :
          (o : Option ℕ) (j : Text)
          → (id == j) ≡ false
          → AgreesGate j (get j sys.inner.gates) (contains sys.inner.currently_configuring j) rest
          → AgreesGate j
              (get j sys.inner.gates)
              (contains sys.inner.currently_configuring j)
              (grant_to o id rest)
      granted_elsewhere none j e k = k
      granted_elsewhere (some u) j e k = agrees-grant j _ _ _ u id rest e k

  try-IsSound :
      (t : ℕ) (id : Text) (sys : System sem) → IsSound sys → IsSound (after_try sem t id sys)
  unfolding try_acquire_configuring set_currently_configuring
  try-IsSound t id sys h = elim (Bool-cases (is_switch_busy id sys.inner)) [
    | inl busy ↦ rw busy h
    | inr free ↦ elim (Bool-cases (sem.turn_of (gate_at sem id sys.inner).turn).taken) [
      | inl taken ↦
          rw (free, sem.try_acquire_taken (gate_at sem id sys.inner).turn taken)
            (changes_gate id (gate_at sem id sys.inner) sys
              (record {
                inner = with_gate sem id (gate_at sem id sys.inner) sys.inner;
                tasks = sys.tasks;
              })
              refl (h id) (λ j e. h j))
      | inr untaken ↦
          let (s2, (got, turn)) = sem.try_acquire_free (gate_at sem id sys.inner).turn untaken in
          let flags = sys.inner.currently_configuring in
          rw (free, got)
            (changes_gate id (record (gate_at sem id sys.inner) { turn = s2 }) sys
              (record {
                inner =
                    set_currently_configuring id (
                      with_gate sem id (record (gate_at sem id sys.inner) { turn = s2 }) sys.inner);
                tasks = task_at t id guarded ∷ sys.tasks;
              })
              refl
              (rw (contains-set_insert id id flags, ==_refl id, turn)
                (try_agrees id _ _ _ t sys.tasks untaken (h id)))
              (λ j e.
                rw (contains-set_insert id j flags, e)
                  (agrees-cons j _ _ _ t id guarded sys.tasks e (h j))))
    ]
  ]

  Step-IsSound : {sys next : System sem} → IsSound sys → Step sem sys next → IsSound next
  unfolding queue_pending_reload take_pending_reload
  Step-IsSound {sys} h (tries t id) = try-IsSound t id sys h
  Step-IsSound {sys} h (queues t id) = queue-IsSound t id sys h
  Step-IsSound {sys} h (leaves before t id after q) = leave-IsSound sys t id before after q h
  Step-IsSound {sys} h (stops_waiting before t id after q) = stop-IsSound sys t id before after q h
  Step-IsSound {sys} h (starts before t id after q) = start-IsSound sys t id before after q h
  Step-IsSound {sys} h (abandons before t id after q) =
      pass-IsSound sys t id (before ++ after) (λ j.
        abandon_agrees id j _ _ _ t (before ++ after)
          (fronted sys before (task_at t id entitled) after q h j))
  Step-IsSound {sys} h (ends before t id after q) = end-IsSound sys t id before after q h
  Step-IsSound {sys} h (passes_on before t id after q) =
      pass-IsSound sys t id (before ++ after) (fronted sys before (task_at t id cleared) after q h)
  Step-IsSound {sys} h (queues_reload id) = h
  Step-IsSound {sys} h (takes_reload id) = h

  pub reachable-IsSound : {sys : System sem} → IsReachable sem sys → IsSound sys
  unfolding tally get contains count
  reachable-IsSound (started now) = λ j. rw sem.turn_of-new (refl, refl, refl, λ t. refl, λ q. refl)
  reachable-IsSound (followed_by r step) = Step-IsSound (reachable-IsSound r) step
