-- ===== src/Status/Order.antt =====
-- The line in front of a switch: first come, first served.
use switch_configurator.Prelude.{
  ℕ, suc, ◌+◌, ◌-◌, ◌≤◌, ◌<◌, ◌≡◌, refl, sym, ap, Bool, true, false, ◌⊎◌, inl, inr, Option, none,
  some, List, [], ◌∷◌, ◌++◌, Text, text_eq, nat_eq, ◌==◌, if◌then◌else◌, arith, ==_iff,
  append_assoc, length, Bool-cases, subst,
}
use switch_configurator.Prelude.HashMap.{get, insert, get-insert}
use switch_configurator.Status.{
  SwitchGate, StatusTrackerInner, set_currently_configuring, clear_currently_configuring,
  queue_pending_reload, take_pending_reload, is_switch_busy,
}
use switch_configurator.Status.Gates.{
  Turn, Semaphore, gate_at, gate_or_new, try_acquire_configuring, queue_for_turn, stop_waiting,
  start_turn, leave_queue, end_turn, pass_on, acquired, next_turn, first_of, without_waiter,
}
use switch_configurator.Status.Turns.{
  Task, System, after_try, after_pass_on, Step, tries, queues, leaves, stops_waiting, starts,
  abandons, ends, passes_on, queues_reload, takes_reload,
}

-- Where a task stands after a step: still in the line, with no more tasks ahead of it, and one less if the
-- permit was passed on; or it is the one that is given the permit; or it has left.
abbrev pub Fate : ℕ → List ℕ → List ℕ → ℕ → Option ℕ → Option ℕ → Type 0
Fate t front after passed to left =
    ((f : List ℕ) × (b : List ℕ) × (after ≡ f ++ t ∷ b) × (length f + passed ≤ length front))
    ⊎ ((to ≡ some t) ⊎ (left ≡ some t))

moved_same :
    (t : ℕ) (front back : List ℕ) (after : List ℕ) (to left : Option ℕ)
    → after ≡ front ++ t ∷ back
    → Fate t front after 0 to left
moved_same t front back after to left q = inl (front, back, q, omega arith)

moved_acquire :
    (t u : ℕ) (front back : List ℕ) (turn : Turn)
    → turn.waiters ≡ front ++ t ∷ back
    → Fate t front (acquired u turn).waiters 0 none none
moved_acquire t u front back turn q = elim (Bool-cases turn.taken) [
  | inl taken ↦ rw taken (
      inl (front, back ++ u ∷ [], rw (q, append_assoc front (t ∷ back) (u ∷ [])) refl, omega arith))
  | inr free ↦ rw free (moved_same t front back turn.waiters none none q)
]

moved_leave :
    (t u : ℕ) (front back : List ℕ)
    → Fate t front (without_waiter u (front ++ t ∷ back)) 0 none (some u)
unfolding without_waiter
moved_leave t u [] back = elim (Bool-cases (t == u)) [
  | inl e ↦ inr (inr (ap some (sym ((==_iff t u).0 e))))
  | inr e ↦ rw e (inl ([], without_waiter u back, refl, omega arith))
]
moved_leave t u (v ∷ front) back = elim (Bool-cases (v == u)) [
  | inl e ↦ rw e (inl (front, back, refl, omega arith))
  | inr e ↦ rw e (later (moved_leave t u front back))
]
  where
    later :
        Fate t front (without_waiter u (front ++ t ∷ back)) 0 none (some u)
        → Fate t (v ∷ front) (v ∷ without_waiter u (front ++ t ∷ back)) 0 none (some u)
    later (inl (f, b, q, h)) = inl (v ∷ f, b, rw q refl, omega (arith, h))
    later (inr (inr q)) = inr (inr q)
    later (inr (inl q)) = inr (inl q)

moved_pass :
    (t : ℕ) (front back : List ℕ)
    → Fate t front (next_turn (front ++ t ∷ back)).waiters 1 (first_of (front ++ t ∷ back)) none
moved_pass t [] back = inr (inl refl)
moved_pass t (v ∷ front) back = inl (front, back, refl, omega arith)

module _ {S : Type 0} (sem : Semaphore S) (j : Text) where
  abbrev line_of : Option (SwitchGate S) → List ℕ
  line_of gate = (sem.turn_of (gate_or_new sem gate).turn).waiters

  -- the tasks that wait for the switch, in their order
  abbrev pub line : System sem → List ℕ
  line sys = line_of (get j sys.inner.gates)

  -- how often a step passes the switch's permit on, to whom, and who leaves the line
  abbrev pub passes : {sys next : System sem} → Step sem sys next → ℕ
  passes (abandons before t id after q) = if id == j then 1 else 0
  passes (passes_on before t id after q) = if id == j then 1 else 0
  passes _ = 0

  abbrev pub served : {sys next : System sem} → Step sem sys next → Option ℕ
  served {sys} (abandons before t id after q) =
      if id == j then (pass_on sem id sys.inner).1 else none
  served {sys} (passes_on before t id after q) =
      if id == j then (pass_on sem id sys.inner).1 else none
  served _ = none

  abbrev pub gone : {sys next : System sem} → Step sem sys next → Option ℕ
  gone (leaves before t id after q) = if id == j then some t else none
  gone _ = none

  module _ (t : ℕ) (front back : List ℕ) where
    -- a step that changes the gate of one switch
    gate_moves :
        (P : List ℕ → Bool → Type 0) (id : Text) (gate : SwitchGate S)
        (inner : StatusTrackerInner S)
        → line_of (get j inner.gates) ≡ front ++ t ∷ back
        → (line_of (get id inner.gates) ≡ front ++ t ∷ back
            → P (sem.turn_of gate.turn).waiters true)
        → P (line_of (get j inner.gates)) false
        → P (line_of (get j (insert id gate inner.gates))) (id == j)
    gate_moves P id gate inner q here elsewhere = elim (Bool-cases (id == j)) [
      | inl e ↦
          let same = sym ((==_iff id j).0 e) in
          rw (get-insert id j gate inner.gates, e)
            (here (subst (λ (i : Text). line_of (get i inner.gates) ≡ front ++ t ∷ back) same q))
      | inr e ↦ rw (get-insert id j gate inner.gates, e) elsewhere
    ]

    gate_stays :
        (id : Text) (gate : SwitchGate S) (inner : StatusTrackerInner S)
        → line_of (get j inner.gates) ≡ front ++ t ∷ back
        → (line_of (get id inner.gates) ≡ front ++ t ∷ back
            → Fate t front (sem.turn_of gate.turn).waiters 0 none none)
        → Fate t front (line_of (get j (insert id gate inner.gates))) 0 none none
    gate_stays id gate inner q here =
        gate_moves (λ ws b. Fate t front ws 0 none none) id gate inner q here
          (moved_same t front back (line_of (get j inner.gates)) none none q)

    try_moves :
        (u : ℕ) (id : Text) (sys : System sem)
        → line sys ≡ front ++ t ∷ back
        → Fate t front (line (after_try sem u id sys)) 0 none none
    unfolding try_acquire_configuring set_currently_configuring
    try_moves u id sys q =
        let gate = gate_at sem id sys.inner in
        let stays = moved_same t front back (line sys) none none q in
        elim (Bool-cases (is_switch_busy id sys.inner)) [
          | inl busy ↦ rw busy stays
          | inr free ↦ elim (Bool-cases (sem.turn_of gate.turn).taken) [
            | inl taken ↦
                rw (free, sem.try_acquire_taken gate.turn taken)
                  (gate_stays id gate sys.inner q
                    (moved_same t front back (sem.turn_of gate.turn).waiters none none))
            | inr untaken ↦
                let (s2, (got, turn)) = sem.try_acquire_free gate.turn untaken in
                rw (free, got)
                  (gate_stays id (record gate { turn = s2 }) sys.inner q
                    (λ p.
                      rw turn
                        (moved_same t front back (sem.turn_of gate.turn).waiters none none p)))
          ]
        ]

    pass_moves :
        (id : Text) (sys : System sem) (tasks : List Task)
        → line sys ≡ front ++ t ∷ back
        → Fate t front
            (line (after_pass_on sem id sys.inner tasks))
            (if id == j then 1 else 0)
            (if id == j then (pass_on sem id sys.inner).1 else none)
            none
    unfolding pass_on
    pass_moves id sys tasks q =
        let gate = gate_at sem id sys.inner in
        gate_moves
          (λ ws b.
            Fate t front ws (if b then 1 else 0) (if b then (sem.drop_permit gate.turn).0 else none)
              none)
          id (record gate { turn = (sem.drop_permit gate.turn).1 }) sys.inner q
          (λ p.
            rw (sem.drop_permit_to gate.turn, sem.turn_of-drop_permit gate.turn, p)
              (moved_pass t front back))
          (moved_same t front back (line sys) none none q)

    step_moves :
        {sys next : System sem} (st : Step sem sys next)
        → line sys ≡ front ++ t ∷ back
        → Fate t front (line next) (passes st) (served st) (gone st)
    unfolding queue_for_turn leave_queue stop_waiting start_turn set_currently_configuring end_turn
        clear_currently_configuring queue_pending_reload take_pending_reload
    step_moves {sys} (tries u id) q = try_moves u id sys q
    step_moves {sys} (queues u id) q =
        let gate = gate_at sem id sys.inner in
        gate_stays id (record { turn = (sem.acquire u gate.turn).1; waiting = suc gate.waiting })
          sys.inner q
          (λ p.
            rw (sem.turn_of-acquire u gate.turn)
              (moved_acquire t u front back (sem.turn_of gate.turn) p))
    step_moves {sys} (leaves before u id after h) q =
        let gate = gate_at sem id sys.inner in
        gate_moves (λ ws b. Fate t front ws 0 none (if b then some u else none)) id
          (record { turn = sem.give_up u gate.turn; waiting = gate.waiting - 1 }) sys.inner q
          (λ p. rw (sem.turn_of-give_up u gate.turn, p) (moved_leave t u front back))
          (moved_same t front back (line sys) none none q)
    step_moves {sys} (stops_waiting before u id after h) q =
        let gate = gate_at sem id sys.inner in
        gate_stays id (record gate { waiting = gate.waiting - 1 }) sys.inner q
          (moved_same t front back (sem.turn_of gate.turn).waiters none none)
    step_moves {sys} (starts before u id after h) q = moved_same t front back (line sys) none none q
    step_moves {sys} (abandons before u id after h) q = pass_moves id sys (before ++ after) q
    step_moves {sys} (ends before u id after h) q = moved_same t front back (line sys) none none q
    step_moves {sys} (passes_on before u id after h) q = pass_moves id sys (before ++ after) q
    step_moves {sys} (queues_reload id) q = moved_same t front back (line sys) none none q
    step_moves {sys} (takes_reload id) q = moved_same t front back (line sys) none none q

  -- the steps from one state to a later one, and how often they pass the switch's permit on
  pub data Run (sys : System sem) : ℕ → System sem → Type 0 where
    rests : Run sys 0 sys
    goes_on :
        {k : ℕ} {mid next : System sem} (st : Step sem mid next)
        → Run sys k mid
        → Run sys (k + passes st) next

  -- One of the steps gives a task the permit, or the task leaves the line in it.
  pub data IsOut (t : ℕ) (sys : System sem)
      : (k : ℕ) (next : System sem) → Run sys k next → Type 0 where
    is_served :
        {k : ℕ} {mid next : System sem} {st : Step sem mid next} {run : Run sys k mid}
        → served st ≡ some t
        → IsOut t sys (k + passes st) next (goes_on st run)
    has_left :
        {k : ℕ} {mid next : System sem} {st : Step sem mid next} {run : Run sys k mid}
        → gone st ≡ some t
        → IsOut t sys (k + passes st) next (goes_on st run)
    was_out :
        {k : ℕ} {mid next : System sem} {st : Step sem mid next} {run : Run sys k mid}
        → IsOut t sys k mid run
        → IsOut t sys (k + passes st) next (goes_on st run)

  StillIn : ℕ → List ℕ → ℕ → System sem → Type 0
  StillIn t front k next =
      (f : List ℕ) × (b : List ℕ) × (line next ≡ f ++ t ∷ b) × (length f + k ≤ length front)

  run_moves :
      (t : ℕ) (front back : List ℕ) {sys next : System sem} {k : ℕ} (run : Run sys k next)
      → line sys ≡ front ++ t ∷ back
      → StillIn t front k next ⊎ IsOut t sys k next run
  unfolding StillIn
  run_moves t front back rests q = inl (front, back, q, omega arith)
  run_moves t front back {sys} (goes_on {k} {mid} {next} st run) q =
      after (run_moves t front back run q)
    where
      after_step :
          (f : List ℕ)
          → length f + k ≤ length front
          → Fate t f (line next) (passes st) (served st) (gone st)
          → StillIn t front (k + passes st) next ⊎ IsOut t sys (k + passes st) next (goes_on st run)
      after_step f h (inl (g, b, p, i)) = inl (g, b, p, omega (arith, h, i))
      after_step f h (inr (inl p)) = inr (is_served {st = st} p)
      after_step f h (inr (inr p)) = inr (has_left {st = st} p)

      after :
          StillIn t front k mid ⊎ IsOut t sys k mid run
          → StillIn t front (k + passes st) next ⊎ IsOut t sys (k + passes st) next (goes_on st run)
      after (inl (f, b, p, h)) = after_step f h (step_moves t f b st p)
      after (inr out) = inr (was_out {st = st} out)

  -- A task in a switch's line with `n` tasks ahead of it does not wait for ever: in each run that passes the
  -- switch's permit on more than `n` times, it has been given the permit or has left the line by itself,
  -- whoever else comes meanwhile.
  pub waits_no_longer :
      (t : ℕ) (front back : List ℕ) {sys next : System sem} {k : ℕ} (run : Run sys k next)
      → line sys ≡ front ++ t ∷ back
      → length front < k
      → IsOut t sys k next run
  unfolding StillIn
  waits_no_longer t front back run q h = elim (run_moves t front back run q) [
    | inl (f, b, p, i) ↦ absurd (omega (arith, h, i))
    | inr out ↦ out
  ]
