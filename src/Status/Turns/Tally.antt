-- ===== src/Status/Turns/Tally.antt =====
-- How many tasks are in a phase at a switch.
use switch_configurator.Prelude.{
  ℕ, suc, ◌+◌, ◌<◌, ◌≡◌, refl, Bool, false, List, [], ◌∷◌, ◌++◌, Text, text_eq, nat_eq, ◌==◌, arith,
  ==_iff,
}
use switch_configurator.SessionPool.Balance.{one}
use switch_configurator.Status.Turns.{
  Phase, Task, queued, granted, entitled, guarded, cleared, is_at, is_queued_as, grant,
}

unfoldable pub tally : (Task → Bool) → List Task → ℕ
tally f [] = 0
tally f (x ∷ xs) = one (f x) + tally f xs

-- a task in the middle counts as one in front
pub tally-middle :
    (f : Task → Bool) (before : List Task) (x : Task) (after : List Task)
    → tally f (before ++ x ∷ after) ≡ one (f x) + tally f (before ++ after)
unfolding tally
tally-middle f [] x after = refl
tally-middle f (y ∷ before) x after = ground (arith, tally-middle f before x after)

-- at another switch nothing changes
pub grant_elsewhere :
    (p : Phase) (t : ℕ) (id j : Text) (tasks : List Task)
    → (id == j) ≡ false
    → tally (is_at p j) (grant t id tasks) ≡ tally (is_at p j) tasks
unfolding tally grant
grant_elsewhere p t id j [] h = refl
grant_elsewhere p t id j (task ∷ tasks) h =
    ground (arith, grant_elsewhere p t id j tasks h, ==_iff task.switch_id id, h)

pub grant_elsewhere_as :
    (u t : ℕ) (id j : Text) (tasks : List Task)
    → (id == j) ≡ false
    → tally (is_queued_as u j) (grant t id tasks) ≡ tally (is_queued_as u j) tasks
unfolding tally grant
grant_elsewhere_as u t id j [] h = refl
grant_elsewhere_as u t id j (task ∷ tasks) h =
    ground (arith, grant_elsewhere_as u t id j tasks h, ==_iff task.switch_id id, h)

-- A waiting task is given the permit, and only it changes.
pub grant_here :
    (t : ℕ) (id : Text) (tasks : List Task)
    → 0 < tally (is_queued_as t id) tasks
    → (tally (is_at granted id) (grant t id tasks) ≡ suc (tally (is_at granted id) tasks))
      × (suc (tally (is_at queued id) (grant t id tasks)) ≡ tally (is_at queued id) tasks)
      × (tally (is_at entitled id) (grant t id tasks) ≡ tally (is_at entitled id) tasks)
      × (tally (is_at guarded id) (grant t id tasks) ≡ tally (is_at guarded id) tasks)
      × (tally (is_at cleared id) (grant t id tasks) ≡ tally (is_at cleared id) tasks)
unfolding tally grant
grant_here t id [] h = ground arith
grant_here t id (task ∷ tasks) h = ground (arith, grant_here t id tasks, h)

pub grant_here_as :
    (u t : ℕ) (id : Text) (tasks : List Task)
    → 0 < tally (is_queued_as t id) tasks
    → one (t == u) + tally (is_queued_as u id) (grant t id tasks) ≡ tally (is_queued_as u id) tasks
unfolding tally grant
grant_here_as u t id [] h = ground arith
grant_here_as u t id (task ∷ tasks) h =
    ground (arith, grant_here_as u t id tasks, h, ==_iff task.number t, ==_iff task.number u)
