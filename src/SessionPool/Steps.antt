-- ===== src/SessionPool/Steps.antt =====
-- The service's operations on the pool, in any order, with the timers that go off between them.
use switch_configurator.Prelude.{
  ℕ, ◌+◌, ◌≡◌, refl, Bool, true, false, ◌&&◌, Option, none, some, List, [], ◌∷◌, ◌++◌, Text,
  text_eq, nat_eq, ◌==◌, if◌then◌else◌, arith, count, count-append, Bool-cases, inl, inr,
}
use switch_configurator.Prelude.HashMap.{get}
use switch_configurator.Diff.Keyed.{distinct}
use switch_configurator.SessionPool.{
  Slot, PoolState, Session, closed_of, use_kept, checkout, close_idle, close_slot, kept_slot,
  close_if_token, release, discard,
}
use switch_configurator.SessionPool.Balance.{
  slot_key, one, held, held_by, held-remove, held-insert, distinct-insert, distinct-remove,
}

-- the pool, the sessions that are checked out, the timers that are armed, and all connections that were
-- opened and closed
pub record System : Type 0 where
  pub pool : PoolState
  pub out : List Session
  pub timers : List (Text × ℕ)
  pub opened : List ℕ
  pub closed : List ℕ

abbrev to_list {ℓ} : {A : Type ℓ} → Option A → List A
to_list none = []
to_list (some a) = a ∷ []

-- `opener.open` is called unless the kept session is taken
abbrev pub newly_opened : Text → ℕ → (ℕ → Bool) → Option ℕ → Option Slot → List ℕ
newly_opened id fingerprint resumes opened none = to_list opened
newly_opened id fingerprint resumes opened (some slot) =
    if slot.fingerprint == fingerprint && resumes slot.vendor then [] else to_list opened

abbrev pub after_checkout : Text → ℕ → (ℕ → Bool) → Option ℕ → System → System
after_checkout id fingerprint resumes opened sys =
    let result = checkout id fingerprint resumes opened sys.pool in
    record {
      pool = result.0;
      out = to_list result.2 ++ sys.out;
      timers = sys.timers;
      opened = newly_opened id fingerprint resumes opened (get id sys.pool.slots) ++ sys.opened;
      closed = result.1 ++ sys.closed;
    }

abbrev pub after_release : Bool → Session → List Session → System → System
after_release reusable s rest sys =
    let result = release reusable s sys.pool in
    record {
      pool = result.0;
      out = rest;
      timers = to_list result.2 ++ sys.timers;
      opened = sys.opened;
      closed = result.1 ++ sys.closed;
    }

pub data Step (sys : System) : System → Type 0 where
  checks_out :
      (id : Text) (fingerprint : ℕ) (resumes : ℕ → Bool) (opened : Option ℕ)
      → Step sys (after_checkout id fingerprint resumes opened sys)
  releases :
      (reusable : Bool) (before : List Session) (s : Session) (after : List Session)
      → sys.out ≡ before ++ s ∷ after
      → Step sys (after_release reusable s (before ++ after) sys)
  discards :
      (before : List Session) (s : Session) (after : List Session)
      → sys.out ≡ before ++ s ∷ after
      → Step sys (record sys { out = before ++ after; closed = discard s ++ sys.closed })
  closes_idle :
      (id : Text)
      → Step sys (record sys {
        pool = (close_idle id sys.pool).0;
        closed = (close_idle id sys.pool).1 ++ sys.closed;
      })
  goes_off :
      (before : List (Text × ℕ)) (id : Text) (token : ℕ) (after : List (Text × ℕ))
      → sys.timers ≡ before ++ (id, token) ∷ after
      → Step sys (record sys {
        pool = (close_if_token id token sys.pool).0;
        timers = before ++ after;
        closed = (close_if_token id token sys.pool).1 ++ sys.closed;
      })

abbrev pub start : System
start = record {
  pool = record { slots = []; next_token = 0 };
  out = [];
  timers = [];
  opened = [];
  closed = [];
}

pub data IsReachable : System → Type 0 where
  started : IsReachable start
  followed_by : {sys next : System} → IsReachable sys → Step sys next → IsReachable next

-- how many of the sessions use a connection
unfoldable pub using : ℕ → List Session → ℕ
using v [] = 0
using v (s ∷ ss) = one (s.vendor == v) + using v ss

using-append : (v : ℕ) (xs ys : List Session) → using v (xs ++ ys) ≡ using v xs + using v ys
unfolding using
using-append v [] ys = omega arith
using-append v (x ∷ xs) ys = ground (arith, using-append v xs ys)

-- Each opened connection is kept, checked out or closed, as often as it was opened.
abbrev pub IsBalanced : System → Type 0
IsBalanced sys =
    (v : ℕ) → held v sys.pool.slots + using v sys.out + count v sys.closed ≡ count v sys.opened

-- one slot for a switch
abbrev pub IsSound : System → Type 0
IsSound sys = (distinct slot_key sys.pool.slots ≡ true) × IsBalanced sys

count-closed_of : (v : ℕ) (o : Option Slot) → count v (closed_of o) ≡ held_by v o
unfolding count
count-closed_of v none = refl
count-closed_of v (some s) = ground arith

-- what was kept and what is opened is checked out or closed
use_kept_lem :
    (v : ℕ) (id : Text) (fingerprint : ℕ) (resumes : ℕ → Bool) (opened : Option ℕ) (o : Option Slot)
    → using v (to_list (use_kept id fingerprint resumes opened o).1)
        + count v (use_kept id fingerprint resumes opened o).0
      ≡ held_by v o + count v (newly_opened id fingerprint resumes opened o)
unfolding use_kept using count
use_kept_lem v id fingerprint resumes none none = refl
use_kept_lem v id fingerprint resumes (some w) none = ground arith
use_kept_lem v id fingerprint resumes none (some slot) = ground arith
use_kept_lem v id fingerprint resumes (some w) (some slot) = ground arith

checkout-IsSound :
    (id : Text) (fingerprint : ℕ) (resumes : ℕ → Bool) (opened : Option ℕ) (sys : System)
    → IsSound sys
    → IsSound (after_checkout id fingerprint resumes opened sys)
unfolding checkout
checkout-IsSound id fingerprint resumes opened sys (apart, balanced) =
    let o = get id sys.pool.slots in
    let kept = use_kept id fingerprint resumes opened o in
    (
      distinct-remove id sys.pool.slots apart,
      λ v.
          rw
            (
              using-append v (to_list kept.1) sys.out,
              count-append kept.0 sys.closed v,
              count-append (newly_opened id fingerprint resumes opened o) sys.opened v,
            )
            (omega (
              arith,
              use_kept_lem v id fingerprint resumes opened o,
              held-remove v id sys.pool.slots apart,
              balanced v,
            )),
    )

-- a session that is given back
using-taken :
    (v : ℕ) (out before : List Session) (s : Session) (after : List Session)
    → out ≡ before ++ s ∷ after
    → using v out ≡ one (s.vendor == v) + using v (before ++ after)
unfolding using
using-taken v out before s after h =
    rw (h, using-append v before (s ∷ after), using-append v before after) (omega arith)

release-IsSound :
    (reusable : Bool) (before : List Session) (s : Session) (after : List Session) (sys : System)
    → sys.out ≡ before ++ s ∷ after
    → IsSound sys
    → IsSound (after_release reusable s (before ++ after) sys)
unfolding release count
release-IsSound false before s after sys h (apart, balanced) =
    (apart, λ v. ground (arith, using-taken v sys.out before s after h, balanced v))
release-IsSound true before s after sys h (apart, balanced) =
    let slot = kept_slot s sys.pool.next_token in
    let old = get s.switch_id sys.pool.slots in
    (
      distinct-insert s.switch_id slot sys.pool.slots apart,
      λ v. rw (count-append (closed_of old) sys.closed v) (
          omega (
            arith,
            using-taken v sys.out before s after h,
            held-insert v s.switch_id slot sys.pool.slots,
            count-closed_of v old,
            balanced v,
          )),
    )

discard-IsSound :
    (before : List Session) (s : Session) (after : List Session) (sys : System)
    → sys.out ≡ before ++ s ∷ after
    → IsSound sys
    → IsSound (record sys { out = before ++ after; closed = discard s ++ sys.closed })
unfolding discard count
discard-IsSound before s after sys h (apart, balanced) =
    (apart, λ v. ground (arith, using-taken v sys.out before s after h, balanced v))

close_idle-IsSound :
    (id : Text) (sys : System)
    → IsSound sys
    → IsSound (record sys {
      pool = (close_idle id sys.pool).0;
      closed = (close_idle id sys.pool).1 ++ sys.closed;
    })
unfolding close_idle
close_idle-IsSound id sys (apart, balanced) = (
  distinct-remove id sys.pool.slots apart,
  λ v. rw (count-append (closed_of (get id sys.pool.slots)) sys.closed v) (
      omega (
        arith,
        held-remove v id sys.pool.slots apart,
        count-closed_of v (get id sys.pool.slots),
        balanced v,
      )),
)

abbrev after_close : PoolState × List ℕ → List (Text × ℕ) → System → System
after_close result timers sys = record sys {
  pool = result.0;
  timers = timers;
  closed = result.1 ++ sys.closed;
}

close_slot-IsSound :
    (id : Text) (token : ℕ) (timers : List (Text × ℕ)) (sys : System) (o : Option Slot)
    → get id sys.pool.slots ≡ o
    → IsSound sys
    → IsSound (after_close (close_slot id token sys.pool o) timers sys)
unfolding close_slot count
close_slot-IsSound id token timers sys none e (apart, balanced) = (apart, balanced)
close_slot-IsSound id token timers sys (some slot) e (apart, balanced) =
    elim (Bool-cases (slot.token == token)) [
      | inl t ↦ rw t (
        distinct-remove id sys.pool.slots apart,
        λ v. ground (arith, held-remove v id sys.pool.slots apart, e, balanced v),
      )
      | inr t ↦ rw t (apart, balanced)
    ]

close_if_token-IsSound :
    (id : Text) (token : ℕ) (timers : List (Text × ℕ)) (sys : System)
    → IsSound sys
    → IsSound (after_close (close_if_token id token sys.pool) timers sys)
unfolding close_if_token
close_if_token-IsSound id token timers sys h =
    close_slot-IsSound id token timers sys (get id sys.pool.slots) refl h

Step-IsSound : {sys next : System} → IsSound sys → Step sys next → IsSound next
Step-IsSound {sys} h (checks_out id fingerprint resumes opened) =
    checkout-IsSound id fingerprint resumes opened sys h
Step-IsSound {sys} h (releases reusable before s after q) =
    release-IsSound reusable before s after sys q h
Step-IsSound {sys} h (discards before s after q) = discard-IsSound before s after sys q h
Step-IsSound {sys} h (closes_idle id) = close_idle-IsSound id sys h
Step-IsSound {sys} h (goes_off before id token after q) =
    close_if_token-IsSound id token (before ++ after) sys h

-- However the operations on the pool and its timers follow each other: no switch has two kept sessions,
-- and each connection that was opened is kept, checked out or closed, together as often as it was opened.
pub reachable-IsSound : {sys : System} → IsReachable sys → IsSound sys
unfolding held using count distinct
reachable-IsSound started = (refl, λ v. refl)
reachable-IsSound (followed_by r step) = Step-IsSound (reachable-IsSound r) step
