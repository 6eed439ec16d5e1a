-- ===== src/SessionPool.antt =====
-- session_pool.rs: sessions that are kept open between operations. A vendor's connection is a number;
-- whether it resumes, what opening gives and whether it can be kept are arguments. Each operation also
-- returns the connections that it closes.
pub mod Balance
pub mod Steps
pub mod Timers
use switch_configurator.Prelude.{
  ℕ, suc, Bool, true, false, not, ◌&&◌, Option, none, some, List, [], ◌∷◌, Text, text_eq, nat_eq,
  ◌==◌, if◌then◌else◌,
}
use switch_configurator.Prelude.HashMap.{HashMap, get, insert, remove}

pub record Slot : Type 0 where
  pub vendor : ℕ
  pub fingerprint : ℕ
  pub token : ℕ

pub record PoolState : Type 0 where
  pub slots : HashMap Text Slot
  pub next_token : ℕ

pub record Session : Type 0 where
  pub vendor : ℕ
  pub switch_id : Text
  pub fingerprint : ℕ

abbrev pub without : Text → PoolState → PoolState
without id pool = record pool { slots = remove id pool.slots }

abbrev pub closed_of : Option Slot → List ℕ
closed_of none = []
closed_of (some slot) = slot.vendor ∷ []

-- a session on a connection, if there is one
abbrev pub session : Text → ℕ → Option ℕ → Option Session
session id fingerprint none = none
session id fingerprint (some v) =
    some (record { vendor = v; switch_id = id; fingerprint = fingerprint })

unfoldable pub use_kept : Text → ℕ → (ℕ → Bool) → Option ℕ → Option Slot → List ℕ × Option Session
use_kept id fingerprint resumes opened none = ([], session id fingerprint opened)
use_kept id fingerprint resumes opened (some slot) =
    if slot.fingerprint == fingerprint && resumes slot.vendor
    then ([], session id fingerprint (some slot.vendor))
    else (slot.vendor ∷ [], session id fingerprint opened)

-- The last argument but one is what `opener.open` gives where it is called.
unfoldable pub checkout :
    Text → ℕ → (ℕ → Bool) → Option ℕ → PoolState → PoolState × List ℕ × Option Session
unfolding use_kept
checkout id fingerprint resumes opened pool =
    let (closed, s) = use_kept id fingerprint resumes opened (get id pool.slots) in
    (without id pool, closed, s)

unfoldable pub close_idle : Text → PoolState → PoolState × List ℕ
close_idle id pool = (without id pool, closed_of (get id pool.slots))

unfoldable pub close_slot : Text → ℕ → PoolState → Option Slot → PoolState × List ℕ
close_slot id token pool none = (pool, [])
close_slot id token pool (some slot) =
    if slot.token == token then (without id pool, slot.vendor ∷ []) else (pool, [])

unfoldable pub close_if_token : Text → ℕ → PoolState → PoolState × List ℕ
unfolding close_slot
close_if_token id token pool = close_slot id token pool (get id pool.slots)

abbrev pub kept_slot : Session → ℕ → Slot
kept_slot s token = record { vendor = s.vendor; fingerprint = s.fingerprint; token = token }

-- The timer that is armed has the switch and the token.
unfoldable pub release : Bool → Session → PoolState → PoolState × List ℕ × Option (Text × ℕ)
release reusable s pool =
    if reusable
    then (
      record {
        slots = insert s.switch_id (kept_slot s pool.next_token) pool.slots;
        next_token = suc pool.next_token;
      },
      closed_of (get s.switch_id pool.slots),
      some (s.switch_id, pool.next_token),
    )
    else (pool, s.vendor ∷ [], none)

unfoldable pub discard : Session → List ℕ
discard s = s.vendor ∷ []
