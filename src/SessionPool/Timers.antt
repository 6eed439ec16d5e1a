-- ===== src/SessionPool/Timers.antt =====
-- The timers that were armed for earlier keepings of a session.
use switch_configurator.Prelude.{
  ℕ, suc, ◌<◌, ◌≡◌, refl, true, false, Option, none, some, List, [], ◌∷◌, ◌++◌, Text, text_eq,
  nat_eq, ◌==◌, arith, ==_iff, All, All-map, Bool-cases, inl, inr,
}
use switch_configurator.Prelude.HashMap.{get, get-insert}
use switch_configurator.SessionPool.{
  Slot, PoolState, Session, checkout, release, kept_slot, close_idle, close_slot, close_if_token,
}
use switch_configurator.SessionPool.Steps.{System, Step, IsReachable}

-- Every armed timer has a token that was handed out.
abbrev IsIssued : System → Type 0
IsIssued sys = All (λ t. t.1 < sys.pool.next_token) sys.timers

All-taken :
    {A : Type 0} (P : A → Type 0) (before : List A) (x : A) (after : List A)
    → All P (before ++ x ∷ after)
    → P x × All P (before ++ after)
All-taken P [] x after (h, hs) = (h, hs)
All-taken P (y ∷ before) x after (h, hs) =
    let (hx, rest) = All-taken P before x after hs in (hx, (h, rest))

close_slot-next_token :
    (id : Text) (token : ℕ) (pool : PoolState) (o : Option Slot)
    → (close_slot id token pool o).0.next_token ≡ pool.next_token
unfolding close_slot
close_slot-next_token id token pool none = refl
close_slot-next_token id token pool (some slot) = elim (Bool-cases (slot.token == token)) [
  | inl t ↦ rw t refl
  | inr t ↦ rw t refl
]

Step-IsIssued : {sys next : System} → IsIssued sys → Step sys next → IsIssued next
unfolding checkout release close_idle close_if_token
Step-IsIssued h (Step.checks_out id fingerprint resumes opened) = h
Step-IsIssued {sys} h (Step.releases true before s after q) = (
  omega arith,
  All-map (λ t. t.1 < sys.pool.next_token) (λ t. t.1 < suc sys.pool.next_token) (λ t k. omega arith)
      sys.timers h,
)
Step-IsIssued h (Step.releases false before s after q) = h
Step-IsIssued h (Step.discards before s after q) = h
Step-IsIssued h (Step.closes_idle id) = h
Step-IsIssued {sys} h (Step.goes_off before id token after q) =
    rw (close_slot-next_token id token sys.pool (get id sys.pool.slots))
      (All-taken (λ t. t.1 < sys.pool.next_token) before (id, token) after (rw q at h)).1

reachable-IsIssued : {sys : System} → IsReachable sys → IsIssued sys
reachable-IsIssued IsReachable.started = tt
reachable-IsIssued (IsReachable.followed_by r step) = Step-IsIssued (reachable-IsIssued r) step

kept_lem :
    (s : Session) (pool : PoolState) (token : ℕ)
    → token < pool.next_token
    → (close_if_token s.switch_id token (release true s pool).0 ≡ ((release true s pool).0, []))
      × ((close_if_token s.switch_id pool.next_token (release true s pool).0).1 ≡ s.vendor ∷ [])
unfolding close_if_token close_slot release
kept_lem s pool token h =
    rw
      (
        get-insert s.switch_id s.switch_id (kept_slot s pool.next_token) pool.slots,
        (==_iff s.switch_id s.switch_id).1 refl,
      )
      (ground arith, ground arith)

-- Whatever operations and timers came before: once a session is released and kept, a timer that is still
-- armed for its switch from an earlier keeping does nothing when it goes off, the pool stays as it is
-- and no connection is closed, while the released session's own timer closes that session.
pub close_if_token-release :
    {sys : System} (s : Session) (before : List (Text × ℕ)) (token : ℕ) (after : List (Text × ℕ))
    → IsReachable sys
    → sys.timers ≡ before ++ (s.switch_id, token) ∷ after
    → (close_if_token s.switch_id token (release true s sys.pool).0
        ≡ ((release true s sys.pool).0, []))
      × ((close_if_token s.switch_id sys.pool.next_token (release true s sys.pool).0).1
          ≡ s.vendor ∷ [])
close_if_token-release {sys} s before token after r armed =
    let issued : All (λ t. t.1 < sys.pool.next_token) sys.timers =
      reachable-IsIssued {sys = sys} r in
    kept_lem s sys.pool token
      (All-taken (λ t. t.1 < sys.pool.next_token) before (s.switch_id, token) after
        (rw armed at issued)).0
