-- ===== src/Tests/Sessions.antt =====
-- The theorems on the session pool, for one session that is opened, kept and taken again.
use switch_configurator.Prelude.{◌++◌, none, ◌≡◌, refl, true, some, [], ◌∷◌, codes, text_eq}
use switch_configurator.Prelude.HashMap.{get}
use switch_configurator.SessionPool.{Session, release, close_if_token, checkout, use_kept}
use switch_configurator.SessionPool.Steps.{
  System, start, after_checkout, after_release, started, followed_by, checks_out, releases, IsSound,
  reachable-IsSound,
}
use switch_configurator.SessionPool.Timers.{close_if_token-release}

abbrev pub first_session : Session
first_session = record { vendor = 7; switch_id = codes "sw1"; fingerprint = 3 }

abbrev opened_system : System
opened_system = after_checkout (codes "sw1") 3 (λ v. true) (some 7) start

one_out : opened_system.out ≡ first_session ∷ []
unfolding checkout use_kept get
one_out = refl

reachable-IsSound_example : IsSound (after_release true first_session [] opened_system)
reachable-IsSound_example = reachable-IsSound (
    followed_by (followed_by started (checks_out (codes "sw1") 3 (λ v. true) (some 7)))
      (releases true [] first_session [] one_out))

-- kept once, and taken again while its timer runs
abbrev taken_again : System
taken_again =
    after_checkout (codes "sw1") 3 (λ v. true) none
      (after_release true first_session [] opened_system)

first_timer : taken_again.timers ≡ [] ++ (first_session.switch_id, 0) ∷ []
unfolding checkout release use_kept get
first_timer = refl

close_if_token-release_example :
    (close_if_token (codes "sw1") 0 (release true first_session taken_again.pool).0
      ≡ ((release true first_session taken_again.pool).0, []))
    × ((close_if_token
          (codes "sw1")
          taken_again.pool.next_token
          (release true first_session taken_again.pool).0).1
        ≡ 7 ∷ [])
close_if_token-release_example =
    close_if_token-release {sys = taken_again} first_session [] 0 []
      (followed_by
        (followed_by (followed_by started (checks_out (codes "sw1") 3 (λ v. true) (some 7)))
          (releases true [] first_session [] one_out))
        (checks_out (codes "sw1") 3 (λ v. true) none))
      first_timer
