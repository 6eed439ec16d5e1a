-- ===== src/Status/Records.antt =====
-- What is recorded of errors and of the applied configurations.
use switch_configurator.Prelude.{
  some_inj, All, ap, ℕ, suc, ◌+◌, ◌≤◌, ◌<◌, ◌≡◌, refl, Option, none, some, List, [], ◌∷◌, ◌++◌,
  Text, text_eq, ◌==◌, arith, ==_iff, length, Bool-cases, inl, inr, append_assoc, append-nil, ltb,
  subst,
}
use switch_configurator.Prelude.HashMap.{HashMap, get, insert}
use switch_configurator.Models.Hardware.{SwitchModel}
use switch_configurator.Models.SwitchConfig.{Credentials, SwitchConfig, ConnectionType}
use switch_configurator.Status.{
  enter_switches, enter_status, status_with, max_errors, SwitchStatus, ErrorRecord,
  StatusTrackerInner, new_tracker, keep_recent, record_error, record_apply_success,
  record_apply_failure, record_warnings, update_status, initial_status, status_from,
  initialize_switches,
}

length-snoc {ℓ} : {A : Type ℓ} (xs : List A) (x : A) → length (xs ++ x ∷ []) ≡ suc (length xs)
length-snoc [] x = refl
length-snoc (y ∷ xs) x = ap suc (length-snoc xs x)

-- the last of all errors, at most 50; older ones are left out only if there are 50
abbrev pub Recent : List ErrorRecord → List ErrorRecord → Type 0
Recent all recent =
    (older : List ErrorRecord) × (all ≡ older ++ recent)
    × (length recent ≤ max_errors)
    × (0 < length older → length recent ≡ max_errors)

keep_recent_lem :
    (all recent : List ErrorRecord) (e : ErrorRecord)
    → Recent all recent
    → Recent (all ++ e ∷ []) (keep_recent (recent ++ e ∷ []))
keep_recent_lem all [] e (older, q, h, k) = (
  older,
  rw (q, append_assoc older [] (e ∷ [])) refl,
  omega arith,
  λ i. absurd (omega (arith, k i)),
)
keep_recent_lem all (x ∷ recent) e (older, q, h, k) =
    elim (Bool-cases (ltb max_errors (length (x ∷ recent ++ e ∷ [])))) [
      | inl full ↦ rw full (
        older ++ x ∷ [],
        rw
            (
              q,
              append_assoc older (x ∷ recent) (e ∷ []),
              append_assoc older (x ∷ []) (recent ++ e ∷ []),
            )
            refl,
        ground (arith, length-snoc recent e),
        λ i. ground (arith, length-snoc recent e),
      )
      | inr free ↦ rw free (
        older,
        rw (q, append_assoc older (x ∷ recent) (e ∷ [])) refl,
        ground (arith, length-snoc recent e),
        λ i. ground (arith, length-snoc recent e, k i),
      )
    ]

module _ {S : Type 0} where
  -- errors in the order in which they happen
  unfoldable pub record_errors : List ErrorRecord → StatusTrackerInner S → StatusTrackerInner S
  record_errors [] inner = inner
  record_errors (e ∷ es) inner = record_errors es (record_error e inner)

  recorded_after :
      (all es : List ErrorRecord) (inner : StatusTrackerInner S)
      → Recent all inner.recent_errors
      → Recent (all ++ es) (record_errors es inner).recent_errors
  unfolding record_errors record_error
  recorded_after all [] inner h = rw (append-nil all) h
  recorded_after all (e ∷ es) inner h =
      subst (λ (l : List ErrorRecord). Recent l (record_errors (e ∷ es) inner).recent_errors)
        (append_assoc all (e ∷ []) es)
        (recorded_after (all ++ e ∷ []) es (record_error e inner)
          (keep_recent_lem all inner.recent_errors e h))

-- Whatever errors happen, in whatever number, a tracker that is new keeps the last ones in their order, at
-- most 50 of them, and has forgotten one only if it keeps 50 newer ones.
pub record_errors_keeps_last :
    (S : Type 0) (now : ℕ) (es : List ErrorRecord)
    → Recent es (record_errors es (new_tracker {S = S} now)).recent_errors
record_errors_keeps_last S now es =
    recorded_after [] es (new_tracker now) ([], refl, omega arith, λ i. absurd (omega arith))

-- each attempt is a success or a failure
abbrev CountsAddUp : SwitchStatus → Type 0
CountsAddUp status = status.apply_count ≡ status.success_count + status.failure_count

-- what is recorded of a switch
pub data Update : Type 0 where
  succeeds : (id : Text) (now : ℕ) → Update
  fails : (id : Text) (error : Text) (now : ℕ) → Update
  warns : (id : Text) (warnings : List Text) → Update

-- the entry of each switch is its own, and its counts add up
abbrev OwnEntry : Text × SwitchStatus → Type 0
OwnEntry (id, status) = (status.id ≡ id) × CountsAddUp status

insert-OwnEntry :
    (id : Text) (status : SwitchStatus) (m : HashMap Text SwitchStatus)
    → OwnEntry (id, status)
    → All OwnEntry m
    → All OwnEntry (insert id status m)
unfolding insert
insert-OwnEntry id status [] own h = (own, tt)
insert-OwnEntry id status ((j, w) ∷ m) own (first, h) = elim (Bool-cases (j == id)) [
  | inl e ↦ rw (e, (==_iff j id).0 e) (own, h)
  | inr e ↦ rw e (first, insert-OwnEntry id status m own h)
]

get-OwnEntry :
    (id : Text) (status : SwitchStatus) (m : HashMap Text SwitchStatus)
    → get id m ≡ some status
    → All OwnEntry m
    → OwnEntry (id, status)
unfolding get
get-OwnEntry id status [] q h = ground arith
get-OwnEntry id status ((j, w) ∷ m) q (first, h) = elim (Bool-cases (j == id)) [
  | inl e ↦ ground (arith, first, (==_iff j id).0 e, e, q)
  | inr e ↦ get-OwnEntry id status m (ground arith) h
]

module _ (show_model : SwitchModel → Text) (show_connection : ConnectionType → Text) where
  status_with-OwnEntry :
      (switch : SwitchConfig) (h : Option Text) (m : Option SwitchModel) (ip : Option Text)
      (c : Option Credentials) (status : SwitchStatus)
      → status_with show_model show_connection switch h m ip c ≡ some status
      → OwnEntry (switch.id, status)
  unfolding status_with status_from
  status_with-OwnEntry switch (some h) (some m) (some ip) (some c) status q =
      subst (λ (s : SwitchStatus). OwnEntry (switch.id, s)) (some_inj q) (refl, refl)
  status_with-OwnEntry switch none _ _ _ status q = ground arith
  status_with-OwnEntry switch (some h) none _ _ status q = ground arith
  status_with-OwnEntry switch (some h) (some m) none _ status q = ground arith
  status_with-OwnEntry switch (some h) (some m) (some ip) none status q = ground arith

module _ {S : Type 0} where
  abbrev pub IsCounted : StatusTrackerInner S → Type 0
  IsCounted inner = All OwnEntry inner.switch_status

  abbrev pub update : Update → StatusTrackerInner S → StatusTrackerInner S
  update (succeeds id now) inner = record_apply_success id now inner
  update (fails id error now) inner = record_apply_failure id error now inner
  update (warns id warnings) inner = record_warnings id warnings inner

  unfoldable pub update_all : List Update → StatusTrackerInner S → StatusTrackerInner S
  update_all [] inner = inner
  update_all (u ∷ us) inner = update_all us (update u inner)

  update_status-IsCounted :
      (f : SwitchStatus → SwitchStatus) (id : Text) (o : Option SwitchStatus)
      (inner : StatusTrackerInner S)
      → ((status : SwitchStatus) → OwnEntry (id, status) → OwnEntry (id, f status))
      → get id inner.switch_status ≡ o
      → IsCounted inner
      → IsCounted (update_status f id o inner)
  unfolding update_status
  update_status-IsCounted f id none inner own q h = h
  update_status-IsCounted f id (some status) inner own q h =
      insert-OwnEntry id (f status) inner.switch_status
        (own status (get-OwnEntry id status inner.switch_status q h)) h

  update-IsCounted :
      (u : Update) (inner : StatusTrackerInner S) → IsCounted inner → IsCounted (update u inner)
  unfolding record_apply_success record_apply_failure record_warnings
  update-IsCounted (succeeds id now) inner h =
      update_status-IsCounted _ id (get id inner.switch_status) inner
        (λ status own. (own.0, omega (arith, own.1))) refl h
  update-IsCounted (fails id error now) inner h =
      update_status-IsCounted _ id (get id inner.switch_status) inner
        (λ status own. (own.0, omega (arith, own.1))) refl h
  update-IsCounted (warns id warnings) inner h =
      update_status-IsCounted _ id (get id inner.switch_status) inner (λ status own. own) refl h

  update_all-IsCounted :
      (us : List Update) (inner : StatusTrackerInner S)
      → IsCounted inner
      → IsCounted (update_all us inner)
  unfolding update_all
  update_all-IsCounted [] inner h = h
  update_all-IsCounted (u ∷ us) inner h =
      update_all-IsCounted us (update u inner) (update-IsCounted u inner h)

  abbrev AllCounted : Option (StatusTrackerInner S) → Type 0
  AllCounted none = Unit
  AllCounted (some inner) = IsCounted inner

  enter_status-IsCounted :
      (id : Text) (o : Option SwitchStatus) (p : Option (StatusTrackerInner S))
      → ((status : SwitchStatus) → o ≡ some status → OwnEntry (id, status))
      → AllCounted p
      → AllCounted (enter_status id o p)
  unfolding enter_status
  enter_status-IsCounted id (some status) (some inner) own h =
      insert-OwnEntry id status inner.switch_status (own status refl) h
  enter_status-IsCounted id none _ own h = tt
  enter_status-IsCounted id (some status) none own h = tt

  module _ (show_model : SwitchModel → Text) (show_connection : ConnectionType → Text) where
    enter_switches-IsCounted :
        (switches : List SwitchConfig) (o : Option (StatusTrackerInner S))
        → AllCounted o
        → AllCounted (enter_switches show_model show_connection switches o)
    unfolding enter_switches initial_status
    enter_switches-IsCounted [] o h = h
    enter_switches-IsCounted (switch ∷ switches) o h = enter_switches-IsCounted switches _ (
        enter_status-IsCounted switch.id (initial_status show_model show_connection switch) o
          (status_with-OwnEntry show_model show_connection switch switch.hostname switch.model
            switch.management_ip switch.credentials)
          h)

    -- Whatever is recorded after the switches of a configuration are entered into a new tracker, each entry
    -- has the id that it is found by, and its attempts are its successes and its failures together.
    pub counts_add_up :
        (switches : List SwitchConfig) (now : ℕ) (inner : StatusTrackerInner S) (us : List Update)
        → initialize_switches show_model show_connection switches (new_tracker now) ≡ some inner
        → (id : Text) (status : SwitchStatus)
        → get id (update_all us inner).switch_status ≡ some status
        → (status.id ≡ id) × (status.apply_count ≡ status.success_count + status.failure_count)
    unfolding initialize_switches
    counts_add_up switches now inner us q id status found = get-OwnEntry id status _ found (
        update_all-IsCounted us inner
          (subst AllCounted q (enter_switches-IsCounted switches (some (new_tracker now)) tt)))
