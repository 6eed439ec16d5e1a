-- ===== src/Status.antt =====
-- status.rs: what the service knows about itself and its switches. Times are numbers. The operations that
-- take a switch's turn are in Status/Gates.
pub mod Gates
pub mod Turns
pub mod Order
pub mod Records
use switch_configurator.Prelude.{
  ℕ, suc, Bool, true, false, not, ◌||◌, Option, none, some, List, [], ◌∷◌, ◌++◌, Text, codes,
  text_eq, if◌then◌else◌, contains, filter, filter_map, length, is_empty, ltb, ◌==◌,
}
use switch_configurator.Prelude.HashMap.{HashMap, get, insert}
use switch_configurator.Models.Hardware.{SwitchModel}
use switch_configurator.Models.SwitchConfig.{SwitchConfig, Credentials, ConnectionType}

abbrev pub max_errors : ℕ
max_errors = 50

pub record ConfigMetadata : Type 0 where
  pub config_file : Text
  pub config_folders : List Text
  pub last_loaded : ℕ
  pub switches_count : ℕ

pub record SwitchStatus : Type 0 where
  pub id : Text
  pub hostname : Text
  pub model : Text
  pub management_ip : Text
  pub connection_type : Text
  pub last_applied : Option ℕ
  pub last_result : Option Text
  pub apply_count : ℕ
  pub success_count : ℕ
  pub failure_count : ℕ
  pub warnings : List Text

pub record ErrorRecord : Type 0 where
  pub timestamp : ℕ
  pub error_type : Text
  pub message : Text
  pub switch_hostname : Option Text
  pub operation : Text

pub record ConfigLoadError : Type 0 where
  pub timestamp : ℕ
  pub error_type : Text
  pub message : Text
  pub affected_switch : Option Text

-- a semaphore with its waiting tasks, and the number of tasks that count as waiting
pub record SwitchGate (S : Type 0) : Type 0 where
  pub turn : S
  pub waiting : ℕ

pub record StatusTrackerInner (S : Type 0) : Type 0 where
  pub start_time : ℕ
  pub config_metadata : Option ConfigMetadata
  pub switch_status : HashMap Text SwitchStatus
  pub recent_errors : List ErrorRecord
  pub config_validation_issues : List Text
  pub last_config_error : Option ConfigLoadError
  pub currently_configuring : List Text
  pub pending_config_reload : List Text
  pub gates : HashMap Text (SwitchGate S)

-- `HashSet::insert` and `HashSet::remove`
unfoldable pub set_insert : Text → List Text → List Text
set_insert k ks = if contains ks k then ks else k ∷ ks

unfoldable pub set_remove : Text → List Text → List Text
set_remove k ks = filter (λ j. not (j == k)) ks

paths_of : Option ConfigMetadata → Option (Text × List Text)
paths_of none = none
paths_of (some m) = some (m.config_file, m.config_folders)

abbrev pub pop_front {ℓ} : {A : Type ℓ} → List A → List A
pop_front [] = []
pop_front (x ∷ xs) = xs

abbrev pub keep_recent {ℓ} : {A : Type ℓ} → List A → List A
keep_recent xs = if ltb max_errors (length xs) then pop_front xs else xs

module _ {S : Type 0} where
  abbrev pub new_tracker : ℕ → StatusTrackerInner S
  new_tracker now = record {
    start_time = now;
    config_metadata = none;
    switch_status = [];
    recent_errors = [];
    config_validation_issues = [];
    last_config_error = none;
    currently_configuring = [];
    pending_config_reload = [];
    gates = [];
  }

  unfoldable pub set_currently_configuring : Text → StatusTrackerInner S → StatusTrackerInner S
  set_currently_configuring id inner = record inner {
    currently_configuring = set_insert id inner.currently_configuring;
  }

  unfoldable pub clear_currently_configuring : Text → StatusTrackerInner S → StatusTrackerInner S
  clear_currently_configuring id inner = record inner {
    currently_configuring = set_remove id inner.currently_configuring;
  }

  abbrev pub is_currently_configuring : Text → StatusTrackerInner S → Bool
  is_currently_configuring id inner = contains inner.currently_configuring id

  unfoldable pub queue_pending_reload : Text → StatusTrackerInner S → StatusTrackerInner S
  queue_pending_reload id inner = record inner {
    pending_config_reload = set_insert id inner.pending_config_reload;
  }

  abbrev pub has_pending_reload : Text → StatusTrackerInner S → Bool
  has_pending_reload id inner = contains inner.pending_config_reload id

  unfoldable pub take_pending_reload : Text → StatusTrackerInner S → StatusTrackerInner S × Bool
  take_pending_reload id inner = (
    record inner { pending_config_reload = set_remove id inner.pending_config_reload },
    has_pending_reload id inner,
  )

  abbrev pub is_switch_busy : Text → StatusTrackerInner S → Bool
  is_switch_busy id inner = is_currently_configuring id inner || has_pending_reload id inner

  abbrev waiting_at : Option (SwitchGate S) → ℕ
  waiting_at none = 0
  waiting_at (some g) = g.waiting

  abbrev pub queued_count : Text → StatusTrackerInner S → ℕ
  queued_count id inner = waiting_at (get id inner.gates)

  unfoldable pub set_config_metadata : ConfigMetadata → StatusTrackerInner S → StatusTrackerInner S
  set_config_metadata metadata inner = record inner { config_metadata = some metadata }

  unfoldable pub get_config_paths : StatusTrackerInner S → Option (Text × List Text)
  unfolding paths_of
  get_config_paths inner = paths_of inner.config_metadata

  -- the status of a switch that is known is changed
  update_status :
      (SwitchStatus → SwitchStatus)
      → Text
      → Option SwitchStatus
      → StatusTrackerInner S
      → StatusTrackerInner S
  update_status f id none inner = inner
  update_status f id (some status) inner = record inner {
    switch_status = insert id (f status) inner.switch_status;
  }

  unfoldable pub record_apply_success : Text → ℕ → StatusTrackerInner S → StatusTrackerInner S
  unfolding update_status
  record_apply_success id now inner =
      update_status
        (λ status. record status {
          last_applied = some now;
          last_result = some (codes "success");
          apply_count = suc status.apply_count;
          success_count = suc status.success_count;
        })
        id (get id inner.switch_status) inner

  unfoldable pub record_apply_failure :
      Text → Text → ℕ → StatusTrackerInner S → StatusTrackerInner S
  unfolding update_status
  record_apply_failure id error now inner =
      update_status
        (λ status. record status {
          last_applied = some now;
          last_result = some (codes "failed: " ++ error);
          apply_count = suc status.apply_count;
          failure_count = suc status.failure_count;
        })
        id (get id inner.switch_status) inner

  unfoldable pub record_warnings : Text → List Text → StatusTrackerInner S → StatusTrackerInner S
  unfolding update_status
  record_warnings id warnings inner =
      update_status (λ status. record status { warnings = warnings }) id
        (get id inner.switch_status) inner

  unfoldable pub record_error : ErrorRecord → StatusTrackerInner S → StatusTrackerInner S
  record_error error inner = record inner {
    recent_errors = keep_recent (inner.recent_errors ++ error ∷ []);
  }

  unfoldable pub set_validation_issues : List Text → StatusTrackerInner S → StatusTrackerInner S
  set_validation_issues issues inner = record inner { config_validation_issues = issues }

  unfoldable pub clear_validation_issues : StatusTrackerInner S → StatusTrackerInner S
  clear_validation_issues inner = record inner {
    config_validation_issues = [];
    last_config_error = none;
  }

  unfoldable pub set_last_config_error :
      ConfigLoadError → StatusTrackerInner S → StatusTrackerInner S
  set_last_config_error error inner = record inner { last_config_error = some error }

  abbrev queued_entry : Text × SwitchGate S → Option (Text × ℕ)
  queued_entry (id, gate) = if ltb 0 gate.waiting then some (id, gate.waiting) else none

  unfoldable pub queued_operations : StatusTrackerInner S → List (Text × ℕ)
  queued_operations inner = filter_map queued_entry inner.gates

  unfoldable pub overall_status : StatusTrackerInner S → Text
  overall_status inner =
      if is_empty inner.config_validation_issues then codes "healthy" else codes "degraded"

unfoldable pub enter_status :
    {S : Type 0}
    → Text
    → Option SwitchStatus
    → Option (StatusTrackerInner S)
    → Option (StatusTrackerInner S)
enter_status id (some status) (some inner) =
    some (record inner { switch_status = insert id status inner.switch_status })
enter_status id _ _ = none

-- What `{:?}` prints for a model and for a connection type is an argument.
module _ (show_model : SwitchModel → Text) (show_connection : ConnectionType → Text) where
  status_from : SwitchConfig → Text → SwitchModel → Text → Credentials → SwitchStatus
  status_from switch hostname model management_ip credentials = record {
    id = switch.id;
    hostname = hostname;
    model = show_model model;
    management_ip = management_ip;
    connection_type = show_connection credentials.connection_type;
    last_applied = none;
    last_result = none;
    apply_count = 0;
    success_count = 0;
    failure_count = 0;
    warnings = [];
  }

  -- `none` where one of the fields that validation makes sure of is missing: the source panics
  unfoldable pub status_with :
      SwitchConfig
      → Option Text
      → Option SwitchModel
      → Option Text
      → Option Credentials
      → Option SwitchStatus
  unfolding status_from
  status_with switch (some hostname) (some model) (some ip) (some credentials) =
      some (status_from switch hostname model ip credentials)
  status_with switch _ _ _ _ = none

  unfoldable pub initial_status : SwitchConfig → Option SwitchStatus
  unfolding status_with
  initial_status switch =
      status_with switch switch.hostname switch.model switch.management_ip switch.credentials

  module _ {S : Type 0} where
    unfoldable pub enter_switches :
        List SwitchConfig → Option (StatusTrackerInner S) → Option (StatusTrackerInner S)
    unfolding enter_status initial_status
    enter_switches [] o = o
    enter_switches (switch ∷ switches) o =
        enter_switches switches (enter_status switch.id (initial_status switch) o)

    unfoldable pub initialize_switches :
        List SwitchConfig → StatusTrackerInner S → Option (StatusTrackerInner S)
    unfolding enter_switches
    initialize_switches switches inner = enter_switches switches (some inner)
