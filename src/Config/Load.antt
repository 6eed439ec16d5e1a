-- ===== src/Config/Load.antt =====
-- config.rs: the files of a configuration are read, sorted by priority and merged, switch by switch. What
-- YAML makes of a file, and the files of a folder, are arguments. The registry of secrets and the parts of
-- a failure that are only shown (its preview and its sources) are left out.
pub mod Grouped
pub mod Accounted
use switch_configurator.Prelude.{
  ℕ, Bool, true, false, not, ◌&&◌, ◌||◌, Option, none, some, List, [], ◌∷◌, ◌++◌, Text, codes,
  text_eq, ◌==◌, ◌!=◌, ltb, leb, unwrap_or, is_empty, filter, if◌then◌else◌, map,
}
use switch_configurator.Prelude.Sort.{sort}
use switch_configurator.Prelude.Str.{rsplit_once, text_le}
use switch_configurator.Prelude.HashMap.{HashMap, HashOrder, get, insert, keys}
use switch_configurator.Models.Network.{Vlan}
use switch_configurator.Models.SwitchConfig.{SwitchConfig}
use switch_configurator.Config.Result.{
  ConfigError, Result, ok, err, ensure, ◌>>=◌, ◌>>◌, structural, priority_reserved,
}
use switch_configurator.Config.PortRange.{expand_port_ranges}
use switch_configurator.Config.References.{RangePattern}
use switch_configurator.Config.Merge.{
  ConfigWithMetadata, MergeConflict, merge_single_switch, validate_switch_identity, vlan_id,
}
use switch_configurator.Config.Validate.{Structure, validate_switch_config, check_merged}
use switch_configurator.Secrets.{Files, SecretContext}

pub data ConfigSourceType : Type 0 where
  main_config folder_config : ConfigSourceType

unfoldable pub default_priority : ConfigSourceType → ℕ
default_priority main_config = 50
default_priority folder_config = 100

-- `AppConfigFile`
pub record AppConfigFile : Type 0 where
  pub merge_priority : Option ℕ
  pub switches : List SwitchConfig

-- `ConfigWithMetadata` with all switches of a file
pub record SourceConfig : Type 0 where
  pub switches : List SwitchConfig
  pub merge_priority : ℕ
  pub source_file : Text
  pub source_type : ConfigSourceType

pub record SwitchValidationFailure : Type 0 where
  pub switch_id : Text
  pub hostname : Option Text
  pub error : ConfigError
  pub vlan_sources : HashMap ℕ Text
  pub port_sources : HashMap Text Text

-- the switches that run and those that do not
pub record ValidationResult : Type 0 where
  pub valid : List SwitchConfig
  pub failures : List SwitchValidationFailure

abbrev no_result : ValidationResult
no_result = record { valid = []; failures = [] }

abbrev with_valid : SwitchConfig → ValidationResult → ValidationResult
with_valid switch result = record result { valid = switch ∷ result.valid }

abbrev with_failure : SwitchValidationFailure → ValidationResult → ValidationResult
with_failure failure result = record result { failures = failure ∷ result.failures }

-- `load_multi`: no configuration, conflicts about switches' identities, or the merged switches
pub data MergeOutcome : Type 0 where
  nothing_to_merge : MergeOutcome
  conflicting : List (Text × MergeConflict) → MergeOutcome
  merged : ValidationResult → MergeOutcome

module _ (structure : Structure) (pattern_of : RangePattern) (files : Files)
    (ctx : SecretContext) where
  validated : SwitchConfig → Result (SwitchConfig × List Text) → ValidationResult → ValidationResult
  validated switch (ok x) result = with_valid x.0 result
  validated switch (err problem) result =
      with_failure
        (record {
          switch_id = switch.id;
          hostname = switch.hostname;
          error = problem;
          vlan_sources = [];
          port_sources = [];
        })
        result

  unfoldable pub validate_all_switches : List SwitchConfig → ValidationResult
  unfolding validated
  validate_all_switches [] = no_result
  validate_all_switches (switch ∷ switches) =
      validated switch (validate_switch_config structure pattern_of files ctx switch [])
        (validate_all_switches switches)

module _ (structure : Structure) where
  unfoldable pub expand_all : List SwitchConfig → Result (List SwitchConfig)
  expand_all [] = ok []
  expand_all (switch ∷ switches) =
      expand_port_ranges switch >>= λ expanded. expand_all switches >>= λ rest. ok (expanded ∷ rest)

  unfoldable pub check_structures : List SwitchConfig → Result (Unit {0})
  check_structures [] = ok tt
  check_structures (switch ∷ switches) =
      ensure (structure switch) structural >> check_structures switches

  abbrev priority_allowed : ConfigSourceType → ℕ → Bool
  priority_allowed main_config p = true
  priority_allowed folder_config p = leb 11 p

  unfoldable pub source_from : Text → ConfigSourceType → AppConfigFile → Result SourceConfig
  unfolding expand_all check_structures default_priority
  source_from path source_type file = do
    expanded ← expand_all file.switches
    check_structures expanded
    ensure
        (priority_allowed source_type
          (unwrap_or file.merge_priority (default_priority source_type)))
        (priority_reserved path (unwrap_or file.merge_priority (default_priority source_type)))
    ok (record {
      switches = expanded;
      merge_priority = unwrap_or file.merge_priority (default_priority source_type);
      source_file = path;
      source_type = source_type;
    })

  module _ (read_file : Text → Result AppConfigFile) where
    unfoldable pub load_with_metadata : Text → ConfigSourceType → Result SourceConfig
    unfolding source_from
    load_with_metadata path source_type = read_file path >>= source_from path source_type

    -- the last part of the name after a dot, if something stands before it
    abbrev extension : Option (Text × Text) → Text
    extension none = []
    extension (some (stem, ext)) = if is_empty stem then [] else ext

    abbrev is_yaml : Text → Bool
    is_yaml name =
        extension (rsplit_once b'.' name) == codes "yaml"
        || extension (rsplit_once b'.' name) == codes "yml"

    unfoldable pub load_folder_files : List Text → Result (List SourceConfig)
    unfolding load_with_metadata
    load_folder_files [] = ok []
    load_folder_files (path ∷ paths) = load_with_metadata path folder_config >>= λ config.
        load_folder_files paths >>= λ rest. ok (config ∷ rest)

    -- The files of a folder, if it is one, have a path and a name.
    module _ (list_folder : Text → Result (List (Text × Text))) where
      unfoldable pub scan_config_folder : Text → Result (List SourceConfig)
      unfolding load_folder_files
      scan_config_folder folder = list_folder folder >>= λ entries. load_folder_files (
          map (λ entry. entry.0)
            (sort (λ a b. text_le a.1 b.1) (filter (λ entry. is_yaml entry.1) entries)))

      unfoldable pub scan_folders : List Text → Result (List SourceConfig)
      unfolding scan_config_folder
      scan_folders [] = ok []
      scan_folders (folder ∷ folders) = scan_config_folder folder >>= λ configs.
          scan_folders folders >>= λ rest. ok (configs ++ rest)

      -- the sources in the order in which they are merged
      unfoldable pub load_sources : Text → List Text → Result (List SourceConfig)
      unfolding load_with_metadata scan_folders
      load_sources main_path folders = load_with_metadata main_path main_config >>= λ main.
          scan_folders folders >>= λ rest.
          ok (sort (λ a b. leb a.merge_priority b.merge_priority) (main ∷ rest))

abbrev one_switch : SourceConfig → SwitchConfig → ConfigWithMetadata
one_switch config switch = record {
  switch = switch;
  merge_priority = config.merge_priority;
  source_file = config.source_file;
}

-- `entry(id).or_insert_with(Vec::new).push(config)`
unfoldable pub push_source :
    Text
    → ConfigWithMetadata
    → HashMap Text (List ConfigWithMetadata)
    → HashMap Text (List ConfigWithMetadata)
push_source id c m = insert id (unwrap_or (get id m) [] ++ c ∷ []) m

unfoldable pub group_switches :
    SourceConfig
    → List SwitchConfig
    → HashMap Text (List ConfigWithMetadata)
    → HashMap Text (List ConfigWithMetadata)
unfolding push_source
group_switches config [] m = m
group_switches config (switch ∷ switches) m =
    group_switches config switches (push_source switch.id (one_switch config switch) m)

-- `switches_by_id`
unfoldable pub group_sources :
    List SourceConfig
    → HashMap Text (List ConfigWithMetadata)
    → HashMap Text (List ConfigWithMetadata)
unfolding group_switches
group_sources [] m = m
group_sources (config ∷ configs) m = group_sources configs (group_switches config config.switches m)

-- a merged switch with the files of its VLANs and ports
abbrev pub MergedSwitch : Type 0
MergedSwitch = SwitchConfig × HashMap ℕ Text × HashMap Text Text

abbrev name_conflicts : Text → List MergeConflict → List (Text × MergeConflict)
name_conflicts id conflicts = map (λ c. (id, c)) conflicts

-- the loop over `switches_by_id`: the conflicts of all switches, and the switches without
unfoldable pub merge_groups :
    HashMap Text (List ConfigWithMetadata)
    → List Text
    → List (Text × MergeConflict) × List MergedSwitch
merge_groups m [] = ([], [])
merge_groups m (id ∷ ids) =
    let (conflicts, switches) = merge_groups m ids in
    let configs = unwrap_or (get id m) [] in
    let found = validate_switch_identity configs in
    if is_empty found
    then (conflicts, merge_single_switch id configs ∷ switches)
    else (name_conflicts id found ++ conflicts, switches)

module _ (pattern_of : RangePattern) (files : Files) (ctx : SecretContext) where
  unfoldable pub accept_merged :
      MergedSwitch → Result (SwitchConfig × List Text) → ValidationResult → ValidationResult
  accept_merged (switch, vlan_sources, port_sources) (ok x) result = with_valid x.0 result
  accept_merged (switch, vlan_sources, port_sources) (err problem) result =
      with_failure
        (record {
          switch_id = switch.id;
          hostname = switch.hostname;
          error = problem;
          vlan_sources = vlan_sources;
          port_sources = port_sources;
        })
        result

  -- the loop over the merged switches
  unfoldable pub check_all_merged : List MergedSwitch → ValidationResult
  unfolding accept_merged
  check_all_merged [] = no_result
  check_all_merged (s ∷ switches) =
      accept_merged s (check_merged pattern_of files ctx s.0 []) (check_all_merged switches)

  unfoldable pub merge_outcome : List (Text × MergeConflict) × List MergedSwitch → MergeOutcome
  unfolding check_all_merged
  merge_outcome (conflicts, switches) =
      if is_empty conflicts then merged (check_all_merged switches) else conflicting conflicts

  -- The order in which the switches are visited is an argument.
  unfoldable pub merge_configs : HashOrder Text → List SourceConfig → MergeOutcome
  unfolding merge_outcome merge_groups group_sources
  merge_configs order [] = nothing_to_merge
  merge_configs order (config ∷ configs) =
      let groups = group_sources (config ∷ configs) [] in
      merge_outcome (merge_groups groups (order.visit (keys groups)))
