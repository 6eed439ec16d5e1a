-- ===== src/Config/Load/Accounted.antt =====
-- Every switch of every file is accounted for.
use switch_configurator.Prelude.{
  sym, All, ℕ, ◌+◌, ◌≡◌, refl, ◌∙◌, subst, true, not, List, [], ◌∷◌, Text, text_eq, ◌==◌, arith,
  count, is_empty, map, Bool-cases, inl, inr,
}
use switch_configurator.Prelude.HashMap.{HashMap, HashOrder, keys}
use switch_configurator.Models.SwitchConfig.{SwitchConfig}
use switch_configurator.SessionPool.Balance.{one}
use switch_configurator.Config.Result.{Result, ok, err}
use switch_configurator.Config.References.{RangePattern}
use switch_configurator.Config.Merge.{
  ConfigWithMetadata, MergeConflict, merge_single_switch, validate_switch_identity,
}
use switch_configurator.Config.Validate.{check_merged}
use switch_configurator.Config.Validate.Keeps.{check_merged-id}
use switch_configurator.Config.Load.{
  SourceConfig, SwitchValidationFailure, ValidationResult, merged, MergedSwitch, group_sources,
  merge_groups, accept_merged, check_all_merged, merge_outcome, merge_configs, name_conflicts,
}
use switch_configurator.Secrets.{Files, SecretContext}
use switch_configurator.Config.Load.Grouped.{
  grouped, sources_for, found_at, visited, merge_single_switch-id, append_empty,
}

empty_is_nil {ℓ} : {A : Type ℓ} (xs : List A) → is_empty xs ≡ true → xs ≡ []
empty_is_nil [] h = refl
empty_is_nil (x ∷ xs) h = ground arith

is_empty-name_conflicts :
    (id : Text) (found : List MergeConflict) → is_empty (name_conflicts id found) ≡ is_empty found
is_empty-name_conflicts id [] = refl
is_empty-name_conflicts id (c ∷ found) = refl

-- Where no switch has conflicts, each visited one is merged from what is said of it.
merged_each :
    (m : HashMap Text (List ConfigWithMetadata)) (ids : List Text)
    → is_empty (merge_groups m ids).0 ≡ true
    → ((merge_groups m ids).1 ≡ map (λ id. merge_single_switch id (found_at id m)) ids)
      × All (λ id. is_empty (validate_switch_identity (found_at id m)) ≡ true) ids
unfolding merge_groups
merged_each m [] h = (refl, tt)
merged_each m (id ∷ ids) h =
    let found = validate_switch_identity (found_at id m) in
    elim (Bool-cases (is_empty found)) [
      | inl e ↦
          let (rest, agree) = merged_each m ids (ground (arith, h, e)) in
          (rw (e, rest) refl, (e, agree))
      | inr e ↦ absurd (
          ground (
            arith,
            h,
            e,
            append_empty (name_conflicts id found) (merge_groups m ids).0,
            is_empty-name_conflicts id found,
          ))
    ]

module _ (pattern_of : RangePattern) (files : Files) (ctx : SecretContext) where
  -- how often a switch is among those that run and those that do not
  abbrev pub accounted : Text → ValidationResult → ℕ
  accounted id result =
      count id (map (λ s. s.id) result.valid) + count id (map (λ f. f.switch_id) result.failures)

  accept_merged-accounted :
      (id : Text) (s : MergedSwitch) (o : Result (SwitchConfig × List Text))
      (result : ValidationResult)
      → check_merged pattern_of files ctx s.0 [] ≡ o
      → accounted id (accept_merged pattern_of files ctx s o result)
        ≡ one (s.0.id == id) + accounted id result
  unfolding accept_merged count
  accept_merged-accounted id s (ok x) result q =
      ground (arith, check_merged-id pattern_of files ctx s.0 [] {x = x} q)
  accept_merged-accounted id s (err e) result q = ground arith

  check_all-accounted :
      (id : Text) (m : HashMap Text (List ConfigWithMetadata)) (ids : List Text)
      → accounted id (
          check_all_merged pattern_of files ctx
            (map (λ i. merge_single_switch i (found_at i m)) ids))
        ≡ count id ids
  unfolding check_all_merged count
  check_all-accounted id m [] = refl
  check_all-accounted id m (i ∷ ids) =
      let s = merge_single_switch i (found_at i m) in
      ground (
        arith,
        accept_merged-accounted id s (check_merged pattern_of files ctx s.0 [])
            (check_all_merged pattern_of files ctx
              (map (λ i. merge_single_switch i (found_at i m)) ids))
            refl,
        check_all-accounted id m ids,
        merge_single_switch-id i (found_at i m),
      )

  -- If merging succeeds, no switch is lost and none is doubled: a switch that some file names is among those
  -- that run or those that are reported as failed, once, and no other switch is.
  pub merge_configs_accounts :
      (order : HashOrder Text) (configs : List SourceConfig) (result : ValidationResult) (id : Text)
      → merge_configs pattern_of files ctx order configs ≡ merged result
      → accounted id result ≡ one (not (is_empty (sources_for id configs)))
  unfolding merge_configs merge_outcome
  merge_configs_accounts order [] result id h = ground (arith, h)
  merge_configs_accounts order (c ∷ cs) result id h =
      let groups = group_sources (c ∷ cs) [] in
      let ids = order.visit (keys groups) in
      elim (Bool-cases (is_empty (merge_groups groups ids).0)) [
        | inl e ↦
            let (all, _) = merged_each groups ids e in
            let same : check_all_merged pattern_of files ctx (merge_groups groups ids).1 ≡ result =
              ground (arith, h, e) in
            subst
              (λ (r : ValidationResult).
                accounted id r ≡ one (not (is_empty (sources_for id (c ∷ cs)))))
              same (rw all (check_all-accounted id groups ids ∙ visited order (c ∷ cs) id))
        | inr e ↦ absurd (ground (arith, h, e))
      ]

  -- what a switch that runs, and one that does not, was merged from
  abbrev pub IsMergeOf : List SourceConfig → SwitchConfig → Text → Type 0
  IsMergeOf configs x id =
      let sources = sources_for id configs in
      (registry : List Text) × (validate_switch_identity sources ≡ [])
      × (check_merged pattern_of files ctx (merge_single_switch id sources).0 [] ≡ ok (x, registry))

  abbrev pub RunsFrom : List SourceConfig → SwitchConfig → Type 0
  RunsFrom configs x = IsMergeOf configs x x.id

  abbrev pub FailsFrom : List SourceConfig → SwitchValidationFailure → Type 0
  FailsFrom configs f =
      let sources = sources_for f.switch_id configs in
      (validate_switch_identity sources ≡ [])
      × (check_merged pattern_of files ctx (merge_single_switch f.switch_id sources).0 []
          ≡ err f.error)

  accept_merged-From :
      (configs : List SourceConfig) (id : Text) (o : Result (SwitchConfig × List Text))
      (result : ValidationResult)
      → check_merged pattern_of files ctx (merge_single_switch id (sources_for id configs)).0 [] ≡ o
      → validate_switch_identity (sources_for id configs) ≡ []
      → All (RunsFrom configs) result.valid × All (FailsFrom configs) result.failures
      → All
          (RunsFrom configs)
          (accept_merged pattern_of files ctx
            (merge_single_switch id (sources_for id configs))
            o
            result).valid
        × All
            (FailsFrom configs)
            (accept_merged pattern_of files ctx
              (merge_single_switch id (sources_for id configs))
              o
              result).failures
  unfolding accept_merged
  accept_merged-From configs id (ok x) result q agree (runs, fails) =
      let same : x.0.id ≡ id =
        check_merged-id pattern_of files ctx _ [] q
        ∙ merge_single_switch-id id (sources_for id configs) in
      ((subst (IsMergeOf configs x.0) (sym same) (x.1, agree, q), runs), fails)
  accept_merged-From configs id (err e) result q agree (runs, fails) =
      (runs, (rw (merge_single_switch-id id (sources_for id configs)) (agree, q), fails))

  merged_checks-From :
      (configs : List SourceConfig) (m : HashMap Text (List ConfigWithMetadata)) (ids : List Text)
      → ((id : Text) → found_at id m ≡ sources_for id configs)
      → All (λ id. is_empty (validate_switch_identity (found_at id m)) ≡ true) ids
      → All
          (RunsFrom configs)
          (check_all_merged pattern_of files ctx
            (map (λ i. merge_single_switch i (found_at i m)) ids)).valid
        × All
            (FailsFrom configs)
            (check_all_merged pattern_of files ctx
              (map (λ i. merge_single_switch i (found_at i m)) ids)).failures
  unfolding check_all_merged
  merged_checks-From configs m [] same agree = (tt, tt)
  merged_checks-From configs m (i ∷ ids) same (first, agree) =
      let agrees : validate_switch_identity (sources_for i configs) ≡ [] =
        subst (λ (l : List ConfigWithMetadata). validate_switch_identity l ≡ []) (same i)
          (empty_is_nil _ first) in
      rw (same i) (
        accept_merged-From configs i
          (check_merged pattern_of files ctx (merge_single_switch i (sources_for i configs)).0 []) _
          refl agrees (merged_checks-From configs m ids same agree))

  -- If merging succeeds, each switch that runs is what the checks make of the merge of all that the files say
  -- of it, each that is reported fails just these checks with the reported error, and for none of them the
  -- files disagree on its identity.
  pub merge_configs_from_sources :
      (order : HashOrder Text) (configs : List SourceConfig) (result : ValidationResult)
      → merge_configs pattern_of files ctx order configs ≡ merged result
      → All (RunsFrom configs) result.valid × All (FailsFrom configs) result.failures
  unfolding merge_configs merge_outcome
  merge_configs_from_sources order [] result h = ground (arith, h)
  merge_configs_from_sources order (c ∷ cs) result h =
      let groups = group_sources (c ∷ cs) [] in
      let ids = order.visit (keys groups) in
      elim (Bool-cases (is_empty (merge_groups groups ids).0)) [
        | inl e ↦
            let (all, agree) = merged_each groups ids e in
            let same : check_all_merged pattern_of files ctx (merge_groups groups ids).1 ≡ result =
              ground (arith, h, e) in
            subst
              (λ (r : ValidationResult).
                All (RunsFrom (c ∷ cs)) r.valid × All (FailsFrom (c ∷ cs)) r.failures)
              same
              (rw all (merged_checks-From (c ∷ cs) groups ids (λ id. grouped id (c ∷ cs)) agree))
        | inr e ↦ absurd (ground (arith, h, e))
      ]
