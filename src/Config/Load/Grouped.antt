-- ===== src/Config/Load/Grouped.antt =====
-- The grouping of what the files say, by switch.
use switch_configurator.Prelude.{
  ◌≤◌, ◌≡◌, refl, true, false, not, List, [], ◌∷◌, ◌++◌, Text, text_eq, ◌==◌, if◌then◌else◌, arith,
  ==_iff, count, contains-count, is_some, unwrap_or, is_empty, append_assoc, append-nil, Bool-cases,
  inl, inr,
}
use switch_configurator.Prelude.HashMap.{
  HashMap, HashOrder, get, keys, get-insert, contains-keys, count-keys-insert-le,
}
use switch_configurator.Models.SwitchConfig.{SwitchConfig}
use switch_configurator.SessionPool.Balance.{one}
use switch_configurator.Config.Merge.{
  by_priority, empty_switch, merge_identity, merge_sorted, ConfigWithMetadata, merge_single_switch,
}
use switch_configurator.Config.Load.{
  SourceConfig, one_switch, push_source, group_switches, group_sources,
}

-- what the files say of a switch, in their order
unfoldable pub in_switches : Text → SourceConfig → List SwitchConfig → List ConfigWithMetadata
in_switches id config [] = []
in_switches id config (switch ∷ switches) =
    let rest = in_switches id config switches in
    if switch.id == id then one_switch config switch ∷ rest else rest

unfoldable pub sources_for : Text → List SourceConfig → List ConfigWithMetadata
unfolding in_switches
sources_for id [] = []
sources_for id (config ∷ configs) = in_switches id config config.switches ++ sources_for id configs

abbrev pub found_at : Text → HashMap Text (List ConfigWithMetadata) → List ConfigWithMetadata
found_at id m = unwrap_or (get id m) []

get-push_source :
    (k id : Text) (c : ConfigWithMetadata) (m : HashMap Text (List ConfigWithMetadata))
    → found_at id (push_source k c m) ≡ found_at id m ++ (if k == id then c ∷ [] else [])
unfolding push_source
get-push_source k id c m = elim (Bool-cases (k == id)) [
  | inl e ↦ rw (get-insert k id (found_at k m ++ c ∷ []) m, e, (==_iff k id).0 e) refl
  | inr e ↦ rw (get-insert k id (found_at k m ++ c ∷ []) m, e, append-nil (found_at id m)) refl
]

get-group_switches :
    (id : Text) (config : SourceConfig) (switches : List SwitchConfig)
    (m : HashMap Text (List ConfigWithMetadata))
    → found_at id (group_switches config switches m)
      ≡ found_at id m ++ in_switches id config switches
unfolding group_switches in_switches
get-group_switches id config [] m = rw (append-nil (found_at id m)) refl
get-group_switches id config (switch ∷ switches) m = elim (Bool-cases (switch.id == id)) [
  | inl e ↦
      rw
        (
          get-group_switches id config switches
              (push_source switch.id (one_switch config switch) m),
          get-push_source switch.id id (one_switch config switch) m,
          e,
          append_assoc (found_at id m) (one_switch config switch ∷ [])
              (in_switches id config switches),
        )
        refl
  | inr e ↦
      rw
        (
          get-group_switches id config switches
              (push_source switch.id (one_switch config switch) m),
          get-push_source switch.id id (one_switch config switch) m,
          e,
          append-nil (found_at id m),
        )
        refl
]

-- The groups are what the files say of each switch.
get-group_sources :
    (id : Text) (configs : List SourceConfig) (m : HashMap Text (List ConfigWithMetadata))
    → found_at id (group_sources configs m) ≡ found_at id m ++ sources_for id configs
unfolding group_sources sources_for
get-group_sources id [] m = rw (append-nil (found_at id m)) refl
get-group_sources id (config ∷ configs) m =
    rw
      (
        get-group_sources id configs (group_switches config config.switches m),
        get-group_switches id config config.switches m,
        append_assoc (found_at id m) (in_switches id config config.switches)
            (sources_for id configs),
      )
      refl

pub grouped :
    (id : Text) (configs : List SourceConfig)
    → found_at id (group_sources configs []) ≡ sources_for id configs
unfolding get
grouped id configs = get-group_sources id configs []

-- no key twice, and none without something that is said of it
abbrev IsGrouped : HashMap Text (List ConfigWithMetadata) → Type 0
IsGrouped m =
    (id : Text) → (count id (keys m) ≤ 1) × (is_some (get id m) ≡ not (is_empty (found_at id m)))

is_empty-snoc {ℓ} : {A : Type ℓ} (xs : List A) (x : A) → is_empty (xs ++ x ∷ []) ≡ false
is_empty-snoc [] x = refl
is_empty-snoc (y ∷ xs) x = refl

push_source-IsGrouped :
    (k : Text) (c : ConfigWithMetadata) (m : HashMap Text (List ConfigWithMetadata))
    → IsGrouped m
    → IsGrouped (push_source k c m)
unfolding push_source
push_source-IsGrouped k c m h = λ id. (
  count-keys-insert-le k id (found_at k m ++ c ∷ []) m (h id).0,
  elim (Bool-cases (k == id)) [
    | inl e ↦
        rw (get-insert k id (found_at k m ++ c ∷ []) m, e, is_empty-snoc (found_at k m) c) refl
    | inr e ↦ rw (get-insert k id (found_at k m ++ c ∷ []) m, e) (h id).1
  ],
)

group_switches-IsGrouped :
    (config : SourceConfig) (switches : List SwitchConfig)
    (m : HashMap Text (List ConfigWithMetadata))
    → IsGrouped m
    → IsGrouped (group_switches config switches m)
unfolding group_switches
group_switches-IsGrouped config [] m h = h
group_switches-IsGrouped config (switch ∷ switches) m h =
    group_switches-IsGrouped config switches (push_source switch.id (one_switch config switch) m)
      (push_source-IsGrouped switch.id (one_switch config switch) m h)

group_sources-IsGrouped :
    (configs : List SourceConfig) (m : HashMap Text (List ConfigWithMetadata))
    → IsGrouped m
    → IsGrouped (group_sources configs m)
unfolding group_sources
group_sources-IsGrouped [] m h = h
group_sources-IsGrouped (config ∷ configs) m h =
    group_sources-IsGrouped configs (group_switches config config.switches m)
      (group_switches-IsGrouped config config.switches m h)

-- A switch that the files name is visited once, and no other is visited.
pub visited :
    (order : HashOrder Text) (configs : List SourceConfig) (id : Text)
    → count id (order.visit (keys (group_sources configs [])))
      ≡ one (not (is_empty (sources_for id configs)))
unfolding keys count get
visited order configs id =
    let groups = group_sources configs [] in
    let (single, named) = group_sources-IsGrouped configs [] (λ i. (omega arith, refl)) id in
    ground (
      arith,
      order.visits_each id (keys groups),
      single,
      named,
      get-group_sources id configs [],
      contains-keys id groups,
      contains-count id (keys groups),
    )

merge_identity-id :
    (s : SwitchConfig) (configs : List ConfigWithMetadata) → (merge_identity s configs).id ≡ s.id
unfolding merge_identity
merge_identity-id s [] = refl
merge_identity-id s (c ∷ configs) = merge_identity-id _ configs

pub merge_single_switch-id :
    (id : Text) (configs : List ConfigWithMetadata) → (merge_single_switch id configs).0.id ≡ id
unfolding merge_single_switch merge_sorted
merge_single_switch-id id configs = merge_identity-id (empty_switch id) (by_priority configs)

pub append_empty {ℓ} :
    {A : Type ℓ} (xs ys : List A)
    → is_empty (xs ++ ys) ≡ true
    → (is_empty xs ≡ true) × (is_empty ys ≡ true)
append_empty [] ys h = (refl, h)
append_empty (x ∷ xs) ys h = ground arith
