-- ===== src/Config/Merge/Snmp.antt =====
-- `merge_snmp_configs`, for sources in the order of their priorities.
use switch_configurator.Prelude.{
  ℕ, ◌≡◌, refl, ◌∙◌, ap, Bool, true, ◌||◌, Option, none, some, List, [], ◌∷◌, is_empty, is_some,
  any, if◌then◌else◌, leb, arith, All, Bool-cases, inl, inr, or_option,
}
use switch_configurator.Prelude.Sort.{IsSorted}
use switch_configurator.Models.Snmp.{SnmpConfig, SnmpReads}
use switch_configurator.Config.Merge.{
  ConfigWithMetadata, replace_list, replace_reads, SnmpMerge, no_snmp, add_snmp, merge_snmp_from,
  merge_snmp_configs,
}

abbrev pub before : ConfigWithMetadata → ConfigWithMetadata → Bool
before a b = leb a.merge_priority b.merge_priority

-- a priority that no source is ahead of
abbrev IsAhead : ℕ → List ConfigWithMetadata → Type 0
IsAhead p cs = All (λ c. leb p c.merge_priority ≡ true) cs

module _ {A : Type 0} (field : SnmpConfig → List A) where
  abbrev replace_by : Option SnmpConfig → ℕ → List A × Option ℕ → List A × Option ℕ
  replace_by none priority acc = acc
  replace_by (some snmp) priority acc = replace_list priority (field snmp) acc

  unfoldable fold_list : List A × Option ℕ → List ConfigWithMetadata → List A × Option ℕ
  fold_list acc [] = acc
  fold_list acc (c ∷ cs) = fold_list (replace_by c.switch.snmp c.merge_priority acc) cs

  abbrev list_of : Option SnmpConfig → List A
  list_of none = []
  list_of (some snmp) = field snmp

  -- the first list that is not empty
  unfoldable pub first_list : List ConfigWithMetadata → List A
  first_list [] = []
  first_list (c ∷ cs) =
      let rest = first_list cs in
      if is_empty (list_of c.switch.snmp) then rest else list_of c.switch.snmp

  replace_by-some :
      (o : Option SnmpConfig) (q p : ℕ) (l : List A)
      → leb p q ≡ true
      → replace_by o q (l, some p) ≡ (l, some p)
  replace_by-some none q p l h = refl
  replace_by-some (some snmp) q p l h = ground arith

  fold_list-some :
      (l : List A) (p : ℕ) (cs : List ConfigWithMetadata)
      → IsAhead p cs
      → fold_list (l, some p) cs ≡ (l, some p)
  unfolding fold_list
  fold_list-some l p [] h = refl
  fold_list-some l p (c ∷ cs) (hc, h) =
      rw (replace_by-some c.switch.snmp c.merge_priority p l hc, fold_list-some l p cs h) refl

  abbrev taken_list : List A → ℕ → List A × Option ℕ
  taken_list [] q = ([], none)
  taken_list (x ∷ xs) q = (x ∷ xs, some q)

  replace_by-none :
      (o : Option SnmpConfig) (q : ℕ) → replace_by o q ([], none) ≡ taken_list (list_of o) q
  replace_by-none none q = refl
  replace_by-none (some snmp) q = go (field snmp)
    where
      go : (l : List A) → (if is_empty l then ([], none) else (l, some q)) ≡ taken_list l q
      go [] = refl
      go (x ∷ xs) = refl

  fold_list-first :
      (cs : List ConfigWithMetadata)
      → IsSorted before cs
      → (fold_list ([], none) cs).0 ≡ first_list cs
  unfolding fold_list first_list
  fold_list-first [] h = refl
  fold_list-first (c ∷ cs) (hc, h) =
      ap (λ acc. (fold_list acc cs).0) (replace_by-none c.switch.snmp c.merge_priority)
      ∙ go (list_of c.switch.snmp) (fold_list-first cs h)
    where
      go :
          (l : List A)
          → (fold_list ([], none) cs).0 ≡ first_list cs
          → (fold_list (taken_list l c.merge_priority) cs).0
            ≡ (if is_empty l then first_list cs else l)
      go [] ih = ih
      go (x ∷ xs) ih = ap (λ acc. acc.0) (fold_list-some (x ∷ xs) c.merge_priority cs hc)

abbrev reads_of : Option SnmpConfig → Option SnmpReads
reads_of none = none
reads_of (some snmp) = snmp.reads

abbrev replace_reads_by :
    Option SnmpConfig → ℕ → Option SnmpReads × Option ℕ → Option SnmpReads × Option ℕ
replace_reads_by none priority acc = acc
replace_reads_by (some snmp) priority acc = replace_reads priority snmp.reads acc

unfoldable fold_reads :
    Option SnmpReads × Option ℕ → List ConfigWithMetadata → Option SnmpReads × Option ℕ
fold_reads acc [] = acc
fold_reads acc (c ∷ cs) = fold_reads (replace_reads_by c.switch.snmp c.merge_priority acc) cs

unfoldable pub first_reads : List ConfigWithMetadata → Option SnmpReads
first_reads [] = none
first_reads (c ∷ cs) = or_option (reads_of c.switch.snmp) (first_reads cs)

reads_by-some :
    (o : Option SnmpConfig) (q p : ℕ) (r : Option SnmpReads)
    → leb p q ≡ true
    → replace_reads_by o q (r, some p) ≡ (r, some p)
reads_by-some none q p r h = refl
reads_by-some (some snmp) q p r h = ground arith

fold_reads-some :
    (r : Option SnmpReads) (p : ℕ) (cs : List ConfigWithMetadata)
    → IsAhead p cs
    → fold_reads (r, some p) cs ≡ (r, some p)
unfolding fold_reads
fold_reads-some r p [] h = refl
fold_reads-some r p (c ∷ cs) (hc, h) =
    rw (reads_by-some c.switch.snmp c.merge_priority p r hc, fold_reads-some r p cs h) refl

abbrev taken_reads : Option SnmpReads → ℕ → Option SnmpReads × Option ℕ
taken_reads none q = (none, none)
taken_reads (some r) q = (some r, some q)

reads_by-none :
    (o : Option SnmpConfig) (q : ℕ) → replace_reads_by o q (none, none) ≡ taken_reads (reads_of o) q
reads_by-none none q = refl
reads_by-none (some snmp) q = ground arith

fold_reads-first :
    (cs : List ConfigWithMetadata)
    → IsSorted before cs
    → (fold_reads (none, none) cs).0 ≡ first_reads cs
unfolding fold_reads first_reads
fold_reads-first [] h = refl
fold_reads-first (c ∷ cs) (hc, h) =
    ap (λ acc. (fold_reads acc cs).0) (reads_by-none c.switch.snmp c.merge_priority)
    ∙ go (reads_of c.switch.snmp) (fold_reads-first cs h)
  where
    go :
        (o : Option SnmpReads)
        → (fold_reads (none, none) cs).0 ≡ first_reads cs
        → (fold_reads (taken_reads o c.merge_priority) cs).0 ≡ or_option o (first_reads cs)
    go none ih = ih
    go (some r) ih = rw (fold_reads-some (some r) c.merge_priority cs hc) refl

-- the variables of the loop after all sources, and after one and the others
abbrev folded : SnmpMerge → List ConfigWithMetadata → SnmpMerge
folded m cs = record {
  seen = m.seen || any (λ c. is_some c.switch.snmp) cs;
  communities = fold_list (λ s. s.communities) m.communities cs;
  trap_receivers = fold_list (λ s. s.trap_receivers) m.trap_receivers cs;
  enabled_traps = fold_list (λ s. s.enabled_traps) m.enabled_traps cs;
  reads = fold_reads m.reads cs;
}

abbrev folded_step : ℕ → Option SnmpConfig → SnmpMerge → List ConfigWithMetadata → SnmpMerge
folded_step q o m cs = record {
  seen = m.seen || (is_some o || any (λ c. is_some c.switch.snmp) cs);
  communities =
      fold_list (λ s. s.communities) (replace_by (λ s. s.communities) o q m.communities) cs;
  trap_receivers =
      fold_list (λ s. s.trap_receivers) (replace_by (λ s. s.trap_receivers) o q m.trap_receivers)
        cs;
  enabled_traps =
      fold_list (λ s. s.enabled_traps) (replace_by (λ s. s.enabled_traps) o q m.enabled_traps) cs;
  reads = fold_reads (replace_reads_by o q m.reads) cs;
}

folded-add_snmp :
    (q : ℕ) (o : Option SnmpConfig) (m : SnmpMerge) (cs : List ConfigWithMetadata)
    → folded (add_snmp q o m) cs ≡ folded_step q o m cs
folded-add_snmp q none m cs = refl
folded-add_snmp q (some snmp) m cs = elim (Bool-cases m.seen) [
  | inl e ↦ rw e refl
  | inr e ↦ rw e refl
]

from_folds : (m : SnmpMerge) (cs : List ConfigWithMetadata) → merge_snmp_from m cs ≡ folded m cs
unfolding merge_snmp_from fold_list fold_reads any
from_folds m [] = elim (Bool-cases m.seen) [
  | inl e ↦ rw e (ground (arith, e))
  | inr e ↦ rw e (ground (arith, e))
]
from_folds m (c ∷ cs) =
    from_folds (add_snmp c.merge_priority c.switch.snmp m) cs
    ∙ folded-add_snmp c.merge_priority c.switch.snmp m cs

-- For sources in the order of their priorities, the merged SNMP configuration is there if one of them has
-- one; each of its lists is the first one that is not empty, an empty one being taken as not given, and its
-- own reads are the first that are given.
pub merge_snmp_configs_lem :
    (cs : List ConfigWithMetadata)
    → IsSorted before cs
    → merge_snmp_configs cs ≡ (
        if any (λ c. is_some c.switch.snmp) cs
        then some (record {
          communities = first_list (λ s. s.communities) cs;
          trap_receivers = first_list (λ s. s.trap_receivers) cs;
          enabled_traps = first_list (λ s. s.enabled_traps) cs;
          reads = first_reads cs;
        })
        else none)
unfolding merge_snmp_configs
merge_snmp_configs_lem cs h =
    rw
      (
        from_folds no_snmp cs,
        fold_list-first (λ s. s.communities) cs h,
        fold_list-first (λ s. s.trap_receivers) cs h,
        fold_list-first (λ s. s.enabled_traps) cs h,
        fold_reads-first cs h,
      )
      refl
