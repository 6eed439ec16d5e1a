-- ===== src/Config/PortRange/Expands.antt =====
-- What the port ids expand to.
use switch_configurator.Prelude.{
  ℕ, zero, suc, ◌+◌, ◌-◌, ◌≤◌, ◌<◌, ◌≡◌, refl, ap, ◌∙◌, inl, inr, Bool, true, false, Option, none,
  some, List, [], ◌∷◌, ◌++◌, Text, text_eq, is_empty, ltb, ◌/◌, arith, All, All-append, All-map,
  Bool-cases, nat_beq, append-nil, ==_refl,
}
use switch_configurator.Prelude.Str.{
  is_digit, trim, split, split_once, split_whole, split_once-append, is_whitespace, trim_start_by,
  trim_end_by,
}
use switch_configurator.Prelude.Decimal.{
  parse_u32, to_string, print_fuel, print_fuel-All, digits_value-print_fuel, digits_value,
  parse_unsigned, parse_digits,
}
use switch_configurator.Config.Result.{ok, ◌>>=◌, >>=-eq_ok}
use switch_configurator.Config.PortRange.{
  range_ids, suffix_number, segment_ids, split_suffix, extract_number_suffix, numbered, parse_range,
  parse_segment, concat_map, parse_port_id,
}

trim_end_none : (p : ℕ → Bool) (s : Text) → All (λ c. p c ≡ false) s → trim_end_by p s ≡ s
unfolding trim_end_by
trim_end_none p [] h = refl
trim_end_none p (c ∷ s) (h, hs) = rw (h, trim_end_none p s hs) (ground arith)

trim_start_none : (p : ℕ → Bool) (s : Text) → All (λ c. p c ≡ false) s → trim_start_by p s ≡ s
unfolding trim_start_by
trim_start_none p [] h = refl
trim_start_none p (c ∷ s) (h, hs) = rw h refl

trim_none : (s : Text) → All (λ c. is_whitespace c ≡ false) s → trim s ≡ s
unfolding trim
trim_none s h = rw (trim_start_none is_whitespace s h, trim_end_none is_whitespace s h) refl

abbrev pub ends_in_digit : Text → Bool
ends_in_digit [] = false
ends_in_digit (c ∷ []) = is_digit c
ends_in_digit (c ∷ d ∷ s) = ends_in_digit (d ∷ s)

split_suffix-append :
    (p ds : Text)
    → ends_in_digit p ≡ false
    → All (λ c. is_digit c ≡ true) ds
    → split_suffix (p ++ ds) ≡ (p, ds)
unfolding split_suffix
split_suffix-append [] [] e h = refl
split_suffix-append [] (d ∷ ds) e (h, hs) = rw (split_suffix-append [] ds e hs) (rw h refl)
split_suffix-append (c ∷ []) ds e h = rw (split_suffix-append [] ds refl h) (rw e refl)
split_suffix-append (c ∷ d ∷ p) ds e h = rw (split_suffix-append (d ∷ p) ds e h) refl

parse_of_digits :
    (s : Text) (n bound : ℕ)
    → is_empty s ≡ false
    → All (λ c. is_digit c ≡ true) s
    → digits_value 0 s ≡ some n
    → n ≤ bound
    → parse_unsigned bound s ≡ some n
unfolding parse_unsigned parse_digits
parse_of_digits [] n bound e h d b = ground arith
parse_of_digits (c ∷ s) n bound e (h, hs) d b = rw d (ground arith)

print_nonempty : (fuel n : ℕ) → is_empty (print_fuel (suc fuel) n) ≡ false
unfolding print_fuel
print_nonempty fuel n = elim (Bool-cases (ltb n 10)) [
  | inl small ↦ rw small refl
  | inr large ↦ rw large (snoc (print_fuel fuel (n / 10)) _)
]
  where
    snoc : (s : Text) (x : ℕ) → is_empty (s ++ x ∷ []) ≡ false
    snoc [] x = refl
    snoc (c ∷ s) x = refl

to_string-All : (n : ℕ) → All (λ c. is_digit c ≡ true) (to_string n)
unfolding to_string
to_string-All n = print_fuel-All (suc n) n

extract_of_suffix :
    (s p ds : Text) (n : ℕ)
    → split_suffix s ≡ (p, ds)
    → is_empty ds ≡ false
    → parse_u32 ds ≡ some n
    → extract_number_suffix s ≡ ok (p, n)
unfolding extract_number_suffix suffix_number
extract_of_suffix s p ds n h e d = ap (suffix_number s) h ∙ rw (e, d) refl

extract_printed :
    (p : Text) (n : ℕ)
    → ends_in_digit p ≡ false
    → n ≤ 4294967295
    → extract_number_suffix (p ++ to_string n) ≡ ok (p, n)
unfolding to_string
extract_printed p n e h =
    extract_of_suffix (p ++ to_string n) p (to_string n) n
      (split_suffix-append p (to_string n) e (to_string-All n)) (print_nonempty n n)
      (parse_of_digits (to_string n) n 4294967295 (print_nonempty n n) (to_string-All n)
        (digits_value-print_fuel (suc n) n (omega arith)) h)

-- a character that ends neither a list element nor the start of a range, and is no space
abbrev pub IsPlain : ℕ → Type 0
IsPlain c = (nat_beq c b',' ≡ false) × (nat_beq c b'-' ≡ false) × (is_whitespace c ≡ false)

digit-IsPlain : (c : ℕ) → is_digit c ≡ true → IsPlain c
unfolding is_whitespace
digit-IsPlain c h = (ground arith, ground arith, ground arith)

IsPlain-text : (p : Text) (n : ℕ) → All IsPlain p → All IsPlain (p ++ to_string n)
IsPlain-text p n h =
    All-append IsPlain p (to_string n) h
      (All-map (λ c. is_digit c ≡ true) IsPlain digit-IsPlain (to_string n) (to_string-All n))

module _ (s : Text) (h : All IsPlain s) where
  not_comma : All (λ c. nat_beq c b',' ≡ false) s
  not_comma = All-map IsPlain _ (λ c q. q.0) s h

  not_dash : All (λ c. nat_beq c b'-' ≡ false) s
  not_dash = All-map IsPlain _ (λ c q. q.1) s h

  not_space : All (λ c. is_whitespace c ≡ false) s
  not_space = All-map IsPlain _ (λ c q. q.2) s h

dash_is_no_space : is_whitespace b'-' ≡ false
unfolding is_whitespace
dash_is_no_space = refl

module _ (a b : Text) (ha : All IsPlain a) (hb : All IsPlain b) where
  parse_segment-range : parse_segment (a ++ b'-' ∷ b) ≡ parse_range a b
  unfolding parse_segment segment_ids
  parse_segment-range =
      rw
        (
          trim_none (a ++ b'-' ∷ b)
              (All-append _ a (b'-' ∷ b) (not_space a ha) (dash_is_no_space, not_space b hb)),
          split_once-append b'-' a b (not_dash a ha),
          trim_none a (not_space a ha),
          trim_none b (not_space b hb),
        )
        refl

  -- `a ++ "-" ++ b`, of plain texts, is one segment, which is a range from `a` to `b`
  segment_of_range : parse_port_id (a ++ b'-' ∷ b) ≡ (do ids ← parse_range a b; ok (ids ++ []))
  unfolding parse_port_id concat_map
  segment_of_range =
      rw
        (
          split_whole b',' (a ++ b'-' ∷ b)
              (All-append _ a (b'-' ∷ b) (not_comma a ha) (refl, not_comma b hb)),
          parse_segment-range,
        )
        refl

module _ (prefix : Text) (plain : All IsPlain prefix) (separate : ends_in_digit prefix ≡ false)
    (first last : ℕ) (ordered : first ≤ last) (bounded : last ≤ 4294967295) where
  -- The text of a range, a prefix with its first number, a dash and its last number, is read back as
  -- the ids from the first number to the last, each with the prefix. The prefix has no comma, dash or
  -- space and does not end in a digit, the first number is at most the last, and that fits `u32`.
  pub parse_port_id-range :
      parse_port_id ((prefix ++ to_string first) ++ b'-' ∷ to_string last)
      ≡ ok (numbered prefix first (last + 1 - first))
  unfolding parse_range
  parse_port_id-range =
      rw
        (
          segment_of_range (prefix ++ to_string first) (to_string last)
              (IsPlain-text prefix first plain) (IsPlain-text [] last tt),
          extract_printed prefix first separate (omega arith),
          extract_printed [] last refl bounded,
        )
        (ground (arith, append-nil (numbered prefix first (last + 1 - first))))

  -- A range whose second end repeats the prefix is read back as the same ids: those from the first
  -- number to the last, each with the prefix. The prefix has no comma, dash or space and does not end in
  -- a digit, the first number is at most the last, and that fits `u32`.
  parse_port_id-full_range :
      parse_port_id ((prefix ++ to_string first) ++ b'-' ∷ (prefix ++ to_string last))
      ≡ ok (numbered prefix first (last + 1 - first))
  unfolding parse_range
  parse_port_id-full_range =
      rw
        (
          segment_of_range (prefix ++ to_string first) (prefix ++ to_string last)
              (IsPlain-text prefix first plain) (IsPlain-text prefix last plain),
          extract_printed prefix first separate (omega arith),
          extract_printed prefix last separate bounded,
        )
        (ground (arith, append-nil (numbered prefix first (last + 1 - first)), ==_refl prefix))

numbered_nonempty : (p : Text) (n k : ℕ) → 0 < k → is_empty (numbered p n k) ≡ false
unfolding numbered
numbered_nonempty p n zero h = ground arith
numbered_nonempty p n (suc k) h = refl

append_nonempty : {A : Type 0} (xs ys : List A) → is_empty xs ≡ false → is_empty (xs ++ ys) ≡ false
append_nonempty [] ys h = ground arith
append_nonempty (x ∷ xs) ys h = refl

split_nonempty : (sep : ℕ) (s : Text) → is_empty (split sep s) ≡ false
unfolding split
split_nonempty sep [] = refl
split_nonempty sep (c ∷ s) = ground arith

range_ids_nonempty :
    (x y : Text × ℕ) {ids : List Text} → range_ids x y ≡ ok ids → is_empty ids ≡ false
unfolding range_ids
range_ids_nonempty (p, n) (q, m) h = ground (arith, numbered_nonempty p n (m + 1 - n))

parse_range_nonempty :
    (a b : Text) {ids : List Text} → parse_range a b ≡ ok ids → is_empty ids ≡ false
unfolding parse_range
parse_range_nonempty a b h =
    let (x, _, h') =
      >>=-eq_ok (extract_number_suffix a) (λ x. extract_number_suffix b >>= λ y. range_ids x y) h in
    let (y, _, h'') = >>=-eq_ok (extract_number_suffix b) (λ y. range_ids x y) h' in
    range_ids_nonempty x y h''

segment_ids_nonempty :
    (s : Text) (o : Option (Text × Text)) {ids : List Text}
    → segment_ids s o ≡ ok ids
    → is_empty ids ≡ false
unfolding segment_ids
segment_ids_nonempty s none h = ground arith
segment_ids_nonempty s (some (a, b)) h = parse_range_nonempty (trim a) (trim b) h

concat_map_nonempty :
    (parts : List Text) {ids : List Text}
    → is_empty parts ≡ false
    → concat_map parse_segment parts ≡ ok ids
    → is_empty ids ≡ false
unfolding concat_map parse_segment
concat_map_nonempty [] e h = ground arith
concat_map_nonempty (x ∷ xs) e h =
    let rest = concat_map parse_segment xs in
    let (ys, hy, h') = >>=-eq_ok (parse_segment x) (λ ys. rest >>= λ zs. ok (ys ++ zs)) h in
    let (zs, _, h'') = >>=-eq_ok rest (λ zs. ok (ys ++ zs)) h' in
    ground (
      arith,
      append_nonempty ys zs,
      segment_ids_nonempty (trim x) (split_once b'-' (trim x)) hy,
      h'',
    )

-- A port id that is accepted stands for at least one port.
parse_port_id_nonempty :
    (s : Text) {ids : List Text} → parse_port_id s ≡ ok ids → is_empty ids ≡ false
unfolding parse_port_id
parse_port_id_nonempty s h = concat_map_nonempty (split b',' s) (split_nonempty b',' s) h
