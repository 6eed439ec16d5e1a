-- ===== src/Config/PortRange.antt =====
-- config.rs: `expand_port_ranges`, `parse_port_id` and `extract_number_suffix`.
pub mod Expands
use switch_configurator.Prelude.{
  ℕ, zero, suc, ◌+◌, ◌-◌, Bool, true, false, not, ◌&&◌, ◌||◌, Option, none, some, List, [], ◌∷◌,
  ◌++◌, Text, ◌==◌, ◌!=◌, text_eq, is_empty, if◌then◌else◌, ltb, map, length,
}
use switch_configurator.Prelude.Str.{is_digit, trim, split, split_once}
use switch_configurator.Prelude.Decimal.{parse_u32, to_string}
use switch_configurator.Models.Network.{Port, PortMirror}
use switch_configurator.Models.SwitchConfig.{SwitchConfig}
use switch_configurator.Config.Result.{
  Result, ok, err, ◌>>=◌, no_numeric_suffix, bad_number, prefix_mismatch, reversed_range,
  mirror_destination_range, index_out_of_bounds,
}

-- the text in front of the digits that it ends with, and those digits
unfoldable pub split_suffix : Text → Text × Text
split_suffix [] = ([], [])
split_suffix (c ∷ s) =
    let rest = split_suffix s in
    if is_empty rest.0 && is_digit c then ([], c ∷ rest.1) else (c ∷ rest.0, rest.1)

unfoldable pub suffix_number : Text → Text × Text → Result (Text × ℕ)
suffix_number s (prefix, number_str) =
    if is_empty number_str then err (no_numeric_suffix s) else elim (parse_u32 number_str) [
      | none ↦ err (bad_number number_str)
      | some n ↦ ok (prefix, n)
    ]

unfoldable pub extract_number_suffix : Text → Result (Text × ℕ)
unfolding suffix_number
extract_number_suffix s = suffix_number s (split_suffix s)

-- `count` ids, from the number `start` on
unfoldable pub numbered : Text → ℕ → ℕ → List Text
numbered prefix start zero = []
numbered prefix start (suc count) = (prefix ++ to_string start) ∷ numbered prefix (start + 1) count

unfoldable pub range_ids : Text × ℕ → Text × ℕ → Result (List Text)
range_ids (prefix, start_num) (end_prefix, end_num) =
    if not (is_empty end_prefix) && prefix != end_prefix
    then err (prefix_mismatch prefix end_prefix)
    else if ltb end_num start_num
    then err (reversed_range start_num end_num)
    else ok (numbered prefix start_num (end_num + 1 - start_num))

-- `start_str` and `end_str` of a range
unfoldable pub parse_range : Text → Text → Result (List Text)
unfolding range_ids
parse_range start_str end_str = do
  start ← extract_number_suffix start_str
  end ← extract_number_suffix end_str
  range_ids start end

-- a segment, with what `splitn(2, '-')` makes of it
unfoldable pub segment_ids : Text → Option (Text × Text) → Result (List Text)
segment_ids segment none = ok (segment ∷ [])
segment_ids segment (some (start_str, end_str)) = parse_range (trim start_str) (trim end_str)

unfoldable pub parse_segment : Text → Result (List Text)
unfolding segment_ids
parse_segment segment = segment_ids (trim segment) (split_once b'-' (trim segment))

-- the pieces that `f` makes of each element, in one list
unfoldable pub concat_map {ℓ κ} :
    {A : Type ℓ} {B : Type κ} → (A → Result (List B)) → List A → Result (List B)
concat_map f [] = ok []
concat_map f (x ∷ xs) = do ys ← f x; zs ← concat_map f xs; ok (ys ++ zs)

unfoldable pub parse_port_id : Text → Result (List Text)
parse_port_id port_id = concat_map parse_segment (split b',' port_id)

unfoldable pub expand_port : Port → Result (List Port)
expand_port port = do
  port_ids ← parse_port_id port.port_id
  ok (map (λ id. record port { port_id = id }) port_ids)

-- `dest_ports[0]` panics on an empty list, which the last error stands for.
abbrev pub single_destination : PortMirror → List Text → Result Text
single_destination mirror [] = err index_out_of_bounds
single_destination mirror (d ∷ []) = ok d
single_destination mirror (d ∷ e ∷ ds) =
    err (mirror_destination_range mirror.session_id mirror.destination_port)

unfoldable pub expand_mirror : PortMirror → Result (List PortMirror)
expand_mirror mirror = do
  sources ← concat_map parse_port_id mirror.source_ports
  dest_ports ← parse_port_id mirror.destination_port
  destination ← single_destination mirror dest_ports
  ok (record mirror { source_ports = sources; destination_port = destination } ∷ [])

unfoldable pub expand_port_ranges : SwitchConfig → Result SwitchConfig
expand_port_ranges switch = do
  ports' ← concat_map expand_port switch.ports
  mirrors' ← concat_map expand_mirror switch.port_mirrors
  ok (record switch { ports = ports'; port_mirrors = mirrors' })
