-- ===== src/Numa/Tests.antt =====
-- Theorems of the processor tables and of the parser at concrete inputs, and runs on the inputs of the unit tests.
use rsmalloc.Common.{ℕ, ◌≤◌, ◌<◌, ◌≡◌, refl, List, [], ◌∷◌, map, none, some, update, arith}
use rsmalloc.Numa.{
  NumberRange, invalid_node, new_range, clipped_cpu_range, unset, place_cpus, populate_cpu_ranges,
}
use rsmalloc.Numa.Populate.{populate_cpu_ranges-covers}
use rsmalloc.Word.{checked_add, checked_mul}
use rsmalloc.Numa.Text.{
  parse_number_ranges, parse_items, parse_item, parse_digits, skip_ascii_whitespace,
}
use rsmalloc.Numa.Text.Reads.{Written, text, range_of, parse_number_ranges-text}

-- A machine of four processors; the second has no node, the fourth a node that is too large.
abbrev four_cpus : ℕ → ℕ
four_cpus = update (update (λ cpu. invalid_node) 1 2) 3 99

abbrev two_to_eight : NumberRange
two_to_eight = record { start = 2; end = 8 }

new_range_reversed : new_range 3 1 ≡ none
new_range_reversed = refl

clip_to_four : clipped_cpu_range two_to_eight 4 ≡ some (record { start = 2; end = 3 })
clip_to_four = refl

clip_outside : clipped_cpu_range (record { start = 4; end = 8 }) 4 ≡ none
clip_outside = refl

node_zero_range :
    (populate_cpu_ranges 4 4 (unset four_cpus)).cpu_ranges 0
    ≡ record { node_id = 0; start_cpu = 0; end_cpu = 3 }
unfolding populate_cpu_ranges place_cpus
node_zero_range = refl

node_one_range :
    (populate_cpu_ranges 4 4 (unset four_cpus)).cpu_ranges 1
    ≡ record { node_id = 1; start_cpu = 1; end_cpu = 0 }
unfolding populate_cpu_ranges place_cpus
node_one_range = refl

populate_cpu_ranges-covers_example :
    let t = populate_cpu_ranges 4 4 (unset four_cpus) in
    (t.cpu_to_node 2 < 4)
    × ((t.cpu_ranges (t.cpu_to_node 2)).start_cpu ≤ 2)
    × (2 ≤ (t.cpu_ranges (t.cpu_to_node 2)).end_cpu)
populate_cpu_ranges-covers_example =
    populate_cpu_ranges-covers 4 4 four_cpus 2 (omega arith) (omega arith) (omega arith)

-- `0-3,10-11`
abbrev two_written : List Written
two_written = ((0, []), (3, [])) ∷ ((1, 0 ∷ []), (1, 1 ∷ [])) ∷ []

parse_comma_at_end : parse_number_ranges (48 ∷ 45 ∷ 51 ∷ 44 ∷ []) ≡ none
unfolding parse_number_ranges parse_items parse_item parse_digits skip_ascii_whitespace checked_add
    checked_mul
parse_comma_at_end = refl

parse_single_with_spaces :
    parse_number_ranges (32 ∷ 55 ∷ 32 ∷ []) ≡ some (record { start = 7; end = 7 } ∷ [])
unfolding parse_number_ranges parse_items parse_item parse_digits skip_ascii_whitespace checked_add
    checked_mul
parse_single_with_spaces = refl

parse_number_ranges-text_example :
    parse_number_ranges (text two_written) ≡ some (map range_of two_written)
parse_number_ranges-text_example = parse_number_ranges-text two_written (
  ((omega arith, tt), (omega arith, tt), omega arith, omega arith),
  (
    ((omega arith, (omega arith, tt)), (omega arith, (omega arith, tt)), omega arith, omega arith),
    tt,
  ),
)
