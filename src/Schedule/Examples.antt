-- ===== src/Schedule/Examples.antt =====
-- Runs and witnesses for bench/tools/report_schedule.py.
use zynum.Prelude.{
  ℕ, ◌+◌, ◌*◌, ◌≡◌, ◌↔◌, refl, [], ◌∷◌, map, arith, if◌then◌else◌, String, same, string_eq, inr, ok,
  err, Returns, String-discrete,
}
use zynum.Schedule.{
  range, slot, validate_schedule, library_repeat_schedule, repeat_library_order, collect_repeats,
  unknown_schedule, not_a_multiple, duplicate_label, validate_unique_library_labels,
}
use zynum.Schedule.Rotation.{count, count-repeat_library_order}
use zynum.Schedule.Repeats.{repeats_of}
use zynum.Schedule.Validate.{IsSchedulable, validate_schedule_lem, library_repeat_schedule_lem}
use zynum.Schedule.Buckets.{collect_repeats_lem}
use zynum.Schedule.Labels.{AllDiffer, validate_unique_library_labels_lem}

schedule_run :
    library_repeat_schedule 2 2 "interleaved" 2
    ≡ ok (
        slot 0 0 0
        ∷ slot 1 0 0
        ∷ slot 1 1 0
        ∷ slot 0 1 0
        ∷ slot 1 0 1
        ∷ slot 0 0 1
        ∷ slot 0 1 1
        ∷ slot 1 1 1
        ∷ [])
unfolding library_repeat_schedule String-discrete
schedule_run = refl

unknown_run : validate_schedule 2 2 "random" ≡ err (unknown_schedule "random")
unfolding validate_schedule String-discrete
unknown_run = refl

multiple_run : validate_schedule 2 3 "interleaved" ≡ err (not_a_multiple 2)
unfolding validate_schedule String-discrete
multiple_run = refl

interleaved_IsSchedulable : IsSchedulable 2 4 "interleaved"
interleaved_IsSchedulable = record {
  some_library = omega arith;
  some_repeat = omega arith;
  kind = inr (refl, refl);
}

validate_schedule_lem_example :
    (validate_schedule 2 4 "interleaved" ≡ ok tt) ↔ IsSchedulable 2 4 "interleaved"
validate_schedule_lem_example = validate_schedule_lem 2 4 "interleaved"

count-repeat_library_order_example : count 1 (repeat_library_order 3 2 5) ≡ 1
count-repeat_library_order_example = count-repeat_library_order 3 2 5 1 (omega arith)

library_repeat_schedule_lem_example :
    Returns (library_repeat_schedule 2 4 "interleaved" 3) (λ slots. repeats_of 1 2 slots ≡ range 4)
library_repeat_schedule_lem_example =
    library_repeat_schedule_lem 2 4 3 1 2 "interleaved" interleaved_IsSchedulable (omega arith)
      (omega arith)

abbrev sample : ℕ → ℕ → ℕ → ℕ
sample l c r = 100 * l + (10 * c + r)

collect_repeats_lem_example :
    collect_repeats sample 2 3 4 "interleaved"
    ≡ ok (map (λ l. map (λ c. map (sample l c) (range 4)) (range 3)) (range 2))
collect_repeats_lem_example =
    collect_repeats_lem sample 2 3 4 "interleaved" interleaved_IsSchedulable

abbrev short_label : String → String
short_label label = if same label "libzynum" then "Zynum" else label

clash_run :
    validate_unique_library_labels short_label ("Zynum" ∷ "other" ∷ "libzynum" ∷ [])
    ≡ err (duplicate_label "libzynum" "Zynum" "Zynum")
unfolding validate_unique_library_labels String-discrete
clash_run = refl

validate_unique_library_labels_lem_example :
    (validate_unique_library_labels short_label ("libzynum" ∷ "other" ∷ []) ≡ ok tt)
    ↔ AllDiffer (map short_label ("libzynum" ∷ "other" ∷ []))
validate_unique_library_labels_lem_example =
    validate_unique_library_labels_lem short_label ("libzynum" ∷ "other" ∷ [])
