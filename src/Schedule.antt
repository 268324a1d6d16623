-- ===== src/Schedule.antt =====
-- bench/tools/report_schedule.py: the order in which the fresh processes of a benchmark report run.
-- Counts are natural numbers: a negative one meets the same test, and the same exception, as 0.
pub mod Rotation
pub mod Repeats
pub mod Validate
pub mod Buckets
pub mod Labels
mod Examples
use zynum.Prelude.{
  ℕ, zero, suc, ◌+◌, ◌%◌, String, Bool, true, false, ◌||◌, ◌&&◌, not, Option, none, some, List, [],
  ◌∷◌, ◌++◌, map, ltb, ◌==◌, if◌then◌else◌, same, string_eq, Outcome, ok, err, ◌>>=◌, ◌>>◌, length,
}

-- `ValueError`, by the test that raises it; and `IndexError`.
pub data ScheduleError : Type 0 where
  unknown_schedule : String → ScheduleError
  no_library : ScheduleError
  no_repeat : ScheduleError
  not_a_multiple : ℕ → ScheduleError
  no_case : ScheduleError
  index_error : ScheduleError

-- The `ValueError` of a label that collides.
pub data LabelClash : Type 0 where
  duplicate_label : String → String → String → LabelClash

unfoldable pub validate_schedule : ℕ → ℕ → String → Outcome ScheduleError (Unit {0})
validate_schedule library_count process_repeats schedule =
    if not (same schedule "library-major" || same schedule "interleaved")
    then err (unknown_schedule schedule)
    else if ltb library_count 1
    then err no_library
    else if ltb process_repeats 1
    then err no_repeat
    else if same schedule "interleaved" && not (process_repeats % library_count == 0)
    then err (not_a_multiple library_count)
    else ok tt

-- `range(start, start + n)`.
abbrev pub range_from : ℕ → ℕ → List ℕ
range_from start zero = []
range_from start (suc n) = start ∷ range_from (suc start) n

abbrev pub range : ℕ → List ℕ
range = range_from 0

-- A comprehension with a further `for` inside.
abbrev pub for_each {ℓ κ} : {A : Type ℓ} {B : Type κ} → List A → (A → List B) → List B
for_each [] f = []
for_each (x ∷ xs) f = f x ++ for_each xs f

-- One cyclic rotation of the libraries.
unfoldable pub repeat_library_order : ℕ → ℕ → ℕ → List ℕ
repeat_library_order library_count repeat_index case_index =
    let first = (repeat_index + case_index) % library_count in
    map (λ position. (first + position) % library_count) (range library_count)

-- The triple of a library, a case and a repeat.
pub record Slot : Type 0 where
  pub library_index : ℕ
  pub case_index : ℕ
  pub repeat_index : ℕ

abbrev pub slot : ℕ → ℕ → ℕ → Slot
slot library_index case_index repeat_index = record {
  library_index = library_index;
  case_index = case_index;
  repeat_index = repeat_index;
}

-- The comprehension of the schedule "library-major".
unfoldable pub library_major : ℕ → ℕ → ℕ → List Slot
library_major library_count process_repeats case_count =
    for_each (range library_count) λ library_index.
      for_each (range case_count)
        λ case_index. map (slot library_index case_index) (range process_repeats)

-- The other one.
unfoldable pub interleaved : ℕ → ℕ → ℕ → List Slot
unfolding repeat_library_order
interleaved library_count process_repeats case_count =
    for_each (range process_repeats) λ repeat_index. for_each (range case_count) λ case_index.
      map (λ library_index. slot library_index case_index repeat_index)
        (repeat_library_order library_count repeat_index case_index)

unfoldable pub library_repeat_schedule : ℕ → ℕ → String → ℕ → Outcome ScheduleError (List Slot)
unfolding validate_schedule library_major interleaved
library_repeat_schedule library_count process_repeats schedule case_count = do
  validate_schedule library_count process_repeats schedule
  if ltb case_count 1
      then err no_case
      else if same schedule "library-major"
      then ok (library_major library_count process_repeats case_count)
      else ok (interleaved library_count process_repeats case_count)

-- What stands at an index is changed; `IndexError` if nothing does.
abbrev pub modify {ℓ} :
    {A : Type ℓ} → List A → ℕ → (A → Outcome ScheduleError A) → Outcome ScheduleError (List A)
modify [] i f = err index_error
modify (x ∷ xs) zero f = f x >>= λ y. ok (y ∷ xs)
modify (x ∷ xs) (suc i) f = modify xs i f >>= λ ys. ok (x ∷ ys)

-- A comprehension that makes a value for each of a number of items.
abbrev pub fresh : {B : Type 0} → ℕ → B → List B
fresh zero b = []
fresh (suc n) b = b ∷ fresh n b

module _ {A : Type 0} (run_one : ℕ → ℕ → ℕ → A) where
  -- One round of the loop: `buckets[library_index][case_index].append(run_one(…))`.
  abbrev pub collect_slot :
      List (List (List A)) → Slot → Outcome ScheduleError (List (List (List A)))
  collect_slot buckets s = modify buckets s.library_index λ row.
      modify row s.case_index
        λ samples. ok (samples ++ (run_one s.library_index s.case_index s.repeat_index ∷ []))

  abbrev pub collect_slots :
      List (List (List A)) → List Slot → Outcome ScheduleError (List (List (List A)))
  collect_slots buckets [] = ok buckets
  collect_slots buckets (s ∷ slots) = collect_slot buckets s >>= λ after. collect_slots after slots

  -- `collect_repeats`: what is returned for libraries and cases of these numbers.
  unfoldable pub collect_repeats : ℕ → ℕ → ℕ → String → Outcome ScheduleError (List (List (List A)))
  unfolding library_repeat_schedule validate_schedule
  collect_repeats library_count case_count process_repeats schedule =
      let buckets = fresh library_count (fresh case_count []) in
      if case_count == 0
      then (validate_schedule library_count process_repeats schedule >> ok buckets)
      else (library_repeat_schedule library_count process_repeats schedule case_count >>= λ slots.
          collect_slots buckets slots)

-- `validate_unique_library_labels`, with the normal form of a label as a parameter of the section:
-- it is made by the text methods and the regular expressions of Python.
module _ (normalized_library_label : String → String) where
  abbrev pub get : String → List (String × String) → Option String
  get key [] = none
  get key ((k, v) ∷ rest) = if same k key then some v else get key rest

  -- `seen` is a dictionary whose keys are new whenever they are set.
  unfoldable pub validate_labels :
      List (String × String) → List String → Outcome LabelClash (Unit {0})
  validate_labels seen [] = ok tt
  validate_labels seen (label ∷ labels) =
      let semantic_label = normalized_library_label label in
      let rest = validate_labels ((semantic_label, label) ∷ seen) labels in
      elim (get semantic_label seen) [
        | some previous ↦ err (duplicate_label label previous semantic_label)
        | none ↦ rest
      ]

  unfoldable pub validate_unique_library_labels : List String → Outcome LabelClash (Unit {0})
  unfolding validate_labels
  validate_unique_library_labels labels = validate_labels [] labels
