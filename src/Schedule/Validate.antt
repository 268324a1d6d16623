-- ===== src/Schedule/Validate.antt =====
-- Which schedules are accepted, and what an accepted one has for each library and case.
use zynum.Prelude.{
  ℕ, ◌%◌, ◌≤◌, ◌<◌, ◌≡◌, refl, arith, ◌==◌, ◌&&◌, ◌⊎◌, ◌↔◌, String, true, false, not, ◌||◌,
  String-discrete, same, same→eq, string_eq, Bool-cases, inl, inr, ge→ltb, eq→==, ok, Returns,
}
use zynum.Schedule.{range, validate_schedule, library_major, interleaved, library_repeat_schedule}
use zynum.Schedule.Repeats.{repeats_of, repeats_of-library_major, repeats_of-interleaved}

-- A schedule that can be drawn up for these numbers.
pub record IsSchedulable (library_count process_repeats : ℕ) (schedule : String) : Type 0 where
  pub some_library : 1 ≤ library_count
  pub some_repeat : 1 ≤ process_repeats
  pub kind :
      (schedule ≡ "library-major")
      ⊎ ((schedule ≡ "interleaved") × (process_repeats % library_count ≡ 0))

kind-of :
    (n k : ℕ) (s : String)
    → not (same s "library-major" || same s "interleaved") ≡ false
    → (same s "interleaved" && not (k % n == 0)) ≡ false
    → (s ≡ "library-major") ⊎ ((s ≡ "interleaved") × (k % n ≡ 0))
kind-of n k s known divides = elim (Bool-cases (same s "library-major")) [
  | inl e ↦ inl (same→eq s "library-major" e)
  | inr e ↦
      let e' : same s "interleaved" ≡ true = ground (arith, known, e) in
      inr (same→eq s "interleaved" e', ground (arith, divides, e'))
]

-- `validate_schedule` accepts exactly those.
pub validate_schedule_lem :
    (library_count process_repeats : ℕ) (schedule : String)
    → (validate_schedule library_count process_repeats schedule ≡ ok tt)
      ↔ IsSchedulable library_count process_repeats schedule
unfolding validate_schedule String-discrete
validate_schedule_lem n k s = (forward, backward)
  where
    forward : validate_schedule n k s ≡ ok tt → IsSchedulable n k s
    forward h = elim (Bool-cases (not (same s "library-major" || same s "interleaved"))) [
      | inl e ↦ absurd (ground (arith, h, e))
      | inr e ↦ record {
        some_library = ground (arith, h, e);
        some_repeat = ground (arith, h, e);
        kind = kind-of n k s e (ground (arith, h, e));
      }
    ]

    backward : IsSchedulable n k s → validate_schedule n k s ≡ ok tt
    backward v =
        let first = ge→ltb n 1 v.some_library in
        let second = ge→ltb k 1 v.some_repeat in
        elim v.kind [
          | inl p ↦ rw (p, first, second) refl
          | inr (p, q) ↦ rw (p, first, second, eq→== _ 0 q) refl
        ]

-- The order that is drawn up.
pub drawn_up :
    (library_count process_repeats case_count : ℕ) (schedule : String)
    → IsSchedulable library_count process_repeats schedule
    → 0 < case_count
    → (library_repeat_schedule library_count process_repeats schedule case_count
        ≡ ok (library_major library_count process_repeats case_count))
      ⊎ (library_repeat_schedule library_count process_repeats schedule case_count
          ≡ ok (interleaved library_count process_repeats case_count))
unfolding library_repeat_schedule String-discrete
drawn_up n k m s v h =
    let accepted = (validate_schedule_lem n k s).1 v in
    let some_case = ge→ltb m 1 (omega arith) in
    elim v.kind [
      | inl p ↦ inl (rw (accepted, some_case, p) refl)
      | inr (p, q) ↦ inr (rw (accepted, some_case, p) refl)
    ]

-- In a schedule that can be drawn up, whichever it is, every library runs every case once for each
-- repeat, from the first repeat to the last.
pub library_repeat_schedule_lem :
    (library_count process_repeats case_count l c : ℕ) (schedule : String)
    → IsSchedulable library_count process_repeats schedule
    → l < library_count
    → c < case_count
    → Returns
        (library_repeat_schedule library_count process_repeats schedule case_count)
        (λ slots. repeats_of l c slots ≡ range process_repeats)
library_repeat_schedule_lem n k m l c s v h j = elim (drawn_up n k m s v (omega arith)) [
  | inl e ↦ rw e (repeats_of-library_major n k m l c h j)
  | inr e ↦ rw e (repeats_of-interleaved n k m l c h j)
]
