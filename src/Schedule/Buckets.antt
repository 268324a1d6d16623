-- ===== src/Schedule/Buckets.antt =====
-- What `collect_repeats` returns.
use mathlib.Core.List.{append-nil, append_assoc}
use native.Mathlib.Nat.{mod-lt}
use zynum.Prelude.{
  ℕ, zero, suc, ◌+◌, ◌%◌, ◌≤◌, ◌<◌, ◌≡◌, refl, sym, ap, ◌∙◌, List, [], ◌∷◌, ◌++◌, map, arith, ◌==◌,
  ◌&&◌, if◌then◌else◌, Bool-cases, inl, inr, String, eq→==, ne→==, ==→eq, Outcome, ok,
}
use zynum.Schedule.{
  range_from, range, for_each, Slot, slot, library_major, interleaved, repeat_library_order, modify,
  collect_slot, collect_slots, fresh, collect_repeats, ScheduleError,
}
use zynum.Schedule.Repeats.{repeats_of, repeats_of-library_major, repeats_of-interleaved}
use zynum.Schedule.Validate.{IsSchedulable, validate_schedule_lem, drawn_up}

map-range_congr {ℓ} :
    {A : Type ℓ} (f g : ℕ → A) (start n : ℕ)
    → ((j : ℕ) → start ≤ j → j < start + n → f j ≡ g j)
    → map f (range_from start n) ≡ map g (range_from start n)
map-range_congr f g start zero h = refl
map-range_congr f g start (suc n) h = cc (
  h start (omega arith) (omega arith),
  map-range_congr f g (suc start) n (λ j lo hi. h j (omega arith) (omega arith)),
)

-- A list that is a function of the index is changed at one index.
modify-map {ℓ} :
    {A : Type ℓ} (f : ℕ → A) (g : A → Outcome ScheduleError A) (start n i k : ℕ) (y : A)
    → i < n
    → start + i ≡ k
    → g (f k) ≡ ok y
    → modify (map f (range_from start n)) i g
      ≡ ok (map (λ j. if j == k then y else f j) (range_from start n))
modify-map f g start zero i k y h at e = absurd (omega arith)
modify-map f g start (suc n) zero k y h at e =
    let head : start ≡ k = omega arith in
    let here : g (f start) ≡ ok y = cc (head, e) in
    rw here (
      cc (
        eq→== start k head,
        map-range_congr f (λ j. if j == k then y else f j) (suc start) n
            (λ j lo hi. rw (ne→== j k (λ p. omega arith)) refl),
      ))
modify-map f g start (suc n) (suc i) k y h at e =
    rw (modify-map f g (suc start) n i k y (omega arith) (omega arith) e)
      (cc (ne→== start k (λ p. omega arith)))

-- A table of samples, from its entries.
abbrev table : {A : Type 0} → ℕ → ℕ → (ℕ → ℕ → A) → List (List A)
table n m f = map (λ l. map (f l) (range m)) (range n)

table_congr :
    {A : Type 0} (n m : ℕ) (f g : ℕ → ℕ → List A)
    → ((l c : ℕ) → f l c ≡ g l c)
    → table n m f ≡ table n m g
table_congr n m f g h =
    map-range_congr _ _ 0 n (λ l lo hi. map-range_congr _ _ 0 m (λ c lo' hi'. h l c))

abbrev InRange : ℕ → ℕ → List Slot → Type 0
InRange n m [] = Unit {0}
InRange n m (s ∷ slots) = (s.library_index < n) × ((s.case_index < m) × InRange n m slots)

module _ {A : Type 0} (run_one : ℕ → ℕ → ℕ → A) where
  abbrev added : (ℕ → ℕ → List A) → Slot → ℕ → ℕ → List A
  added f s l c =
      if s.library_index == l && s.case_index == c
      then f l c ++ (run_one l c s.repeat_index ∷ [])
      else f l c

  collect_slot-table :
      (n m : ℕ) (f : ℕ → ℕ → List A) (s : Slot)
      → s.library_index < n
      → s.case_index < m
      → collect_slot run_one (table n m f) s ≡ ok (table n m (added f s))
  collect_slot-table n m f s h j =
      modify-map (λ l. map (f l) (range m)) _ 0 n s.library_index s.library_index _ h (omega arith)
        (modify-map (f s.library_index) _ 0 m s.case_index s.case_index _ j (omega arith) refl)
      ∙ ap ok (map-range_congr _ _ 0 n (λ l lo hi. row l))
    where
      row :
          (l : ℕ)
          → (if l == s.library_index
              then map
                  (λ c.
                    if c == s.case_index
                    then f s.library_index s.case_index
                      ++ (run_one s.library_index s.case_index s.repeat_index ∷ [])
                    else f s.library_index c)
                  (range m)
              else map (f l) (range m))
            ≡ map (added f s l) (range m)
      row l = elim (Bool-cases (l == s.library_index)) [
        | inl e ↦
            let p = ==→eq _ _ e in
            rw e (map-range_congr _ (added f s l) 0 m (λ c lo hi. ground (arith, p)))
        | inr e ↦ rw e (map-range_congr _ (added f s l) 0 m (λ c lo hi. ground (arith, e)))
      ]

  collect_slots-table :
      (n m : ℕ) (f : ℕ → ℕ → List A) (slots : List Slot)
      → InRange n m slots
      → collect_slots run_one (table n m f) slots
        ≡ ok (table n m (λ l c. f l c ++ map (run_one l c) (repeats_of l c slots)))
  collect_slots-table n m f [] h = ap ok (table_congr n m f _ (λ l c. sym (append-nil (f l c))))
  collect_slots-table n m f (s ∷ slots) (a, (b, h)) =
      rw (collect_slot-table n m f s a b)
        (collect_slots-table n m (added f s) slots h ∙ ap ok (table_congr n m _ _ entry))
    where
      entry :
          (l c : ℕ)
          → added f s l c ++ map (run_one l c) (repeats_of l c slots)
            ≡ f l c ++ map (run_one l c) (repeats_of l c (s ∷ slots))
      entry l c = elim (Bool-cases (s.library_index == l && s.case_index == c)) [
        | inl e ↦ rw e (append_assoc (f l c) (run_one l c s.repeat_index ∷ []) _)
        | inr e ↦ rw e refl
      ]

InRange-append :
    (n m : ℕ) (xs ys : List Slot) → InRange n m xs → InRange n m ys → InRange n m (xs ++ ys)
InRange-append n m [] ys h k = k
InRange-append n m (s ∷ xs) ys (a, (b, h)) k = (a, (b, InRange-append n m xs ys h k))

InRange-for_each :
    (n m start k : ℕ) (f : ℕ → List Slot)
    → ((j : ℕ) → j < start + k → InRange n m (f j))
    → InRange n m (for_each (range_from start k) f)
InRange-for_each n m start zero f h = tt
InRange-for_each n m start (suc k) f h =
    InRange-append n m (f start) _ (h start (omega arith))
      (InRange-for_each n m (suc start) k f (λ j less. h j (omega arith)))

InRange-row : (n m l c : ℕ) (rs : List ℕ) → l < n → c < m → InRange n m (map (slot l c) rs)
InRange-row n m l c [] h j = tt
InRange-row n m l c (r ∷ rs) h j = (h, (j, InRange-row n m l c rs h j))

InRange-round :
    (n m first c r : ℕ) (ps : List ℕ)
    → 0 < n
    → c < m
    → InRange n m (map (λ l. slot l c r) (map (λ p. (first + p) % n) ps))
InRange-round n m first c r [] h j = tt
InRange-round n m first c r (p ∷ ps) h j =
    (mod-lt (first + p) h, (j, InRange-round n m first c r ps h j))

InRange-library_major : (n k m : ℕ) → InRange n m (library_major n k m)
unfolding library_major
InRange-library_major n k m = InRange-for_each n m 0 n _ (λ l h.
    InRange-for_each n m 0 m _ (λ c j. InRange-row n m l c (range k) (omega arith) (omega arith)))

InRange-interleaved : (n k m : ℕ) → 0 < n → InRange n m (interleaved n k m)
unfolding interleaved repeat_library_order
InRange-interleaved n k m h = InRange-for_each n m 0 k _ (λ r less.
    InRange-for_each n m 0 m _
      (λ c j. InRange-round n m ((r + c) % n) c r (range n) h (omega arith)))

map-const : {A : Type 0} (b : A) (start n : ℕ) → fresh n b ≡ map (λ _. b) (range_from start n)
map-const b start zero = refl
map-const b start (suc n) = ap (λ bs. b ∷ bs) (map-const b (suc start) n)

-- The samples of any slots that have the repeats of every library and case.
module _ {A : Type 0} (run_one : ℕ → ℕ → ℕ → A) where
  collected :
      (n m k : ℕ) (slots : List Slot)
      → InRange n m slots
      → ((l c : ℕ) → l < n → c < m → repeats_of l c slots ≡ range k)
      → collect_slots run_one (fresh n (fresh {B = List A} m [])) slots
        ≡ ok (table n m (λ l c. map (run_one l c) (range k)))
  collected n m k slots h each =
      let blank : fresh n (fresh {B = List A} m []) ≡ table n m (λ l c. []) =
        map-const (fresh {B = List A} m []) 0 n
        ∙ ap (λ row. map (λ _. row) (range n)) (map-const {A = List A} [] 0 m) in
      rw blank (
        collect_slots-table run_one n m (λ l c. []) slots h
        ∙ ap ok (
            map-range_congr _ _ 0 n (λ l lo hi.
              map-range_congr _ _ 0 m (λ c lo' hi'. cc (each l c (omega arith) (omega arith))))))

  -- For any numbers of libraries and cases that a schedule can be drawn up for, `collect_repeats`
  -- returns, for every library and every case in their order, the samples of all repeats in their
  -- order.
  pub collect_repeats_lem :
      (library_count case_count process_repeats : ℕ) (schedule : String)
      → IsSchedulable library_count process_repeats schedule
      → collect_repeats run_one library_count case_count process_repeats schedule
        ≡ ok (
            map
              (λ l. map (λ c. map (run_one l c) (range process_repeats)) (range case_count))
              (range library_count))
  unfolding collect_repeats
  collect_repeats_lem n zero k s v =
      rw ((validate_schedule_lem n k s).1 v) (ap ok (map-const {A = List (List A)} [] 0 n))
  collect_repeats_lem n (suc m) k s v =
      let some = ne→== (suc m) 0 (λ p. omega arith) in
      elim (drawn_up n k (suc m) s v (omega arith)) [
        | inl e ↦
            rw (some, e)
              (collected n (suc m) k _ (InRange-library_major n k (suc m))
                (λ l c h j. repeats_of-library_major n k (suc m) l c h j))
        | inr e ↦
            rw (some, e)
              (collected n (suc m) k _ (InRange-interleaved n k (suc m) v.some_library)
                (λ l c h j. repeats_of-interleaved n k (suc m) l c h j))
      ]
