-- ===== src/Schedule/Repeats.antt =====
-- What a schedule holds for one library and one case.
use mathlib.Core.List.{append-nil}
use zynum.Prelude.{
  ℕ, zero, suc, ◌+◌, ◌<◌, ◌≡◌, refl, ap, ◌∙◌, List, [], ◌∷◌, ◌++◌, map, arith, ltb, leb, ◌==◌, ◌&&◌,
  if◌then◌else◌, Bool-cases, inl, inr, lt→ltb,
}
use zynum.Schedule.{
  range_from, range, for_each, fresh, Slot, slot, repeat_library_order, library_major, interleaved,
}
use zynum.Schedule.Rotation.{count, count-repeat_library_order}

-- The repeats of a library and a case, in the order in which the schedule has them.
abbrev pub repeats_of : ℕ → ℕ → List Slot → List ℕ
repeats_of l c [] = []
repeats_of l c (s ∷ slots) =
    if s.library_index == l && s.case_index == c
    then s.repeat_index ∷ repeats_of l c slots
    else repeats_of l c slots

repeats_of-append :
    (l c : ℕ) (xs ys : List Slot)
    → repeats_of l c (xs ++ ys) ≡ repeats_of l c xs ++ repeats_of l c ys
repeats_of-append l c [] ys = refl
repeats_of-append l c (s ∷ xs) ys = ground (arith, repeats_of-append l c xs ys)

repeats_of-for_each :
    (l c : ℕ) (is : List ℕ) (f : ℕ → List Slot)
    → repeats_of l c (for_each is f) ≡ for_each is (λ i. repeats_of l c (f i))
repeats_of-for_each l c [] f = refl
repeats_of-for_each l c (i ∷ is) f =
    repeats_of-append l c (f i) (for_each is f)
    ∙ ap (λ xs. repeats_of l c (f i) ++ xs) (repeats_of-for_each l c is f)

for_each-congr :
    (is : List ℕ) (f g : ℕ → List ℕ) → ((i : ℕ) → f i ≡ g i) → for_each is f ≡ for_each is g
for_each-congr [] f g h = refl
for_each-congr (i ∷ is) f g h = cc (h i, for_each-congr is f g h)

for_each-[] : (is : List ℕ) → for_each {B = ℕ} is (λ _. []) ≡ []
for_each-[] [] = refl
for_each-[] (i ∷ is) = for_each-[] is

-- Only one index of a range contributes.
for_each-only :
    (j start n : ℕ) (xs : List ℕ)
    → for_each (range_from start n) (λ i. if i == j then xs else [])
      ≡ (if leb start j && ltb j (start + n) then xs else [])
for_each-only j start zero xs = ground arith
for_each-only j start (suc n) xs = ground (arith, for_each-only j (suc start) n xs, append-nil xs)

repeats_of-row :
    (l c l' c' : ℕ) (rs : List ℕ)
    → repeats_of l c (map (slot l' c') rs) ≡ (if l' == l then (if c' == c then rs else []) else [])
repeats_of-row l c l' c' [] = ground arith
repeats_of-row l c l' c' (r ∷ rs) = ground (arith, repeats_of-row l c l' c' rs)

-- The repeats in the order "library-major".
pub repeats_of-library_major :
    (library_count process_repeats case_count l c : ℕ)
    → l < library_count
    → c < case_count
    → repeats_of l c (library_major library_count process_repeats case_count)
      ≡ range process_repeats
unfolding library_major
repeats_of-library_major n k m l c h j =
    repeats_of-for_each l c (range n) _
    ∙ (for_each-congr (range n) _ (λ l'. if l' == l then range k else [])
          (λ l'.
            repeats_of-for_each l c (range m) _
            ∙ (for_each-congr (range m) _ _ (λ c'. repeats_of-row l c l' c' (range k)) ∙ inner l'))
        ∙ (for_each-only l 0 n (range k) ∙ ground arith))
  where
    inner :
        (l' : ℕ)
        → for_each (range m) (λ c'. if l' == l then (if c' == c then range k else []) else [])
          ≡ (if l' == l then range k else [])
    inner l' = elim (Bool-cases (l' == l)) [
      | inl e ↦ rw e (for_each-only c 0 m (range k) ∙ ground arith)
      | inr e ↦ rw e (for_each-[] (range m))
    ]

-- The rounds of the order "interleaved".
repeats_of-round :
    (l c c' r : ℕ) (ls : List ℕ)
    → repeats_of l c (map (λ l'. slot l' c' r) ls) ≡ (if c' == c then fresh (count l ls) r else [])
repeats_of-round l c c' r [] = ground arith
repeats_of-round l c c' r (l' ∷ ls) = ground (arith, repeats_of-round l c c' r ls)

for_each-single : (start n : ℕ) → for_each (range_from start n) (λ r. r ∷ []) ≡ range_from start n
for_each-single start zero = refl
for_each-single start (suc n) = ap (λ rs. start ∷ rs) (for_each-single (suc start) n)

-- The repeats in the order "interleaved".
pub repeats_of-interleaved :
    (library_count process_repeats case_count l c : ℕ)
    → l < library_count
    → c < case_count
    → repeats_of l c (interleaved library_count process_repeats case_count) ≡ range process_repeats
unfolding interleaved
repeats_of-interleaved n k m l c h j =
    repeats_of-for_each l c (range k) _
    ∙ (for_each-congr (range k) _ (λ r. r ∷ [])
          (λ r.
            repeats_of-for_each l c (range m) _
            ∙ (for_each-congr (range m) _ (λ c'. if c' == c then r ∷ [] else [])
                  (λ c'. repeats_of-round l c c' r (repeat_library_order n r c') ∙ once r c')
                ∙ (for_each-only c 0 m (r ∷ []) ∙ ground arith)))
        ∙ for_each-single 0 k)
  where
    once :
        (r c' : ℕ)
        → (if c' == c then fresh (count l (repeat_library_order n r c')) r else [])
          ≡ (if c' == c then r ∷ [] else [])
    once r c' = rw (count-repeat_library_order n r c' l (omega arith), lt→ltb l n h) refl
