-- ===== src/Schedule/Rotation.antt =====
-- A rotation of the libraries has each of them once.
use native.Mathlib.Nat.{mod-lt, mod-eq_of_lt, mod-eq-sub-mod}
use mathlib.Core.List.{map-append}
use zynum.Prelude.{
  ℕ, zero, suc, ◌+◌, ◌-◌, ◌%◌, ◌≤◌, ◌<◌, ◌≡◌, refl, ap, ◌∙◌, List, [], ◌∷◌, ◌++◌, map, arith, ltb,
  leb, ◌==◌, ◌&&◌, if◌then◌else◌,
}
use zynum.Schedule.{range_from, range, repeat_library_order}

-- How often a number stands in a list.
abbrev pub count : ℕ → List ℕ → ℕ
count j [] = 0
count j (x ∷ xs) = if x == j then suc (count j xs) else count j xs

pub count-append : (j : ℕ) (xs ys : List ℕ) → count j (xs ++ ys) ≡ count j xs + count j ys
count-append j [] ys = omega arith
count-append j (x ∷ xs) ys = ground (arith, count-append j xs ys)

-- 1 if the number lies in the range, else 0.
pub count-range_from :
    (j start n : ℕ)
    → count j (range_from start n) ≡ (if leb start j && ltb j (start + n) then 1 else 0)
count-range_from j start zero = ground arith
count-range_from j start (suc n) = ground (arith, count-range_from j (suc start) n)

range_from-append :
    (start m n k t : ℕ)
    → start + m ≡ k
    → m + n ≡ t
    → range_from start t ≡ range_from start m ++ range_from k n
range_from-append start zero n k t e f =
    let e' : start ≡ k = omega arith in let f' : t ≡ n = omega arith in rw (e', f') refl
range_from-append start (suc m) n k zero e f = absurd (omega arith)
range_from-append start (suc m) n k (suc t) e f =
    ap (λ xs. start ∷ xs) (range_from-append (suc start) m n k t (omega arith) (omega arith))

map-range_from :
    (f : ℕ → ℕ) (start to k : ℕ)
    → ((p : ℕ) → start ≤ p → p < start + k → f p + start ≡ to + p)
    → map f (range_from start k) ≡ range_from to k
map-range_from f start to zero h = refl
map-range_from f start to (suc k) h =
    let head : f start ≡ to = omega (arith, h start (omega arith) (omega arith)) in
    cc (
      head,
      map-range_from f (suc start) (suc to) k
          (λ p lo hi. omega (arith, h p (omega arith) (omega arith))),
    )

low_mod : (n first p : ℕ) → first + p < n → (first + p) % n ≡ first + p
low_mod n first p h = mod-eq_of_lt h

high_mod : (n first p : ℕ) → n ≤ first + p → first + p < n + n → (first + p) % n + n ≡ first + p
high_mod n first p h k =
    let less : (first + p) % n ≡ (first + p - n) % n = mod-eq-sub-mod h in
    let small : (first + p - n) % n ≡ first + p - n = mod-eq_of_lt (omega arith) in
    omega (arith, less, small)

rotation_split :
    (n first : ℕ)
    → first < n
    → map (λ p. (first + p) % n) (range n) ≡ range_from first (n - first) ++ range_from 0 first
rotation_split n first h =
    ap (map (λ p. (first + p) % n))
      (range_from-append 0 (n - first) first (n - first) n (omega arith) (omega arith))
    ∙ (map-append (λ p. (first + p) % n) (range_from 0 (n - first)) (range_from (n - first) first)
        ∙ cc (
          map-range_from (λ p. (first + p) % n) 0 first (n - first)
              (λ p lo hi. omega (arith, low_mod n first p (omega arith))),
          map-range_from (λ p. (first + p) % n) (n - first) 0 first
              (λ p lo hi. omega (arith, high_mod n first p (omega arith) (omega arith))),
        ))

-- Every library stands once in a rotation, and nothing else does.
pub count-rotation :
    (n first j : ℕ)
    → first < n
    → count j (map (λ p. (first + p) % n) (range n)) ≡ (if ltb j n then 1 else 0)
count-rotation n first j h =
    ap (count j) (rotation_split n first h)
    ∙ (count-append j (range_from first (n - first)) (range_from 0 first)
        ∙ ground (arith, count-range_from j first (n - first), count-range_from j 0 first))

-- If there is a library, the rotation of a repeat and a case has every library below the count once,
-- and nothing else.
pub count-repeat_library_order :
    (library_count repeat_index case_index library_index : ℕ)
    → 0 < library_count
    → count library_index (repeat_library_order library_count repeat_index case_index)
      ≡ (if ltb library_index library_count then 1 else 0)
unfolding repeat_library_order
count-repeat_library_order n r c j h = count-rotation n ((r + c) % n) j (mod-lt (r + c) h)
