-- ===== src/Atoms/Layout.antt =====
-- The list of assigned ranges as a layout of bytes: where each range lies, and which value a byte
-- has. The builder keeps its tree so that the ranges are non-empty, in order and apart.
use zynum.Prelude.{
  ℕ, suc, ◌≤◌, ◌<◌, ◌≡◌, refl, ◌∙◌, Option, none, some, List, [], ◌∷◌, ◌++◌, arith, ltb, leb, ◌&&◌,
  if◌then◌else◌, All,
}
use zynum.Interval.{Interval}
use zynum.Interval.Outline.{SortedFrom, SortedFrom-weaken}

module _ {ℓ} {V : Type ℓ} where
  -- Non-empty ranges, in order, without overlap, all inside the bytes from `low` up to `high`.
  abbrev pub Within : ℕ → ℕ → List (Interval V) → Type 0
  Within low high [] = low ≤ high
  Within low high (x ∷ xs) = (low ≤ x.start) × (x.start < x.end) × Within x.end high xs

  -- The value that a byte is assigned to.
  unfoldable pub cover : List (Interval V) → ℕ → Option V
  cover [] i = none
  cover (x ∷ xs) i = if leb x.start i && ltb i x.end then some x.value else cover xs i

module _ {ℓ} {V : Type ℓ} where
  pub Within-bounds : (low high : ℕ) (xs : List (Interval V)) → Within low high xs → low ≤ high
  Within-bounds low high [] w = w
  Within-bounds low high (x ∷ xs) w = omega (arith, Within-bounds x.end high xs w.2)

  pub Within-lower :
      (low low' high : ℕ) (xs : List (Interval V))
      → low' ≤ low
      → Within low high xs
      → Within low' high xs
  Within-lower low low' high [] h w = omega arith
  Within-lower low low' high (x ∷ xs) h w = (omega arith, w.1, w.2)

  pub Within-raise :
      (low high high' : ℕ) (xs : List (Interval V))
      → high ≤ high'
      → Within low high xs
      → Within low high' xs
  Within-raise low high high' [] h w = omega arith
  Within-raise low high high' (x ∷ xs) h w = (w.0, w.1, Within-raise x.end high high' xs h w.2)

  pub Within-join :
      (low middle high : ℕ) (xs ys : List (Interval V))
      → Within low middle xs
      → Within middle high ys
      → Within low high (xs ++ ys)
  Within-join low middle high [] ys v w = Within-lower middle low high ys v w
  Within-join low middle high (x ∷ xs) ys v w =
      (v.0, v.1, Within-join x.end middle high xs ys v.2 w)

  pub Within-split :
      (low high : ℕ) (xs : List (Interval V)) (y : Interval V) (ys : List (Interval V))
      → Within low high (xs ++ (y ∷ ys))
      → Within low y.start xs × (y.start < y.end) × Within y.end high ys
  Within-split low high [] y ys w = (w.0, w.1, w.2)
  Within-split low high (x ∷ xs) y ys w =
      let (v, inside, rest) = Within-split x.end high xs y ys w.2 in ((w.0, w.1, v), inside, rest)

  pub Within-SortedFrom :
      (low high : ℕ) (xs : List (Interval V)) → Within low high xs → SortedFrom low xs
  Within-SortedFrom low high [] w = tt
  Within-SortedFrom low high (x ∷ xs) w =
      (w.0, SortedFrom-weaken (suc x.start) x.end xs w.1 (Within-SortedFrom x.end high xs w.2))

  -- What lies below a bound starts, and ends, below it; what lies above starts above.
  pub Within-starts-below :
      (low high : ℕ) (xs : List (Interval V)) → Within low high xs → All (λ x. x.start < high) xs
  Within-starts-below low high [] w = tt
  Within-starts-below low high (x ∷ xs) w =
      (omega (arith, Within-bounds x.end high xs w.2), Within-starts-below x.end high xs w.2)

  pub Within-starts-above :
      (low high bound : ℕ) (xs : List (Interval V))
      → bound ≤ low
      → Within low high xs
      → All (λ x. bound ≤ x.start) xs
  Within-starts-above low high bound [] h w = tt
  Within-starts-above low high bound (x ∷ xs) h w =
      (omega arith, Within-starts-above x.end high bound xs (omega arith) w.2)

  -- A byte outside the bounds is not assigned.
  pub cover-below :
      (low high i : ℕ) (xs : List (Interval V)) → Within low high xs → i < low → cover xs i ≡ none
  unfolding cover
  cover-below low high i [] w h = refl
  cover-below low high i (x ∷ xs) w h = ground (arith, cover-below x.end high i xs w.2)

  pub cover-above :
      (low high i : ℕ) (xs : List (Interval V)) → Within low high xs → high ≤ i → cover xs i ≡ none
  unfolding cover
  cover-above low high i [] w h = refl
  cover-above low high i (x ∷ xs) w h =
      ground (arith, cover-above x.end high i xs w.2, Within-bounds x.end high xs w.2)

  -- Two layouts side by side: each answers for its own bytes.
  pub cover-append-left :
      (low high i : ℕ) (xs ys : List (Interval V))
      → Within low high ys
      → i < low
      → cover (xs ++ ys) i ≡ cover xs i
  unfolding cover
  cover-append-left low high i [] ys w h = cover-below low high i ys w h
  cover-append-left low high i (x ∷ xs) ys w h =
      ground (arith, cover-append-left low high i xs ys w h)

  pub cover-append-right :
      (low high i : ℕ) (xs ys : List (Interval V))
      → Within low high xs
      → high ≤ i
      → cover (xs ++ ys) i ≡ cover ys i
  unfolding cover
  cover-append-right low high i [] ys w h = refl
  cover-append-right low high i (x ∷ xs) ys w h =
      ground (arith, cover-append-right x.end high i xs ys w.2 h, Within-bounds x.end high xs w.2)

  -- Around an interval of a layout.
  pub cover-before :
      (high i : ℕ) (xs : List (Interval V)) (x : Interval V) (ys : List (Interval V))
      → Within x.start high (x ∷ ys)
      → i < x.start
      → cover (xs ++ (x ∷ ys)) i ≡ cover xs i
  cover-before high i xs x ys w h = cover-append-left x.start high i xs (x ∷ ys) w h

  pub cover-at :
      (low i : ℕ) (xs : List (Interval V)) (x : Interval V) (ys : List (Interval V))
      → Within low x.start xs
      → x.start ≤ i
      → i < x.end
      → cover (xs ++ (x ∷ ys)) i ≡ some x.value
  unfolding cover
  cover-at low i xs x ys w h k = cover-append-right low x.start i xs (x ∷ ys) w h ∙ ground arith

  pub cover-behind :
      (low i : ℕ) (xs : List (Interval V)) (x : Interval V) (ys : List (Interval V))
      → Within low x.start xs
      → x.start < x.end
      → x.end ≤ i
      → cover (xs ++ (x ∷ ys)) i ≡ cover ys i
  unfolding cover
  cover-behind low i xs x ys w n h =
      cover-append-right low x.start i xs (x ∷ ys) w (omega arith) ∙ ground arith
