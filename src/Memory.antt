-- ===== src/Memory.antt =====
-- Bytes in a `std::vector<char>`: the element-wise loops of `std::copy` and `std::copy_backward`,
-- `resize`, and reading a range back.
use benet.Prelude.{
  ℕ, zero, suc, ◌+◌, ◌-◌, ◌≤◌, ◌<◌, ◌≡◌, refl, ap, List, [], ◌∷◌, ◌++◌, arith, leb, ltb, ◌==◌, ◌&&◌,
  if◌then◌else◌, length, get_or, set, take, replicate, length-append, length-set, length-replicate,
  length-take, take_all, ◌∙◌, ap₂,
}

-- `xs[i]`; what is read out of range is 0 here, and never matters.
abbrev pub byte_at : List ℕ → ℕ → ℕ
byte_at xs i = get_or xs i 0

-- The range `[p, p + n)` of a vector.
abbrev pub slice : List ℕ → ℕ → ℕ → List ℕ
slice xs p zero = []
slice xs p (suc n) = byte_at xs p ∷ slice xs (p + 1) n

-- `std::copy(data, data + len, begin() + p)` from memory outside the vector.
unfoldable pub copy_in : List ℕ → ℕ → List ℕ → List ℕ
copy_in xs p [] = xs
copy_in xs p (d ∷ ds) = copy_in (set xs p d) (p + 1) ds

-- `std::copy(begin() + s, begin() + s + n, begin() + d)` inside one vector, first to last.
unfoldable pub copy_within : ℕ → ℕ → ℕ → List ℕ → List ℕ
copy_within zero s d xs = xs
copy_within (suc n) s d xs = copy_within n (s + 1) (d + 1) (set xs d (byte_at xs s))

-- `std::vector::resize(n)`: new elements are 0.
unfoldable pub resize : ℕ → List ℕ → List ℕ
resize n xs = if leb n (length xs) then take n xs else xs ++ replicate (n - length xs) 0

byte_at-set :
    (xs : List ℕ) (i v j : ℕ)
    → i < length xs
    → byte_at (set xs i v) j ≡ (if i == j then v else byte_at xs j)
byte_at-set [] i v j h = absurd (omega arith)
byte_at-set (x ∷ xs) zero v zero h = refl
byte_at-set (x ∷ xs) zero v (suc j) h = ground arith
byte_at-set (x ∷ xs) (suc i) v zero h = ground arith
byte_at-set (x ∷ xs) (suc i) v (suc j) h = ground (arith, byte_at-set xs i v j (omega arith))

pub length-copy_in : (xs : List ℕ) (p : ℕ) (ds : List ℕ) → length (copy_in xs p ds) ≡ length xs
unfolding copy_in
length-copy_in xs p [] = refl
length-copy_in xs p (d ∷ ds) = length-copy_in (set xs p d) (p + 1) ds ∙ length-set xs p d

pub length-copy_within : (n s d : ℕ) (xs : List ℕ) → length (copy_within n s d xs) ≡ length xs
unfolding copy_within
length-copy_within zero s d xs = refl
length-copy_within (suc n) s d xs =
    length-copy_within n (s + 1) (d + 1) (set xs d (byte_at xs s)) ∙ length-set xs d (byte_at xs s)

byte_at-cons : (x : ℕ) (xs : List ℕ) (i : ℕ) → 0 < i → byte_at (x ∷ xs) i ≡ byte_at xs (i - 1)
byte_at-cons x xs zero h = absurd (omega arith)
byte_at-cons x xs (suc i) h = ap (byte_at xs) (omega arith)

-- What each cell holds after a copy into the vector.
pub byte_at-copy_in :
    (xs : List ℕ) (p : ℕ) (ds : List ℕ) (i : ℕ)
    → p + length ds ≤ length xs
    → byte_at (copy_in xs p ds) i
      ≡ (if leb p i && ltb i (p + length ds) then byte_at ds (i - p) else byte_at xs i)
unfolding copy_in
byte_at-copy_in xs p [] i h = ground arith
byte_at-copy_in xs p (d ∷ ds) i h = ground (
  arith,
  byte_at-copy_in (set xs p d) (p + 1) ds i,
  length-set xs p d,
  byte_at-set xs p d i,
  byte_at-cons d ds (i - p),
)

-- A copy towards the front moves the old bytes, although the ranges may overlap.
pub byte_at-copy_within :
    (n s d : ℕ) (xs : List ℕ) (i : ℕ)
    → d ≤ s
    → s + n ≤ length xs
    → byte_at (copy_within n s d xs) i
      ≡ (if leb d i && ltb i (d + n) then byte_at xs (s + (i - d)) else byte_at xs i)
unfolding copy_within
byte_at-copy_within zero s d xs i h k = ground arith
byte_at-copy_within (suc n) s d xs i h k = ground (
  arith,
  byte_at-copy_within n (s + 1) (d + 1) (set xs d (byte_at xs s)) i,
  length-set xs d (byte_at xs s),
  byte_at-set xs d (byte_at xs s) i,
  byte_at-set xs d (byte_at xs s) (s + 1 + (i - (d + 1))),
)

-- Two ranges are the same bytes if they agree at each index.
pub slice_ext :
    (xs ys : List ℕ) (p q n : ℕ)
    → ((i : ℕ) → i < n → byte_at xs (p + i) ≡ byte_at ys (q + i))
    → slice xs p n ≡ slice ys q n
slice_ext xs ys p q zero h = refl
slice_ext xs ys p q (suc n) h =
    ap₂ ◌∷◌ (ap (byte_at xs) (omega arith) ∙ h 0 (omega arith) ∙ ap (byte_at ys) (omega arith)) (
      slice_ext xs ys (p + 1) (q + 1) n λ i lt.
        ap (byte_at xs) (omega arith) ∙ h (i + 1) (omega arith) ∙ ap (byte_at ys) (omega arith))

pub length-slice : (xs : List ℕ) (p n : ℕ) → length (slice xs p n) ≡ n
length-slice xs p zero = refl
length-slice xs p (suc n) = ap suc (length-slice xs (p + 1) n)

pub slice-add : (xs : List ℕ) (p m n : ℕ) → slice xs p (m + n) ≡ slice xs p m ++ slice xs (p + m) n
slice-add xs p zero n = ap₂ (slice xs) (omega arith) (omega arith)
slice-add xs p (suc m) n =
    ap (slice xs p) regroup
    ∙ ap (◌∷◌ (byte_at xs p))
        (slice-add xs (p + 1) m n ∙ ap (λ k. slice xs (p + 1) m ++ slice xs k n) (omega arith))
  where
    regroup : suc m + n ≡ suc (m + n)
    regroup = omega arith

slice_suffix : (x : ℕ) (xs : List ℕ) (p n : ℕ) → slice (x ∷ xs) (p + 1) n ≡ slice xs p n
slice_suffix x xs p n =
    slice_ext (x ∷ xs) xs (p + 1) p n
      λ i h. let e : p + 1 + i ≡ suc (p + i) = omega arith in ap (byte_at (x ∷ xs)) e

pub slice_whole : (xs : List ℕ) → slice xs 0 (length xs) ≡ xs
slice_whole [] = refl
slice_whole (x ∷ xs) = ap (◌∷◌ x) (
    ap (λ k. slice (x ∷ xs) k (length xs)) (omega arith)
    ∙ slice_suffix x xs 0 (length xs)
    ∙ slice_whole xs)

byte_at-append : (xs ys : List ℕ) (i : ℕ) → i < length xs → byte_at (xs ++ ys) i ≡ byte_at xs i
byte_at-append [] ys i h = absurd (omega arith)
byte_at-append (x ∷ xs) ys zero h = refl
byte_at-append (x ∷ xs) ys (suc i) h = byte_at-append xs ys i (omega arith)

pub length-resize : (n : ℕ) (xs : List ℕ) → length (resize n xs) ≡ n
unfolding resize
length-resize n xs = ground (
  arith,
  length-take n xs,
  length-append xs (replicate (n - length xs) 0),
  length-replicate {A = ℕ} (n - length xs) 0,
)

-- Growing a vector keeps the bytes that it has.
pub byte_at-resize :
    (n : ℕ) (xs : List ℕ) (i : ℕ)
    → length xs ≤ n
    → i < length xs
    → byte_at (resize n xs) i ≡ byte_at xs i
unfolding resize
byte_at-resize n xs i h lt =
    ground (arith, take_all n xs, byte_at-append xs (replicate (n - length xs) 0) i)
