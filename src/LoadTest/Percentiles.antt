-- ===== src/LoadTest/Percentiles.antt =====
-- The percentiles of the report, tests/load/main.go.
use native.Mathlib.Nat.{mul-le-mul_right}
use financial_ai_platform.Prelude.{
  ℕ, zero, suc, ◌*◌, ◌/◌, ◌≤◌, ◌<◌, ◌≡◌, refl, ap, ◌∙◌, arith, Bool, List, [], ◌∷◌, All, ltb, leb,
  length, count, inl, inr, Bool-cases,
}
use financial_ai_platform.LoadTest.{insert, sort, element, percentile}

abbrev IsSorted : List ℕ → Type 0
IsSorted [] = Unit
IsSorted (a ∷ xs) = All (λ b. a ≤ b) xs × IsSorted xs

All-le : (a b : ℕ) (xs : List ℕ) → a ≤ b → All (λ c. b ≤ c) xs → All (λ c. a ≤ c) xs
All-le a b [] h all = tt
All-le a b (c ∷ xs) h (first, rest) = (omega (arith, h, first), All-le a b xs h rest)

insert-All : (a b : ℕ) (xs : List ℕ) → a ≤ b → All (λ c. a ≤ c) xs → All (λ c. a ≤ c) (insert b xs)
unfolding insert
insert-All a b [] h all = (h, tt)
insert-All a b (c ∷ xs) h (first, rest) = elim (Bool-cases (leb b c)) [
  | inl small ↦ rw small (h, (first, rest))
  | inr large ↦ rw large (first, insert-All a b xs h rest)
]

insert-IsSorted : (a : ℕ) (xs : List ℕ) → IsSorted xs → IsSorted (insert a xs)
unfolding insert
insert-IsSorted a [] h = (tt, tt)
insert-IsSorted a (b ∷ xs) (least, rest) = elim (Bool-cases (leb a b)) [
  | inl small ↦
      let le : a ≤ b = ground arith in rw small ((le, All-le a b xs le least), (least, rest))
  | inr large ↦
      let le : b ≤ a = ground arith in
      rw large (insert-All b a xs le least, insert-IsSorted a xs rest)
]

sort-IsSorted : (xs : List ℕ) → IsSorted (sort xs)
unfolding sort
sort-IsSorted [] = tt
sort-IsSorted (a ∷ xs) = insert-IsSorted a (sort xs) (sort-IsSorted xs)

count-insert : (f : ℕ → Bool) (a : ℕ) (xs : List ℕ) → count f (insert a xs) ≡ count f (a ∷ xs)
unfolding insert
count-insert f a [] = refl
count-insert f a (b ∷ xs) = ground (arith, count-insert f a xs)

count-sort : (f : ℕ → Bool) (xs : List ℕ) → count f (sort xs) ≡ count f xs
unfolding sort
count-sort f [] = refl
count-sort f (a ∷ xs) = ground (arith, count-insert f a (sort xs), count-sort f xs)

length-insert : (a : ℕ) (xs : List ℕ) → length (insert a xs) ≡ suc (length xs)
unfolding insert
length-insert a [] = refl
length-insert a (b ∷ xs) = ground (arith, length-insert a xs)

length-sort : (xs : List ℕ) → length (sort xs) ≡ length xs
unfolding sort
length-sort [] = refl
length-sort (a ∷ xs) = length-insert a (sort xs) ∙ ap suc (length-sort xs)

All-element : (P : ℕ → Type 0) (xs : List ℕ) (i : ℕ) → All P xs → i < length xs → P (element xs i)
unfolding element
All-element P [] i h bound = absurd (omega (arith, bound))
All-element P (a ∷ xs) zero (p, h) bound = p
All-element P (a ∷ xs) (suc i) (p, h) bound = All-element P xs i h (omega (arith, bound))

at_most_element :
    (xs : List ℕ) (i : ℕ) → IsSorted xs → i < length xs → i < count (λ x. leb x (element xs i)) xs
unfolding element
at_most_element [] i h bound = absurd (omega (arith, bound))
at_most_element (a ∷ xs) zero h bound = ground arith
at_most_element (a ∷ xs) (suc i) (least, h) bound =
    let inside : i < length xs = omega (arith, bound) in
    let le : a ≤ element xs i = All-element (λ b. a ≤ b) xs i least inside in
    let rest = at_most_element xs i h inside in ground (arith, le, rest)

none_below : (a : ℕ) (xs : List ℕ) → All (λ b. a ≤ b) xs → count (λ x. ltb x a) xs ≡ 0
none_below a [] h = refl
none_below a (b ∷ xs) (first, rest) = ground (arith, none_below a xs rest)

below_element :
    (xs : List ℕ) (i : ℕ) → IsSorted xs → i < length xs → count (λ x. ltb x (element xs i)) xs ≤ i
unfolding element
below_element [] i h bound = absurd (omega (arith, bound))
below_element (a ∷ xs) zero (least, h) bound = ground (arith, none_below a xs least)
below_element (a ∷ xs) (suc i) (least, h) bound =
    let rest = below_element xs i h (omega (arith, bound)) in ground (arith, rest)

percentile_lem :
    (sorted : List ℕ) (p i : ℕ)
    → (p * length sorted) / 100 ≡ i
    → i < length sorted
    → percentile sorted p ≡ element sorted i
unfolding percentile
percentile_lem sorted p i e inside = ground arith

-- Of the latencies that a percentile below 100 is taken of, more than that many percent are at most the
-- percentile, and at most that many percent are less than it.
pub percentile-sort :
    (xs : List ℕ) (p : ℕ)
    → 0 < length xs
    → p < 100
    → let v = percentile (sort xs) p in
      (p * length xs < 100 * count (λ x. leb x v) xs)
      × (100 * count (λ x. ltb x v) xs ≤ p * length xs)
unfolding percentile
percentile-sort xs p some_there small =
    let sorted = sort xs in
    let i = (p * length xs) / 100 in
    let at_most : p ≤ 99 = omega (arith, small) in
    let product = mul-le-mul_right (length xs) at_most in
    let inside : i < length sorted = omega (arith, length-sort xs, product, some_there) in
    let chosen : percentile sorted p ≡ element sorted i =
      percentile_lem sorted p i (ap (λ n. (p * n) / 100) (length-sort xs)) inside in
    let most = at_most_element sorted i (sort-IsSorted xs) inside in
    let few = below_element sorted i (sort-IsSorted xs) inside in
    let most_of = count-sort (λ x. leb x (element sorted i)) xs in
    let few_of = count-sort (λ x. ltb x (element sorted i)) xs in
    rw chosen (omega (arith, most, most_of), omega (arith, few, few_of))
