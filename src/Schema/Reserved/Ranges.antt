-- ===== src/Schema/Reserved/Ranges.antt =====
-- The printed ranges cover the reserved numbers, and are as few as can be.
use trpc_proto.Base.{
  ℕ, ◌+◌, ◌≤◌, ◌<◌, ◌≡◌, refl, ◌∙◌, Bool, false, ◌&&◌, ◌||◌, List, [], ◌∷◌, ◌++◌, arith, leb, ◌==◌,
  has, has-append, Distinct, Bool-cases, inl, inr,
}
use trpc_proto.Schema.Reserved.{
  add_tag, unique_tags, sort_insert, sort_tags, ranges_from, ranges_of_sorted, reserved_ranges,
}

abbrev pub in_range : ℕ → ℕ × ℕ → Bool
in_range n (start, prev) = leb start n && leb n prev

abbrev pub in_ranges : ℕ → List (ℕ × ℕ) → Bool
in_ranges n [] = false
in_ranges n (r ∷ rs) = in_range n r || in_ranges n rs

-- Numbers that grow strictly, from above a bound on.
abbrev pub IsAscending : ℕ → List ℕ → Type 0
IsAscending low [] = Unit
IsAscending low (n ∷ ns) = (low < n) × IsAscending n ns

-- Ranges that are not empty, in order, with a number free between any two.
abbrev pub IsSeparated : List (ℕ × ℕ) → Type 0
IsSeparated [] = Unit
IsSeparated ((start, prev) ∷ []) = start ≤ prev
IsSeparated ((start, prev) ∷ (start', prev') ∷ rs) =
    (start ≤ prev) × (prev + 1 < start') × IsSeparated ((start', prev') ∷ rs)

pub has-add_tag : (tag n : ℕ) (tags : List ℕ) → has (add_tag tag tags) n ≡ tag == n || has tags n
has-add_tag tag n tags = ground (arith, has-append tags (tag ∷ []) n)

pub has-unique_tags :
    (tags seen : List ℕ) (n : ℕ) → has (unique_tags tags seen) n ≡ has tags n || has seen n
unfolding unique_tags
has-unique_tags [] seen n = refl
has-unique_tags (tag ∷ tags) seen n =
    ground (arith, has-unique_tags tags (add_tag tag seen) n, has-add_tag tag n seen)

has-sort_insert :
    (tag n : ℕ) (tags : List ℕ) → has (sort_insert tag tags) n ≡ tag == n || has tags n
has-sort_insert tag n [] = refl
has-sort_insert tag n (t ∷ tags) = ground (arith, has-sort_insert tag n tags)

has-sort_tags : (tags : List ℕ) (n : ℕ) → has (sort_tags tags) n ≡ has tags n
unfolding sort_tags
has-sort_tags [] n = refl
has-sort_tags (tag ∷ tags) n =
    ground (arith, has-sort_insert tag n (sort_tags tags), has-sort_tags tags n)

in_ranges-ranges_from :
    (start prev : ℕ) (rest : List ℕ) (n : ℕ)
    → start ≤ prev
    → in_ranges n (ranges_from start prev rest) ≡ in_range n (start, prev) || has rest n
unfolding ranges_from
in_ranges-ranges_from start prev [] n h = refl
in_ranges-ranges_from start prev (next ∷ rest) n h =
    ground (arith, in_ranges-ranges_from start next rest n, in_ranges-ranges_from next next rest n)

in_ranges_of_sorted : (tags : List ℕ) (n : ℕ) → in_ranges n (ranges_of_sorted tags) ≡ has tags n
in_ranges_of_sorted [] n = refl
in_ranges_of_sorted (start ∷ rest) n = ground (arith, in_ranges-ranges_from start start rest n)

pub in_ranges-reserved_ranges :
    (tags : List ℕ) (n : ℕ) → in_ranges n (reserved_ranges tags) ≡ has tags n
unfolding reserved_ranges
in_ranges-reserved_ranges tags n = ground (
  arith,
  in_ranges_of_sorted (sort_tags (unique_tags tags [])) n,
  has-sort_tags (unique_tags tags []) n,
  has-unique_tags tags [] n,
)

-- A list that ascends from its first number on.
abbrev IsSorted : List ℕ → Type 0
IsSorted [] = Unit
IsSorted (n ∷ ns) = IsAscending n ns

sort_insert-IsAscending :
    (low tag : ℕ) (tags : List ℕ)
    → low < tag
    → has tags tag ≡ false
    → IsAscending low tags
    → IsAscending low (sort_insert tag tags)
sort_insert-IsAscending low tag [] h new up = (h, tt)
sort_insert-IsAscending low tag (t ∷ tags) h new (first, up) = elim (Bool-cases (leb tag t)) [
  | inl here ↦ rw here (h, (ground arith, up))
  | inr later ↦
      rw later (first, sort_insert-IsAscending t tag tags (ground arith) (ground arith) up)
]

sort_insert-IsSorted :
    (tag : ℕ) (tags : List ℕ)
    → has tags tag ≡ false
    → IsSorted tags
    → IsSorted (sort_insert tag tags)
sort_insert-IsSorted tag [] new up = tt
sort_insert-IsSorted tag (t ∷ tags) new up = elim (Bool-cases (leb tag t)) [
  | inl here ↦ rw here (ground arith, up)
  | inr later ↦ rw later (sort_insert-IsAscending t tag tags (ground arith) (ground arith) up)
]

sort_tags-IsSorted : (tags : List ℕ) → Distinct tags → IsSorted (sort_tags tags)
unfolding sort_tags
sort_tags-IsSorted [] d = tt
sort_tags-IsSorted (tag ∷ tags) (new, d) =
    sort_insert-IsSorted tag (sort_tags tags) (has-sort_tags tags tag ∙ new)
      (sort_tags-IsSorted tags d)

Distinct-snoc :
    (tags : List ℕ) (tag : ℕ) → Distinct tags → has tags tag ≡ false → Distinct (tags ++ (tag ∷ []))
Distinct-snoc [] tag d new = (refl, tt)
Distinct-snoc (t ∷ tags) tag (first, d) new =
    (ground (arith, has-append tags (tag ∷ []) t), Distinct-snoc tags tag d (ground arith))

add_tag-Distinct : (tag : ℕ) (tags : List ℕ) → Distinct tags → Distinct (add_tag tag tags)
add_tag-Distinct tag tags d = elim (Bool-cases (has tags tag)) [
  | inl old ↦ rw old d
  | inr new ↦ rw new (Distinct-snoc tags tag d new)
]

unique_tags-Distinct : (tags seen : List ℕ) → Distinct seen → Distinct (unique_tags tags seen)
unfolding unique_tags
unique_tags-Distinct [] seen d = d
unique_tags-Distinct (tag ∷ tags) seen d =
    unique_tags-Distinct tags (add_tag tag seen) (add_tag-Distinct tag seen d)

-- Ranges of which the first begins at a given number.
abbrev BeginsAt : ℕ → List (ℕ × ℕ) → Type 0
BeginsAt start [] = ⊥
BeginsAt start ((a, b) ∷ rs) = (a ≡ start) × IsSeparated ((a, b) ∷ rs)

IsSeparated-cons :
    (start prev start' : ℕ) (rs : List (ℕ × ℕ))
    → start ≤ prev
    → prev + 1 < start'
    → BeginsAt start' rs
    → BeginsAt start ((start, prev) ∷ rs)
IsSeparated-cons start prev start' [] h gap b = absurd b
IsSeparated-cons start prev start' ((a, c) ∷ rs) h gap (e, s) = (refl, (h, omega arith, s))

ranges_from-IsSeparated :
    (start prev : ℕ) (rest : List ℕ)
    → start ≤ prev
    → IsAscending prev rest
    → BeginsAt start (ranges_from start prev rest)
unfolding ranges_from
ranges_from-IsSeparated start prev [] h up = (refl, h)
ranges_from-IsSeparated start prev (next ∷ rest) h (above, up) =
    elim (Bool-cases (next == prev + 1)) [
      | inl joined ↦ rw joined (ranges_from-IsSeparated start next rest (omega arith) up)
      | inr apart ↦ rw apart (
          IsSeparated-cons start prev next (ranges_from next next rest) h (ground arith)
            (ranges_from-IsSeparated next next rest (omega arith) up))
    ]

BeginsAt-IsSeparated : (start : ℕ) (rs : List (ℕ × ℕ)) → BeginsAt start rs → IsSeparated rs
BeginsAt-IsSeparated start [] b = absurd b
BeginsAt-IsSeparated start (r ∷ rs) b = b.1

ranges_of_sorted-IsSeparated : (tags : List ℕ) → IsSorted tags → IsSeparated (ranges_of_sorted tags)
ranges_of_sorted-IsSeparated [] up = tt
ranges_of_sorted-IsSeparated (start ∷ rest) up =
    BeginsAt-IsSeparated start (ranges_from start start rest)
      (ranges_from-IsSeparated start start rest (omega arith) up)

-- Whatever numbers are reserved, the ranges that are printed for them contain exactly these
-- numbers; no range is empty, they ascend, and between two of them a number is free, so none
-- overlap and none could be joined.
pub reserved_ranges-IsSeparated :
    (tags : List ℕ)
    → IsSeparated (reserved_ranges tags)
      × ((n : ℕ) → in_ranges n (reserved_ranges tags) ≡ has tags n)
reserved_ranges-IsSeparated tags = (
  unfold reserved_ranges in
      ranges_of_sorted-IsSeparated (sort_tags (unique_tags tags []))
        (sort_tags-IsSorted (unique_tags tags []) (unique_tags-Distinct tags [] tt)),
  in_ranges-reserved_ranges tags,
)
