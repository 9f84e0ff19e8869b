-- ===== src/Live/PaperBroker/Shares.antt =====
-- `_split_shares` of ez/live/paper_broker.py, on numbers of shares that are not negative. A division by
-- a lot size of 0, which Python refuses, gives none.
use Prim.Native.Nat.{max}
use native.Mathlib.Nat.{le_trans, le-div_iff_mul-le, mul-div-le, mul-le-mul_left, div-eq_of_lt}
use backtesting_framework.Common.{
  ℕ, zero, suc, ◌+◌, ◌-◌, ◌*◌, ◌/◌, ◌≤◌, ◌<◌, min, ltb, leb, nat_beq, ◌≡◌, refl, Bool, false, ◌&&◌,
  Option, none, some, List, [], ◌∷◌, All, Bool-cases, inl, inr, length, arith, if◌then◌else◌,
}
use backtesting_framework.Common.Sort.Filter.{filter_by}

-- The chunk of a round with `later` slices after it.
unfoldable pub next_chunk : ℕ → ℕ → ℕ → ℕ
next_chunk lot_size remaining later =
    min (max (remaining / (later + 1) / lot_size * lot_size) lot_size)
      (remaining - lot_size * later)

-- The loop, from a round with `later` slices after it.
unfoldable pub chunks_from : ℕ → ℕ → ℕ → List ℕ
chunks_from lot_size zero remaining = remaining ∷ []
chunks_from lot_size (suc later) remaining =
    let chunk = next_chunk lot_size remaining (suc later) in
    chunk ∷ chunks_from lot_size later (remaining - chunk)

-- `effective`
abbrev pub effective_slices : ℕ → ℕ → ℕ → ℕ
effective_slices total_shares slices lot_size = max (min slices (total_shares / max lot_size 1)) 1

abbrev pub is_positive_chunk : ℕ → Bool
is_positive_chunk chunk = ltb 0 chunk

-- `_split_shares`
unfoldable pub split_shares : ℕ → ℕ → ℕ → Option (List ℕ)
unfolding chunks_from
split_shares total_shares slices lot_size =
    let effective = effective_slices total_shares slices lot_size in
    if nat_beq total_shares 0
    then some []
    else if nat_beq lot_size 0 && ltb 1 effective
    then none
    else some (filter_by is_positive_chunk (chunks_from lot_size (effective - 1) total_shares))

abbrev pub total : List ℕ → ℕ
total [] = 0
total (x ∷ xs) = x + total xs

min_bounds :
    (p lot_size r m : ℕ)
    → lot_size + m ≤ r
    → (lot_size ≤ min (max p lot_size) (r - m)) × (min (max p lot_size) (r - m) ≤ r - m)
min_bounds p lot_size r m h = (omega (arith, h), omega (arith, h))

next_chunk-bounds :
    (lot_size remaining later : ℕ)
    → lot_size + lot_size * later ≤ remaining
    → (lot_size ≤ next_chunk lot_size remaining later)
      × (next_chunk lot_size remaining later + lot_size * later ≤ remaining)
unfolding next_chunk
next_chunk-bounds lot_size remaining later h =
    let (lower, upper) =
      min_bounds (remaining / (later + 1) / lot_size * lot_size) lot_size remaining
        (lot_size * later) h in
    (lower, omega (arith, upper, h))

chunks_from-total :
    (lot_size later remaining : ℕ)
    → lot_size + lot_size * later ≤ remaining
    → total (chunks_from lot_size later remaining) ≡ remaining
unfolding chunks_from
chunks_from-total lot_size zero remaining h = omega arith
chunks_from-total lot_size (suc later) remaining h =
    let (lower, upper) = next_chunk-bounds lot_size remaining (suc later) h in
    let rest =
      chunks_from-total lot_size later (remaining - next_chunk lot_size remaining (suc later))
        (omega (arith, upper)) in
    omega (arith, rest, upper)

chunks_from-All :
    (lot_size later remaining : ℕ)
    → lot_size + lot_size * later ≤ remaining
    → All (λ chunk. lot_size ≤ chunk) (chunks_from lot_size later remaining)
unfolding chunks_from
chunks_from-All lot_size zero remaining h = (omega (arith, h), tt)
chunks_from-All lot_size (suc later) remaining h =
    let (lower, upper) = next_chunk-bounds lot_size remaining (suc later) h in
    (
      lower,
      chunks_from-All lot_size later (remaining - next_chunk lot_size remaining (suc later))
          (omega (arith, upper)),
    )

length-chunks_from :
    (lot_size later remaining : ℕ) → length (chunks_from lot_size later remaining) ≡ later + 1
unfolding chunks_from
length-chunks_from lot_size zero remaining = omega arith
length-chunks_from lot_size (suc later) remaining = omega (
  arith,
  length-chunks_from lot_size later (remaining - next_chunk lot_size remaining (suc later)),
)

filter_by-positive :
    (lot_size : ℕ) (xs : List ℕ)
    → 1 ≤ lot_size
    → All (λ chunk. lot_size ≤ chunk) xs
    → filter_by is_positive_chunk xs ≡ xs
unfolding filter_by
filter_by-positive lot_size [] h all = refl
filter_by-positive lot_size (x ∷ xs) h all = ground (arith, filter_by-positive lot_size xs h all.1)

effective_slices-le :
    (total_shares slices lot_size : ℕ)
    → 1 ≤ lot_size
    → lot_size ≤ total_shares
    → effective_slices total_shares slices lot_size ≤ total_shares / lot_size
effective_slices-le total_shares slices lot_size h k =
    let same : max lot_size 1 ≡ lot_size = omega (arith, h) in
    let some_lot : 1 ≤ total_shares / lot_size =
      (le-div_iff_mul-le {k = lot_size} {x = 1} {y = total_shares} h).1 (omega (arith, k)) in
    rw same (omega (arith, some_lot))

slices_fit :
    (total_shares slices lot_size : ℕ)
    → 1 ≤ lot_size
    → lot_size ≤ total_shares
    → lot_size * effective_slices total_shares slices lot_size ≤ total_shares
slices_fit total_shares slices lot_size h k =
    le_trans (mul-le-mul_left lot_size (effective_slices-le total_shares slices lot_size h k))
      (mul-div-le total_shares lot_size)

-- What a split promises: nothing is lost, no slice is smaller than a lot, or than the whole if that is
-- less, and there are as many slices as asked for, as long as there is a lot for each.
pub record IsSplitOf (total_shares slices lot_size : ℕ) (chunks : List ℕ) : Type 0 where
  pub sum : total chunks ≡ total_shares
  pub large : All (λ chunk. min lot_size total_shares ≤ chunk) chunks
  pub number : length chunks ≡ max (min slices (total_shares / lot_size)) 1

small_lot :
    (total_shares slices lot_size : ℕ)
    → 1 ≤ lot_size
    → total_shares < lot_size
    → effective_slices total_shares slices lot_size ≡ 1
small_lot total_shares slices lot_size h k =
    let same : max lot_size 1 ≡ lot_size = omega (arith, h) in
    let none_fits : total_shares / lot_size ≡ 0 = div-eq_of_lt k in
    rw (same, none_fits) (omega arith)

with_first :
    (lot_size e total_shares : ℕ)
    → 1 ≤ e
    → lot_size * e ≤ total_shares
    → lot_size + lot_size * (e - 1) ≤ total_shares
with_first lot_size zero total_shares h k = absurd (omega (arith, h))
with_first lot_size (suc d) total_shares h k =
    let before : suc d - 1 ≡ d = omega arith in rw before (omega (arith, k))

All-min : (a b : ℕ) (xs : List ℕ) → All (λ x. a ≤ x) xs → All (λ x. min a b ≤ x) xs
All-min a b [] all = tt
All-min a b (x ∷ xs) all = (omega (arith, all.0), All-min a b xs all.1)

same_slices :
    (total_shares slices lot_size : ℕ)
    → 1 ≤ lot_size
    → effective_slices total_shares slices lot_size ≡ max (min slices (total_shares / lot_size)) 1
same_slices total_shares slices lot_size h =
    let same : max lot_size 1 ≡ lot_size = omega (arith, h) in rw same refl

all_chunks-IsSplitOf :
    (total_shares slices lot_size : ℕ)
    → 1 ≤ total_shares
    → 1 ≤ lot_size
    → IsSplitOf total_shares slices lot_size
        (chunks_from lot_size (effective_slices total_shares slices lot_size - 1) total_shares)
unfolding chunks_from
all_chunks-IsSplitOf total_shares slices lot_size t h =
    elim (Bool-cases (leb lot_size total_shares)) [
      | inl e ↦
          let enough : lot_size ≤ total_shares = ground arith in
          let fit =
            with_first lot_size (effective_slices total_shares slices lot_size) total_shares
              (omega arith) (slices_fit total_shares slices lot_size h enough) in
          let later = effective_slices total_shares slices lot_size - 1 in
          record {
            sum = chunks_from-total lot_size later total_shares fit;
            large =
                All-min lot_size total_shares _ (chunks_from-All lot_size later total_shares fit);
            number = omega (
              arith,
              length-chunks_from lot_size later total_shares,
              same_slices total_shares slices lot_size h,
            );
          }
      | inr e ↦
          let less : total_shares < lot_size = ground arith in
          let single = small_lot total_shares slices lot_size h less in
          record {
            sum = rw single (omega arith);
            large = rw single (omega arith, tt);
            number = rw single (omega (arith, single, same_slices total_shares slices lot_size h));
          }
    ]

-- Shares that are split come back as slices that add up to them, none of which is smaller than a lot, or
-- than the whole if that is less; there are as many as asked for, if there is a lot for each, and else as
-- many as there are lots, but at least one. The shares and the lot size are positive.
pub split_shares-IsSplitOf :
    (total_shares slices lot_size : ℕ)
    → 1 ≤ total_shares
    → 1 ≤ lot_size
    → (chunks : List ℕ) × (split_shares total_shares slices lot_size ≡ some chunks)
      × IsSplitOf total_shares slices lot_size chunks
unfolding split_shares
split_shares-IsSplitOf total_shares slices lot_size t h =
    let later = effective_slices total_shares slices lot_size - 1 in
    let chunks = chunks_from lot_size later total_shares in
    let split = all_chunks-IsSplitOf total_shares slices lot_size t h in
    let all_kept =
      filter_by-positive (min lot_size total_shares) chunks (omega (arith, t, h)) split.large in
    let some_shares : nat_beq total_shares 0 ≡ false = ground arith in
    let some_lot : nat_beq lot_size 0 ≡ false = ground arith in
    (chunks, rw (some_shares, some_lot, all_kept) refl, split)
