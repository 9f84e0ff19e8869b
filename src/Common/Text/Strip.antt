-- ===== src/Common/Text/Strip.antt =====
-- Lemmas on `strip` and `lower`.
use Prim.Native.Nat.{ℕ}
use mathlib.Core.Path.{◌≡◌, refl, ◌∙◌, ap}
use mathlib.Core.Logic.{inl, inr}
use mathlib.Core.Bool.{false}
use mathlib.Core.List.{[], ◌∷◌}
use native.Mathlib.Omega.{arith}
use backtesting_framework.Common.Tests.{Bool-cases}
use backtesting_framework.Common.Text.{
  Text, is_space, lower, lower_char, lstrip, rstrip, keep, strip,
}

lower_char_idem : (c : ℕ) → lower_char (lower_char c) ≡ lower_char c
unfolding lower_char
lower_char_idem c = ground arith

is_space-lower_char : (c : ℕ) → is_space (lower_char c) ≡ is_space c
unfolding is_space lower_char
is_space-lower_char c = ground arith

pub lower_idem : (s : Text) → lower (lower s) ≡ lower s
lower_idem [] = refl
lower_idem (c ∷ s) = cc (lower_char_idem c, lower_idem s)

lstrip-lower : (s : Text) → lstrip (lower s) ≡ lower (lstrip s)
unfolding lstrip
lstrip-lower [] = refl
lstrip-lower (c ∷ s) = ground (arith, lstrip-lower s, is_space-lower_char c)

keep-lower : (c : ℕ) (s : Text) → keep (lower_char c) (lower s) ≡ lower (keep c s)
unfolding keep
keep-lower c [] = ground (arith, is_space-lower_char c)
keep-lower c (d ∷ s) = refl

rstrip-lower : (s : Text) → rstrip (lower s) ≡ lower (rstrip s)
unfolding rstrip
rstrip-lower [] = refl
rstrip-lower (c ∷ s) = ap (keep (lower_char c)) (rstrip-lower s) ∙ keep-lower c (rstrip s)

pub strip-lower : (s : Text) → strip (lower s) ≡ lower (strip s)
unfolding strip
strip-lower s = ap rstrip (lstrip-lower s) ∙ rstrip-lower (lstrip s)

rstrip-keep : (c : ℕ) (s : Text) → rstrip s ≡ s → rstrip (keep c s) ≡ keep c s
unfolding rstrip
rstrip-keep c [] h = ground arith
rstrip-keep c (d ∷ s) h = ap (keep c) h

rstrip_idem : (s : Text) → rstrip (rstrip s) ≡ rstrip s
unfolding rstrip
rstrip_idem [] = refl
rstrip_idem (c ∷ s) = rstrip-keep c (rstrip s) (rstrip_idem s)

lstrip-keep : (c : ℕ) (s : Text) → is_space c ≡ false → lstrip (keep c s) ≡ keep c s
unfolding lstrip keep
lstrip-keep c [] h = ground arith
lstrip-keep c (d ∷ s) h = ground arith

lstrip-strip : (s : Text) → lstrip (strip s) ≡ strip s
unfolding strip lstrip rstrip
lstrip-strip [] = refl
lstrip-strip (c ∷ s) = elim (Bool-cases (is_space c)) [
  | inl space ↦ rw space (lstrip-strip s)
  | inr kept ↦ rw kept (lstrip-keep c (rstrip s) kept)
]

pub strip_idem : (s : Text) → strip (strip s) ≡ strip s
unfolding strip
strip_idem s = ap rstrip (lstrip-strip s) ∙ rstrip_idem (lstrip s)
