-- ===== src/Live/PaperBroker/Booking.antt =====
-- The slices of ez/live/paper_broker.py as the ledger of ez/live/ledger.py books them.
use backtesting_framework.Common.{
  ℕ, ℤ, pos, ◌+◌, ◌≤◌, ◌+ℤ◌, ◌-ℤ◌, ltb_ℤ, leb_ℤ, ◌≡◌, refl, ap, Bool, true, false, arith, List, [],
  ◌∷◌, if◌then◌else◌, All, ==_refl, Eq,
}
use backtesting_framework.Common.Text.{Text, text_eq}
use backtesting_framework.Common.Dict.{Dict, get_or, put, pop, put-put}
use backtesting_framework.Live.Ledger.Apply.{holdings_after_sell}
use backtesting_framework.Live.PaperBroker.Shares.{total}

module _ {ℓ κ} {K : Type ℓ} {V : Type κ} ⦃e : Eq K⦄ where
  get_or-put_self : (k : K) (v w : V) (d : Dict K V) → get_or k w (put k v d) ≡ v
  unfolding get_or put
  get_or-put_self k v w [] = simp (get_or, ==_refl)
  get_or-put_self k v w ((i, u) ∷ d) = ground (arith, get_or-put_self k v w d)

  pop-put : (k : K) (v : V) (d : Dict K V) → pop k (put k v d) ≡ pop k d
  unfolding pop put
  pop-put k v [] = simp (pop, ==_refl)
  pop-put k v ((i, u) ∷ d) = ground (arith, pop-put k v d)

-- A fill of `n` shares.
abbrev pub moved : Bool → Text → ℕ → Dict Text ℤ → Dict Text ℤ
moved bought symbol n holdings =
    if bought
    then put symbol (get_or symbol (pos 0) holdings +ℤ pos n) holdings
    else holdings_after_sell symbol (pos n) holdings

unfoldable pub moved_all : Bool → Text → List ℕ → Dict Text ℤ → Dict Text ℤ
moved_all bought symbol [] holdings = holdings
moved_all bought symbol (n ∷ chunks) holdings =
    moved_all bought symbol chunks (moved bought symbol n holdings)

add_twice : (g : ℤ) (m n : ℕ) → g +ℤ pos m +ℤ pos n ≡ g +ℤ pos (m + n)
unfolding ◌+ℤ◌
add_twice g m n = ground arith

sub_twice : (g : ℤ) (m n : ℕ) → g -ℤ pos m -ℤ pos n ≡ g -ℤ pos (m + n)
unfolding ◌-ℤ◌
sub_twice g m n = ground arith

some_left :
    (g : ℤ) (m n : ℕ) → leb_ℤ (pos (m + n)) g ≡ true → 1 ≤ n → ltb_ℤ (pos 0) (g -ℤ pos m) ≡ true
unfolding ◌-ℤ◌
some_left g m n h k = ground arith

covers_rest : (g : ℤ) (m n : ℕ) → leb_ℤ (pos (m + n)) g ≡ true → leb_ℤ (pos n) (g -ℤ pos m) ≡ true
unfolding ◌-ℤ◌
covers_rest g m n h = ground arith

total_pos : (n : ℕ) (chunks : List ℕ) → All (λ c. 1 ≤ c) (n ∷ chunks) → 1 ≤ total (n ∷ chunks)
total_pos n chunks h = omega (arith, h.0)

pub purchase_in_slices :
    (symbol : Text) (n : ℕ) (chunks : List ℕ) (holdings : Dict Text ℤ)
    → moved_all true symbol (n ∷ chunks) holdings ≡ moved true symbol (total (n ∷ chunks)) holdings
unfolding moved_all
purchase_in_slices symbol n [] holdings = ap (λ k. moved true symbol k holdings) (omega arith)
purchase_in_slices symbol n (m ∷ chunks) holdings =
    let g = get_or symbol (pos 0) holdings in
    rw (purchase_in_slices symbol m chunks (moved true symbol n holdings)) (
      rw (get_or-put_self symbol (g +ℤ pos n) (pos 0) holdings, put-put symbol)
        (ap (λ v. put symbol v holdings) (add_twice g n (m + total chunks))))

pub sale_in_slices :
    (symbol : Text) (n : ℕ) (chunks : List ℕ) (holdings : Dict Text ℤ)
    → All (λ c. 1 ≤ c) (n ∷ chunks)
    → leb_ℤ (pos (total (n ∷ chunks))) (get_or symbol (pos 0) holdings) ≡ true
    → moved_all false symbol (n ∷ chunks) holdings
      ≡ moved false symbol (total (n ∷ chunks)) holdings
unfolding moved_all
sale_in_slices symbol n [] holdings some_shares covered =
    ap (λ k. moved false symbol k holdings) (omega arith)
sale_in_slices symbol n (m ∷ chunks) holdings some_shares covered =
    let g = get_or symbol (pos 0) holdings in
    let later = total (m ∷ chunks) in
    let kept = some_left g n later covered (total_pos m chunks some_shares.1) in
    let first : moved false symbol n holdings ≡ put symbol (g -ℤ pos n) holdings =
      unfold holdings_after_sell in rw kept refl in
    let held : get_or symbol (pos 0) (put symbol (g -ℤ pos n) holdings) ≡ g -ℤ pos n =
      get_or-put_self symbol (g -ℤ pos n) (pos 0) holdings in
    let second =
      sale_in_slices symbol m chunks (put symbol (g -ℤ pos n) holdings) some_shares.1
        (rw held (covers_rest g n later covered)) in
    rw (first, second)
      (unfold holdings_after_sell in
        rw (held, sub_twice g n later, put-put symbol, pop-put symbol (g -ℤ pos n) holdings) refl)
