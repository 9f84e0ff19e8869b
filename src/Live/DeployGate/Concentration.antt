-- ===== src/Live/DeployGate/Concentration.antt =====
-- `_parse_json_field` and `_compute_max_concentration` of ez/live/deploy_gate.py.
use backtesting_framework.Common.{
  pos, Bool, false, Option, none, some, List, [], ◌∷◌, if◌then◌else◌, Float, larger,
}
use backtesting_framework.Common.Text.{Text}

-- A stored field: absent, JSON text, or a value.
pub data Field (A : Type 0) : Type 0 where
  missing : Field A
  encoded : Text → Field A
  value : A → Field A

abbrev pub or_default : {A : Type 0} → A → Option A → A
or_default fallback none = fallback
or_default fallback (some a) = a

-- `_parse_json_field`; `decode` is `json.loads`, with none for a text that it refuses.
unfoldable pub parse_json_field : {A : Type 0} → (Text → Option A) → Field A → A → A
parse_json_field decode missing fallback = fallback
parse_json_field decode (encoded raw) fallback = or_default fallback (decode raw)
parse_json_field decode (value a) fallback = a

-- A weight of a rebalance entry: a number, or something else, which is passed over.
pub data Weight (F : Type 0) : Type 0 where
  number : F → Weight F
  other : Weight F

-- A rebalance entry: no dictionary, a dictionary of weights, or one under "weights", which may itself
-- be no dictionary.
pub data Entry (F : Type 0) : Type 0 where
  not_dict : Entry F
  plain : List (Weight F) → Entry F
  nested : Option (List (Weight F)) → Entry F

module _ {F : Type 0} where
  -- The weights that are looked at.
  unfoldable pub weights_of : Entry F → List (Weight F)
  weights_of not_dict = []
  weights_of (plain weights) = weights
  weights_of (nested none) = []
  weights_of (nested (some weights)) = weights

  unfoldable pub numbers : List (Weight F) → List F
  numbers [] = []
  numbers (number w ∷ weights) = w ∷ numbers weights
  numbers (other ∷ weights) = numbers weights

module _ {F : Type 0} ⦃o : Float F⦄ where
  unfoldable pub largest_from : F → List F → F
  largest_from best [] = best
  largest_from best (w ∷ ws) = largest_from (larger best w) ws

  -- `if vals: max_w = max(max_w, max(vals))`
  abbrev pub with_largest : F → List F → F
  with_largest best [] = best
  with_largest best (w ∷ ws) = larger best (largest_from w ws)

  unfoldable pub max_over : F → List (Entry F) → F
  unfolding largest_from weights_of numbers
  max_over best [] = best
  max_over best (entry ∷ entries) =
      max_over (with_largest best (numbers (weights_of entry))) entries

  abbrev pub is_zero_float : F → Bool
  is_zero_float x = if o.le x (o.of_int (pos 0)) then o.le (o.of_int (pos 0)) x else false

  -- `_compute_max_concentration`
  unfoldable pub compute_max_concentration : List (Entry F) → F
  unfolding max_over
  compute_max_concentration [] = o.of_int (pos 1)
  compute_max_concentration (entry ∷ entries) =
      let max_w = max_over (o.of_int (pos 0)) (entry ∷ entries) in
      if is_zero_float max_w then o.of_int (pos 1) else max_w
