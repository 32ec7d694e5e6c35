-- ===== src/Filter.antt =====
-- filter.go: a condition evaluated against a row in memory.
pub mod Meaning
pub mod Rows
use Prim.Native.String
use text.Mathlib.Text.{is_lt, is_le}
use dalgo2http.Prelude.{
  ℕ, String, Bool, true, false, not, ◌&&◌, List, [], ◌∷◌, Option, none, some, ◌==◌, if◌then◌else◌,
  any, lookup,
}
use dalgo2http.Errors.{Error, sentinel, errorf, not_supported, Result, ok, err, ◌>>=◌}
use dalgo2http.Value.{Any, str, float64, float32, integer, slice, items, Row}
use dalgo2http.Runtime.{Go}
use dalgo2http.Dal.{
  Operator, and, or, equal, greater_then, greater_or_equal, less_then, less_or_equal, in_,
  Expression, field_ref, constant, array, Condition, Conditions, absent, group, comparison, is_null,
  none_left, both,
}

-- an error that wraps `dal.ErrNotSupported`
abbrev pub unsupported : String → Error
unsupported message = errorf message (sentinel not_supported)

abbrev xor : Bool → Bool → Bool
xor true b = not b
xor false b = b

-- Go's order on texts, by bytes
abbrev text_lt : String → String → Bool
text_lt s t = is_lt (Prim.Native.String.compare s t)

abbrev text_le : String → String → Bool
text_le s t = is_le (Prim.Native.String.compare s t)

module _ (g : Go) where
  unfoldable pub to_float : Any → Option ℕ
  to_float (float64 x) = some x
  to_float (float32 x) = some (g.widen x)
  to_float (integer kind n) = some (g.float_of_int n)
  to_float _ = none

  compare_floats : Option ℕ → Option ℕ → Option Bool
  compare_floats (some a) (some b) = some (g.float_eq a b)
  compare_floats _ _ = none

  unfoldable pub compare_equal : Any → Any → Bool
  unfolding compare_floats
  compare_equal a b = elim (compare_floats (to_float a) (to_float b)) [
    | some same ↦ same
    | none ↦ g.sprint a == g.sprint b
  ]

  -- the `switch op` over two numbers; `none` where no case applies
  order_floats : Operator → ℕ → ℕ → Option Bool
  order_floats greater_then a b = some (g.float_lt b a)
  order_floats greater_or_equal a b = some (g.float_le b a)
  order_floats less_then a b = some (g.float_lt a b)
  order_floats less_or_equal a b = some (g.float_le a b)
  order_floats _ a b = none

  order_texts : Operator → String → String → Option Bool
  order_texts greater_then a b = some (text_lt b a)
  order_texts greater_or_equal a b = some (text_le b a)
  order_texts less_then a b = some (text_lt a b)
  order_texts less_or_equal a b = some (text_le a b)
  order_texts _ a b = none

  order_if_floats : Operator → Option ℕ → Option ℕ → Option Bool
  unfolding order_floats
  order_if_floats op (some a) (some b) = order_floats op a b
  order_if_floats op _ _ = none

  order_if_texts : Operator → Any → Any → Result Bool
  unfolding order_texts
  order_if_texts op (str a) (str b) = elim (order_texts op a b) [
    | some r ↦ ok r
    | none ↦ err (unsupported "%w: cannot compare %T and %T with %q")
  ]
  order_if_texts op _ _ = err (unsupported "%w: cannot compare %T and %T with %q")

  unfoldable pub compare_ordered : Operator → Any → Any → Result Bool
  unfolding to_float order_if_floats order_if_texts
  compare_ordered op a b = elim (order_if_floats op (to_float a) (to_float b)) [
    | some r ↦ ok r
    | none ↦ order_if_texts op a b
  ]

  unfoldable pub slice_contains : Any → Any → Bool
  slice_contains (slice vs) v = any (λ x. compare_equal x v) (items vs)
  slice_contains _ v = false

  compare_constant : Operator → Any → Any → Result Bool
  compare_constant equal actual v = ok (compare_equal actual v)
  compare_constant greater_then actual v = compare_ordered greater_then actual v
  compare_constant greater_or_equal actual v = compare_ordered greater_or_equal actual v
  compare_constant less_then actual v = compare_ordered less_then actual v
  compare_constant less_or_equal actual v = compare_ordered less_or_equal actual v
  compare_constant _ actual v = err (unsupported "%w: unsupported operator %q")

  -- `actual` is `none` where the row lacks the field
  compare_field : Option Any → Operator → Expression → Result Bool
  unfolding compare_constant
  compare_field none op (constant v) = ok false
  compare_field (some actual) op (constant v) = compare_constant op actual v
  compare_field none in_ (array v) = ok false
  compare_field (some actual) in_ (array v) = ok (slice_contains v actual)
  compare_field actual op (array v) =
      err (unsupported "%w: an array operand requires the In operator")
  compare_field actual op _ = err (unsupported "%w: unsupported right-hand operand %T")

  unfoldable pub eval_comparison : Row → Expression → Operator → Expression → Result Bool
  unfolding compare_field
  eval_comparison row (field_ref name) op right = compare_field (lookup name row) op right
  eval_comparison row _ op right = err (unsupported "%w: left side of a comparison must be a field")

  is_null_field : Option Any → Bool
  is_null_field none = true
  is_null_field (some v) = g.is_null_value v

  unfoldable pub eval_is_null : Row → Expression → Bool → Result Bool
  unfolding is_null_field
  eval_is_null row (field_ref name) negated = ok (xor (is_null_field (lookup name row)) negated)
  eval_is_null row (constant v) negated = ok (xor (g.is_null_value v) negated)
  eval_is_null row _ negated =
      err (unsupported "%w: IS NULL operand %T must be a field or constant")

unfoldable mutual
  unfolding eval_comparison eval_is_null

  pub eval_condition : Go → Row → Condition → Result Bool
  eval_condition g row (group and cs) = eval_all g row cs
  eval_condition g row (group or cs) = eval_any g row cs
  eval_condition g row (group _ cs) = err (unsupported "%w: unsupported group operator %q")
  eval_condition g row (comparison left op right) = eval_comparison g row left op right
  eval_condition g row (is_null operand negated) = eval_is_null g row operand negated
  eval_condition g row _ = err (unsupported "%w: unsupported condition shape %T")

  -- the loop of the And case; the rest is not evaluated behind a false part
  pub eval_all : Go → Row → Conditions → Result Bool
  eval_all g row none_left = ok true
  eval_all g row (both c cs) =
      let rest = eval_all g row cs in
      do holds ← eval_condition g row c; if holds then rest else ok false

  -- the loop of the Or case; the rest is not evaluated behind a true part
  pub eval_any : Go → Row → Conditions → Result Bool
  eval_any g row none_left = ok false
  eval_any g row (both c cs) =
      let rest = eval_any g row cs in
      do holds ← eval_condition g row c; if holds then ok true else rest

unfoldable pub is_absent : Condition → Bool
is_absent absent = true
is_absent _ = false

filter_loop : Go → Condition → List Row → Result (List Row)
filter_loop g cond [] = ok []
filter_loop g cond (row ∷ rows) = do
  holds ← eval_condition g row cond
  rest ← filter_loop g cond rows
  if holds then ok (row ∷ rest) else ok rest

-- The loop appends to `out`; here the rows behind are filtered first, and put behind the row.
unfoldable pub filter_rows : Go → List Row → Condition → Result (List Row)
unfolding filter_loop is_absent
filter_rows g rows cond = if is_absent cond then ok rows else filter_loop g cond rows
