-- ===== src/Filter/Meaning.antt =====
-- What the evaluation of a condition means.
use dalgo2http.Prelude.{
  ◌≡◌, refl, ◌↔◌, Bool, true, false, not, List, [], ◌∷◌, arith, All, Option, none, some, lookup,
  if◌then◌else◌,
}
use dalgo2http.Errors.{Result, Raises, IsUnsupported, ok, err, panic, ◌>>=◌}
use dalgo2http.Value.{Any, Row}
use dalgo2http.Runtime.{Go}
use dalgo2http.Dal.{
  Operator, Expression, field_ref, constant, Condition, Conditions, none_left, both, and, or,
  greater_then, greater_or_equal, less_then, less_or_equal, group, comparison, is_null,
}
use dalgo2http.Filter.{
  compare_field, compare_ordered, eval_comparison, eval_is_null, eval_condition, eval_all, eval_any,
}

-- the conditions of a group, as a list
abbrev pub parts : Conditions → List Condition
parts none_left = []
parts (both c cs) = c ∷ parts cs

-- A result is a truth value, or an error that wraps `dal.ErrNotSupported`; it is never a panic.
abbrev pub IsAnswer : Result Bool → Type 0
IsAnswer = Raises IsUnsupported

compare_ordered-IsAnswer :
    (g : Go) (op : Operator) (a b : Any) → IsAnswer (compare_ordered g op a b)
unfolding compare_ordered
compare_ordered-IsAnswer g op a b = ground arith

compare_field-IsAnswer :
    (g : Go) (actual : Option Any) (op : Operator) (right : Expression)
    → IsAnswer (compare_field g actual op right)
unfolding compare_field
compare_field-IsAnswer g none op right = ground arith
compare_field-IsAnswer g (some a) op (constant v) = ground (
  arith,
  compare_ordered-IsAnswer g greater_then a v,
  compare_ordered-IsAnswer g greater_or_equal a v,
  compare_ordered-IsAnswer g less_then a v,
  compare_ordered-IsAnswer g less_or_equal a v,
)
compare_field-IsAnswer g (some a) op right = ground arith

eval_comparison-IsAnswer :
    (g : Go) (row : Row) (left : Expression) (op : Operator) (right : Expression)
    → IsAnswer (eval_comparison g row left op right)
unfolding eval_comparison
eval_comparison-IsAnswer g row (field_ref name) op right =
    compare_field-IsAnswer g (lookup name row) op right
eval_comparison-IsAnswer g row _ op right = refl

eval_is_null-IsAnswer :
    (g : Go) (row : Row) (operand : Expression) (negated : Bool)
    → IsAnswer (eval_is_null g row operand negated)
unfolding eval_is_null
eval_is_null-IsAnswer g row operand negated = ground arith

and_then-IsAnswer :
    (r s : Result Bool) (t : Result Bool)
    → IsAnswer r
    → IsAnswer s
    → IsAnswer t
    → IsAnswer (r >>= λ holds. if holds then s else t)
and_then-IsAnswer (ok true) s t a b c = b
and_then-IsAnswer (ok false) s t a b c = c
and_then-IsAnswer (err e) s t a b c = a
and_then-IsAnswer panic s t a b c = a

mutual
  unfolding eval_condition

  condition-IsAnswer : (g : Go) (row : Row) (c : Condition) → IsAnswer (eval_condition g row c)
  condition-IsAnswer g row (group and cs) = all-IsAnswer g row cs
  condition-IsAnswer g row (group or cs) = any-IsAnswer g row cs
  condition-IsAnswer g row (comparison left op right) = eval_comparison-IsAnswer g row left op right
  condition-IsAnswer g row (is_null operand negated) = eval_is_null-IsAnswer g row operand negated
  condition-IsAnswer g row (group _ cs) = refl
  condition-IsAnswer g row _ = refl

  all-IsAnswer : (g : Go) (row : Row) (cs : Conditions) → IsAnswer (eval_all g row cs)
  all-IsAnswer g row none_left = tt
  all-IsAnswer g row (both c cs) =
      and_then-IsAnswer (eval_condition g row c) (eval_all g row cs) (ok false)
        (condition-IsAnswer g row c) (all-IsAnswer g row cs) tt

  any-IsAnswer : (g : Go) (row : Row) (cs : Conditions) → IsAnswer (eval_any g row cs)
  any-IsAnswer g row none_left = tt
  any-IsAnswer g row (both c cs) =
      and_then-IsAnswer (eval_condition g row c) (ok true) (eval_any g row cs)
        (condition-IsAnswer g row c) tt (any-IsAnswer g row cs)

-- Evaluating any condition against any row gives a truth value or an error that wraps
-- `dal.ErrNotSupported`, and never panics.
pub eval_condition-IsAnswer :
    (g : Go) (row : Row) (c : Condition) → IsAnswer (eval_condition g row c)
eval_condition-IsAnswer g row c = condition-IsAnswer g row c

and_then_iff :
    (r s : Result Bool)
    → ((r >>= λ holds. if holds then s else ok false) ≡ ok true) ↔ ((r ≡ ok true) × (s ≡ ok true))
and_then_iff (ok true) s = (λ e. (refl, e), λ e. e.1)
and_then_iff (ok false) s = (λ e. cc, λ e. cc)
and_then_iff (err x) s = (λ e. cc, λ e. cc)
and_then_iff panic s = (λ e. cc, λ e. cc)

or_else_iff :
    (r s : Result Bool)
    → ((r >>= λ holds. if holds then ok true else s) ≡ ok false) ↔ ((r ≡ ok false) × (s ≡ ok false))
or_else_iff (ok true) s = (λ e. cc, λ e. cc)
or_else_iff (ok false) s = (λ e. (refl, e), λ e. e.1)
or_else_iff (err x) s = (λ e. cc, λ e. cc)
or_else_iff panic s = (λ e. cc, λ e. cc)

eval_all_iff :
    (g : Go) (row : Row) (cs : Conditions)
    → (eval_all g row cs ≡ ok true) ↔ All (λ c. eval_condition g row c ≡ ok true) (parts cs)
unfolding eval_condition
eval_all_iff g row none_left = (λ _. tt, λ _. refl)
eval_all_iff g row (both c cs) =
    let (to, from) = eval_all_iff g row cs in
    let (split, join) = and_then_iff (eval_condition g row c) (eval_all g row cs) in
    (λ e. ((split e).0, to (split e).1), λ a. join (a.0, from a.1))

eval_any_iff :
    (g : Go) (row : Row) (cs : Conditions)
    → (eval_any g row cs ≡ ok false) ↔ All (λ c. eval_condition g row c ≡ ok false) (parts cs)
unfolding eval_condition
eval_any_iff g row none_left = (λ _. tt, λ _. refl)
eval_any_iff g row (both c cs) =
    let (to, from) = eval_any_iff g row cs in
    let (split, join) = or_else_iff (eval_condition g row c) (eval_any g row cs) in
    (λ e. ((split e).0, to (split e).1), λ a. join (a.0, from a.1))

-- An AND group is true exactly when each of its conditions is, and an OR group is false exactly
-- when each of its conditions is.
pub eval_condition-group_iff :
    (g : Go) (row : Row) (cs : Conditions)
    → ((eval_condition g row (group and cs) ≡ ok true)
        ↔ All (λ c. eval_condition g row c ≡ ok true) (parts cs))
      × ((eval_condition g row (group or cs) ≡ ok false)
          ↔ All (λ c. eval_condition g row c ≡ ok false) (parts cs))
unfolding eval_condition
eval_condition-group_iff g row cs = (eval_all_iff g row cs, eval_any_iff g row cs)

-- IS NULL and IS NOT NULL of one operand are always each other's negation, and both are refused
-- for an operand that is neither a field nor a constant.
pub eval_is_null-not :
    (g : Go) (row : Row) (operand : Expression) (b : Bool)
    → (eval_is_null g row operand false ≡ ok b) ↔ (eval_is_null g row operand true ≡ ok (not b))
unfolding eval_is_null
eval_is_null-not g row operand b = ground arith
