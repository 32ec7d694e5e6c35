-- ===== src/Dal.antt =====
-- The shapes of dalgo's conditions and queries that the source's type switches tell apart.
-- `absent` is a nil condition; `other` is a condition or expression of any further type.
use dalgo2http.Prelude.{ℕ, String, List, Option, Bool}
use dalgo2http.Value.{ℤ, Any}

pub data Operator : Type 0 where
  and or equal greater_then greater_or_equal less_then less_or_equal in_ : Operator
  unknown : String → Operator

pub data Expression : Type 0 where
  field_ref : String → Expression
  constant : Any → Expression
  array : Any → Expression
  other : String → Expression

mutual
  pub data Condition : Type 0 where
    absent : Condition
    group : Operator → Conditions → Condition
    comparison : Expression → Operator → Expression → Condition
    is_null : Expression → Bool → Condition
    other : String → Condition

  pub data Conditions : Type 0 where
    none_left : Conditions
    both : Condition → Conditions → Conditions

-- `dal.StructuredQuery`; `into_record` is the record factory, if there is one
pub record StructuredQuery : Type 0 where
  pub from : String
  pub joins : List String
  pub group_by : List Expression
  pub having : Condition
  pub order_by : List Expression
  pub offset : ℤ
  pub start_from : String
  pub start_after : String
  pub columns : List Expression
  pub condition : Condition
  pub limit : ℤ
  pub into_record : Option ℕ

pub data Query : Type 0 where
  structured : StructuredQuery → Query
  text_query : String → Query
