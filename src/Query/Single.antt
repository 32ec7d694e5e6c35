-- ===== src/Query/Single.antt =====
-- Queries whose condition is one comparison of a field with a constant.
use dalgo2http.Prelude.{
  String, ◌≡◌, refl, ◌∙◌, Bool, true, false, not, ◌&&◌, ◌||◌, [], Bool-cases, inl, inr, Dict,
  lookup, insert, has_key, arith,
}
use dalgo2http.Errors.{Error, Result, ok, err, panic, ◌>>◌, fail_if}
use dalgo2http.Value.{Any}
use dalgo2http.Runtime.{Go}
use dalgo2http.Descriptor.{Collection}
use dalgo2http.Dal.{Operator, equal, field_ref, constant, comparison, StructuredQuery}
use dalgo2http.Query.{
  stringify_param, conflicts, push_equality, collect_comparison, collect_equalities, QueryPlan,
  find_collection, column_field_names, plan_query,
}
use dalgo2http.Query.Plan.{IsPlain, refuse_unsupported_iff}

abbrev pub is_ok {ℓ} : {A : Type ℓ} → Result A → Bool
is_ok (ok a) = true
is_ok (err e) = false
is_ok panic = false

abbrev pub is_equal : Operator → Bool
is_equal equal = true
is_equal _ = false

-- A plain query for all columns, whose condition compares a field with a constant that has a text.
pub record IsComparison (g : Go) (q : StructuredQuery) (name : String) (op : Operator) (v : Any)
    : Type 0 where
  pub plain : IsPlain q
  pub columns : q.columns ≡ []
  pub condition : q.condition ≡ comparison (field_ref name) op (constant v)
  pub text : String
  pub stringified : stringify_param g v ≡ ok text

-- the residual flag of one comparison
collects_single :
    (g : Go) (coll : Collection) (name : String) (op : Operator) (v : Any) (text : String)
    → stringify_param g v ≡ ok text
    → (eqs : Dict String) × (collect_comparison g coll (field_ref name) op (constant v) []
        ≡ ok (not (is_equal op && has_key name coll.params), eqs))
unfolding collect_comparison push_equality conflicts lookup
collects_single g coll name equal v text e = elim (Bool-cases (has_key name coll.params)) [
  | inl declared ↦ (insert name text [], rw (declared, e) refl)
  | inr undeclared ↦ ([], rw undeclared refl)
]
collects_single g coll name op v text e = ([], refl)

guarded : (b : Bool) (e : Error) (p : QueryPlan) → is_ok (fail_if b e >> ok p) ≡ not b
guarded true e p = refl
guarded false e p = refl

either : (a c : Bool) → not (not a && not c) ≡ (c || a)
either a c = ground arith

-- Such a query is planned exactly when the collection filters on the client's side, or the comparison
-- is an equality of a declared parameter.
pub plan_query-single :
    (g : Go) (collections : Dict Collection) (q : StructuredQuery) (name : String) (op : Operator)
    (v : Any) (coll : Collection)
    → find_collection collections q.from ≡ ok coll
    → IsComparison g q name op v
    → is_ok (plan_query g collections q)
      ≡ (coll.client_side_filter || (is_equal op && has_key name coll.params))
unfolding plan_query collect_equalities column_field_names
plan_query-single g collections q name op v coll found h =
    let (eqs, collected) = collects_single g coll name op v h.text h.stringified in
    rw (found, (refuse_unsupported_iff q).1 h.plain, h.columns, h.condition, collected)
      (guarded (not (is_equal op && has_key name coll.params) && not coll.client_side_filter) _ _
        ∙ either (is_equal op && has_key name coll.params) coll.client_side_filter)
