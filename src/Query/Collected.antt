-- ===== src/Query/Collected.antt =====
-- What a plan of query.go holds of the query's condition.
use dalgo2http.Prelude.{String, ◌≡◌, refl, subst, true, false, not, ◌&&◌, [], Dict}
use dalgo2http.Errors.{ok, >>=-eq-ok, fail_if-eq-ok, ok_inj}
use dalgo2http.Runtime.{Go}
use dalgo2http.Descriptor.{Collection}
use dalgo2http.Dal.{Condition, absent, group, comparison, is_null, StructuredQuery}
use dalgo2http.Filter.{is_absent}
use dalgo2http.Query.{
  QueryPlan, plan_query, find_collection, refuse_unsupported, column_field_names,
  collect_equalities,
}

-- only a condition that is there leaves something for the filter
collect_equalities-is_absent :
    (g : Go) (coll : Collection) (cond : Condition) (eqs eqs' : Dict String)
    → collect_equalities g coll cond eqs ≡ ok (true, eqs')
    → is_absent cond ≡ false
unfolding is_absent collect_equalities
collect_equalities-is_absent g coll absent eqs eqs' e = cc
collect_equalities-is_absent g coll (group op cs) eqs eqs' e = refl
collect_equalities-is_absent g coll (comparison l op r) eqs eqs' e = refl
collect_equalities-is_absent g coll (is_null x b) eqs eqs' e = refl
collect_equalities-is_absent g coll (Condition.other s) eqs eqs' e = refl

-- the equalities and the residual flag of a plan are what was collected from the condition
pub plan_query-collected :
    (g : Go) (collections : Dict Collection) (q : StructuredQuery) (p : QueryPlan)
    → plan_query g collections q ≡ ok p
    → collect_equalities g p.collection q.condition [] ≡ ok (p.residual, p.equalities)
unfolding plan_query
plan_query-collected g collections q p e =
    let (coll, _, e₁) = >>=-eq-ok (find_collection collections q.from) _ e in
    let (_, _, e₂) = >>=-eq-ok (refuse_unsupported q) _ e₁ in
    let (_, _, e₃) = >>=-eq-ok (column_field_names q.columns) _ e₂ in
    let ((residual, eqs), collected, e₄) =
      >>=-eq-ok (collect_equalities g coll q.condition []) _ e₃ in
    let (_, shape) = fail_if-eq-ok (residual && not coll.client_side_filter) _ _ e₄ in
    subst
      (λ (x : QueryPlan).
        collect_equalities g x.collection q.condition [] ≡ ok (x.residual, x.equalities))
      (ok_inj _ p shape) collected

pub plan_query-is_absent :
    (g : Go) (collections : Dict Collection) (q : StructuredQuery) (p : QueryPlan)
    → plan_query g collections q ≡ ok p
    → p.residual ≡ true
    → is_absent q.condition ≡ false
plan_query-is_absent g collections q p e left =
    collect_equalities-is_absent g p.collection q.condition [] p.equalities (
      subst (λ b. collect_equalities g p.collection q.condition [] ≡ ok (b, p.equalities)) left
        (plan_query-collected g collections q p e))
