-- ===== src/Query/Plan.antt =====
-- When a query is planned, and what a plan guarantees.
use dalgo2http.Prelude.{
  Bool-cases, has_key, String, ◌≡◌, refl, subst, ◌↔◌, Bool, true, false, not, ◌&&◌, ◌||◌, List, [],
  ◌∷◌, some, arith, ◌==◌, All, Dict, none, All-split, lookup, is_empty, ◌⊎◌, inl, inr, eq_iff,
}
use dalgo2http.Errors.{
  Error, error_is, not_supported, unknown_collection, ok, fail_if, >>=-eq-ok, Raises, Raises-bind,
  fail_if-eq-ok, ok_inj,
}
use dalgo2http.Runtime.{Go}
use dalgo2http.Value.{Any, nil, stringer}
use dalgo2http.Descriptor.{Collection}
use dalgo2http.Dal.{
  Expression, field_ref, constant, Operator, equal, and, Condition, Conditions, absent, group,
  comparison, none_left, both, StructuredQuery,
}
use dalgo2http.Filter.{unsupported, is_absent}
use dalgo2http.Query.{
  column_loop, stringify_param, conflicts, push_equality, collect_comparison, collect_group,
  QueryPlan, is_positive, find_collection, refuse_unsupported, column_field_names,
  collect_equalities, plan_query,
}
use dalgo2http.Query.Pushdown.{leaves, leaves_of, IsPushed}
use dalgo2http.Query.Walks.{collect_equalities-IsPushed}

-- The query asks for nothing but a selection by a condition, columns and a limit.
pub record IsPlain (q : StructuredQuery) : Type 0 where
  pub joins : is_empty q.joins ≡ true
  pub group_by : is_empty q.group_by ≡ true
  pub having : is_absent q.having ≡ true
  pub order_by : is_empty q.order_by ≡ true
  pub offset : is_positive q.offset ≡ false
  pub start_from : q.start_from ≡ ""
  pub start_after : q.start_after ≡ ""

pub refuse_unsupported_iff : (q : StructuredQuery) → (refuse_unsupported q ≡ ok tt) ↔ IsPlain q
unfolding refuse_unsupported
refuse_unsupported_iff q = ground (arith, eq_iff q.start_from "", eq_iff q.start_after "")

-- A plan answers for the query.
pub record Answers (g : Go) (collections : Dict Collection) (q : StructuredQuery) (p : QueryPlan)
    : Type 0 where
  pub found : lookup q.from collections ≡ some p.collection
  pub plain : IsPlain q
  pub columns : column_field_names q.columns ≡ ok p.projection
  pub enforced :
      All (IsPushed g p.collection p.equalities) (leaves q.condition)
      ⊎ ((p.residual ≡ true) × (p.collection.client_side_filter ≡ true))

opted_in : (r c : Bool) → r ≡ true → (r && not c) ≡ false → c ≡ true
opted_in r c p h = ground arith

pub find_collection-lookup :
    (collections : Dict Collection) (name : String) (coll : Collection)
    → find_collection collections name ≡ ok coll
    → lookup name collections ≡ some coll
unfolding find_collection
find_collection-lookup collections name coll e = ground arith

-- A query that is planned names a known collection, asks for nothing that one GET cannot express,
-- and either every condition that its Where joins is pushed into the URL, or the collection has
-- opted into client-side filtering.
pub plan_query-Answers :
    (g : Go) (collections : Dict Collection) (q : StructuredQuery) (p : QueryPlan)
    → plan_query g collections q ≡ ok p
    → Answers g collections q p
unfolding plan_query
plan_query-Answers g collections q p e =
    let (coll, found, e₁) = >>=-eq-ok (find_collection collections q.from) _ e in
    let (_, plain, e₂) = >>=-eq-ok (refuse_unsupported q) _ e₁ in
    let (projection, columns, e₃) = >>=-eq-ok (column_field_names q.columns) _ e₂ in
    let ((residual, eqs), collected, e₄) =
      >>=-eq-ok (collect_equalities g coll q.condition []) _ e₃ in
    let (guarded, shape) = fail_if-eq-ok (residual && not coll.client_side_filter) _ _ e₄ in
    subst (Answers g collections q) (ok_inj _ p shape) (record {
      found = find_collection-lookup collections q.from coll found;
      plain = (refuse_unsupported_iff q).0 plain;
      columns = columns;
      enforced = elim (collect_equalities-IsPushed g coll q.condition [] eqs residual collected).1 [
        | inl left ↦ inr (left, opted_in residual coll.client_side_filter left guarded)
        | inr pushed ↦ inl pushed
      ];
    })

-- calling the value's method String, if it has one, does not panic
abbrev pub HasText : Any → Type 0
HasText (stringer none) = ⊥
HasText _ = Unit

-- so for the constant that a field is compared with by equality
abbrev pub IsShown : Condition → Type 0
IsShown (comparison (field_ref name) equal (constant v)) = HasText v
IsShown _ = Unit

module _ (P : Error → Type 0) (unsupported_ok : (m : String) → P (unsupported m)) where
  fail_if-Raises : (b : Bool) (m : String) → Raises P (fail_if b (unsupported m))
  fail_if-Raises true m = unsupported_ok m
  fail_if-Raises false m = tt

  column_loop-Raises : (columns : List Expression) → Raises P (column_loop columns)
  unfolding column_loop
  column_loop-Raises [] = tt
  column_loop-Raises (field_ref name ∷ columns) =
      Raises-bind P (column_loop columns) _ (column_loop-Raises columns) (λ names. tt)
  column_loop-Raises (_ ∷ columns) = unsupported_ok _

  column_field_names-Raises : (columns : List Expression) → Raises P (column_field_names columns)
  unfolding column_field_names
  column_field_names-Raises [] = tt
  column_field_names-Raises (c ∷ columns) =
      Raises-bind P (column_loop (c ∷ columns)) _ (column_loop-Raises (c ∷ columns)) (λ names. tt)

  stringify_param-Raises : (g : Go) (v : Any) → HasText v → Raises P (stringify_param g v)
  unfolding stringify_param
  stringify_param-Raises g nil h = unsupported_ok _
  stringify_param-Raises g (stringer none) h = h
  stringify_param-Raises g _ h = tt

  push_equality-Raises : (name v : String) (eqs : Dict String) → Raises P (push_equality name v eqs)
  unfolding push_equality
  push_equality-Raises name v eqs = elim (Bool-cases (conflicts (lookup name eqs) v)) [
    | inl p ↦ rw p (unsupported_ok _)
    | inr p ↦ rw p tt
  ]

  collect_comparison-Raises :
      (g : Go) (coll : Collection) (left : Expression) (op : Operator) (right : Expression)
      (eqs : Dict String)
      → IsShown (comparison left op right)
      → Raises P (collect_comparison g coll left op right eqs)
  unfolding collect_comparison
  collect_comparison-Raises g coll (field_ref name) equal (constant v) eqs h =
      elim (Bool-cases (has_key name coll.params)) [
        | inl p ↦ rw p (
            Raises-bind P (stringify_param g v) _ (stringify_param-Raises g v h)
              (λ t. push_equality-Raises name t eqs))
        | inr p ↦ rw p tt
      ]
  collect_comparison-Raises g coll left op right eqs h = tt

  mutual
    unfolding collect_equalities leaves

    equalities-Raises :
        (g : Go) (coll : Collection) (c : Condition) (eqs : Dict String)
        → All IsShown (leaves c)
        → Raises P (collect_equalities g coll c eqs)
    equalities-Raises g coll absent eqs h = tt
    equalities-Raises g coll (group and cs) eqs h = group-Raises g coll cs false eqs h
    equalities-Raises g coll (comparison left op right) eqs h =
        collect_comparison-Raises g coll left op right eqs h.0
    equalities-Raises g coll c eqs h = tt

    group-Raises :
        (g : Go) (coll : Collection) (cs : Conditions) (residual : Bool) (eqs : Dict String)
        → All IsShown (leaves_of cs)
        → Raises P (collect_group g coll cs residual eqs)
    group-Raises g coll none_left residual eqs h = tt
    group-Raises g coll (both c cs) residual eqs h =
        let (here, rest) = All-split IsShown (leaves c) (leaves_of cs) h in
        Raises-bind P (collect_equalities g coll c eqs) _ (equalities-Raises g coll c eqs here)
          (λ (r, eqs'). group-Raises g coll cs (residual || r) eqs' rest)

  refuse_unsupported-Raises : (q : StructuredQuery) → Raises P (refuse_unsupported q)
  unfolding refuse_unsupported
  refuse_unsupported-Raises q =
      Raises-bind P (fail_if _ _) _ (fail_if-Raises (not (is_empty q.joins)) _) λ _.
        Raises-bind P (fail_if _ _) _
          (fail_if-Raises (not (is_empty q.group_by) || not (is_absent q.having)) _)
          λ _. Raises-bind P (fail_if _ _) _ (fail_if-Raises (not (is_empty q.order_by)) _) λ _.
            Raises-bind P (fail_if _ _) _ (fail_if-Raises (is_positive q.offset) _)
              λ _. fail_if-Raises (not (q.start_from == "") || not (q.start_after == "")) _

-- the error of a refused query: an unknown collection, or something that is not supported
abbrev pub IsRefusal : Error → Type 0
IsRefusal e = (error_is e not_supported || error_is e unknown_collection) ≡ true

find_collection-IsRefusal :
    (collections : Dict Collection) (name : String)
    → Raises IsRefusal (find_collection collections name)
unfolding find_collection
find_collection-IsRefusal collections name = ground arith

pub plan_query-IsRefusal :
    (g : Go) (collections : Dict Collection) (q : StructuredQuery)
    → All IsShown (leaves q.condition)
    → Raises IsRefusal (plan_query g collections q)
unfolding plan_query
plan_query-IsRefusal g collections q shown =
    Raises-bind IsRefusal (find_collection collections q.from) _
      (find_collection-IsRefusal collections q.from)
      λ coll.
        Raises-bind IsRefusal (refuse_unsupported q) _
          (refuse_unsupported-Raises IsRefusal (λ m. refl) q)
          λ _.
            Raises-bind IsRefusal (column_field_names q.columns) _
              (column_field_names-Raises IsRefusal (λ m. refl) q.columns)
              λ projection.
                Raises-bind IsRefusal (collect_equalities g coll q.condition []) _
                  (equalities-Raises IsRefusal (λ m. refl) g coll q.condition [] shown)
                  λ (residual, eqs).
                    Raises-bind IsRefusal (fail_if _ _) _
                      (fail_if-Raises IsRefusal (λ m. refl)
                        (residual && not coll.client_side_filter) _)
                      (λ _. tt)
