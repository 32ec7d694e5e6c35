-- ===== src/Query/Plannable.antt =====
-- Which queries query.go plans.
use dalgo2http.Prelude.{
  String, ◌≡◌, refl, sym, ◌∙◌, subst, ◌↔◌, Bool, true, false, not, ◌&&◌, ◌||◌, [], some, All,
  All-split, Bool-cases, Option-cases, inl, inr, ◌==◌, eq_refl, eq_iff, Dict, lookup, insert,
  has_key, lookup-insert,
}
use dalgo2http.Errors.{Result, ok, >>=-eq-ok, fail_if-eq-ok}
use dalgo2http.Runtime.{Go}
use dalgo2http.Descriptor.{Collection}
use dalgo2http.Dal.{
  Operator, and, equal, Expression, field_ref, constant, Condition, Conditions, absent, group,
  comparison, none_left, both, StructuredQuery,
}
use dalgo2http.Query.{
  Collected, conflicts, push_equality, collect_comparison, collect_equalities, collect_group,
  find_collection, refuse_unsupported, column_field_names, QueryPlan, plan_query,
}
use dalgo2http.Query.Pushdown.{leaves, leaves_of, Extends}
use dalgo2http.Query.Walks.{has_residual, IsHeld, equalities-Walk}
use dalgo2http.Query.Plan.{IsPlain, refuse_unsupported_iff, find_collection-lookup}
use dalgo2http.Query.Columns.{IsField, column_field_names_iff}

-- the walk succeeds, within the given equalities
abbrev Succeeds : Dict String → Result Collected → Type 0
Succeeds limit r = (b : Bool) × (eqs : Dict String) × (r ≡ ok (b, eqs)) × Extends eqs limit

agrees-conflicts :
    (limit eqs : Dict String) (name text : String)
    → Extends eqs limit
    → lookup name limit ≡ some text
    → conflicts (lookup name eqs) text ≡ false
unfolding conflicts
agrees-conflicts limit eqs name text x found = elim (Option-cases (lookup name eqs)) [
  | inl fresh ↦ rw (fresh, conflicts) refl
  | inr (s, there) ↦
      let same : s ≡ text = cc (x name s there, found) in
      rw (there, same, conflicts, eq_refl text) refl
]

insert-Extends :
    (limit eqs : Dict String) (name text : String)
    → Extends eqs limit
    → lookup name limit ≡ some text
    → Extends (insert name text eqs) limit
insert-Extends limit eqs name text x found k s h = elim (Bool-cases (name == k)) [
  | inl same ↦
      let shown : some text ≡ some s = rw (lookup-insert name k text eqs, same) at h in
      subst (λ j. lookup j limit ≡ some s) ((eq_iff name k).0 same) (found ∙ shown)
  | inr other ↦ x k s (rw (lookup-insert name k text eqs, other) at h)
]

held-collect_comparison :
    (g : Go) (coll : Collection) (limit eqs : Dict String) (left : Expression) (op : Operator)
    (right : Expression)
    → Extends eqs limit
    → IsHeld g coll limit (comparison left op right)
    → Succeeds limit (collect_comparison g coll left op right eqs)
unfolding collect_comparison push_equality
held-collect_comparison g coll limit eqs (field_ref name) equal (constant v) x held =
    elim (Bool-cases (has_key name coll.params)) [
      | inr no_param ↦ (true, eqs, rw no_param refl, x)
      | inl declared ↦
          let (text, shown, found) = held declared in
          (
            false,
            insert name text eqs,
            rw (declared, shown, agrees-conflicts limit eqs name text x found) refl,
            insert-Extends limit eqs name text x found,
          )
    ]
held-collect_comparison g coll limit eqs left op right x held = (true, eqs, refl, x)

mutual
  unfolding collect_equalities leaves

  held-collect_equalities :
      (g : Go) (coll : Collection) (limit eqs : Dict String) (c : Condition)
      → Extends eqs limit
      → All (IsHeld g coll limit) (leaves c)
      → Succeeds limit (collect_equalities g coll c eqs)
  held-collect_equalities g coll limit eqs absent x held = (false, eqs, refl, x)
  held-collect_equalities g coll limit eqs (group and cs) x held =
      held-collect_group g coll limit eqs cs false x held
  held-collect_equalities g coll limit eqs (comparison left op right) x held =
      held-collect_comparison g coll limit eqs left op right x held.0
  held-collect_equalities g coll limit eqs c x held = (true, eqs, refl, x)

  held-collect_group :
      (g : Go) (coll : Collection) (limit eqs : Dict String) (cs : Conditions) (residual : Bool)
      → Extends eqs limit
      → All (IsHeld g coll limit) (leaves_of cs)
      → Succeeds limit (collect_group g coll cs residual eqs)
  held-collect_group g coll limit eqs none_left residual x held = (residual, eqs, refl, x)
  held-collect_group g coll limit eqs (both c cs) residual x held =
      let (first, others) = All-split (IsHeld g coll limit) (leaves c) (leaves_of cs) held in
      let (r, eqs₁, here, y) = held-collect_equalities g coll limit eqs c x first in
      let (b, eqs', later, z) = held-collect_group g coll limit eqs₁ cs (residual || r) y others in
      (b, eqs', rw here later, z)

-- a column is a field reference
-- The query names a known collection and asks for nothing that one GET cannot express; its columns are
-- fields; there is one text for each parameter that its equalities with constants ask for; and all
-- its conditions are such equalities, or the collection filters on the client's side.
pub record IsPlannable (g : Go) (collections : Dict Collection) (q : StructuredQuery) : Type 0 where
  pub collection : Collection
  pub found : lookup q.from collections ≡ some collection
  pub plain : IsPlain q
  pub fields : All IsField q.columns
  pub equalities : Dict String
  pub held : All (IsHeld g collection equalities) (leaves q.condition)
  pub filters :
      (has_residual collection (leaves q.condition) && not collection.client_side_filter) ≡ false

plan_query-IsPlannable :
    (g : Go) (collections : Dict Collection) (q : StructuredQuery) (p : QueryPlan)
    → plan_query g collections q ≡ ok p
    → IsPlannable g collections q
unfolding plan_query
plan_query-IsPlannable g collections q p e =
    let (coll, found, e₁) = >>=-eq-ok (find_collection collections q.from) _ e in
    let (_, plain, e₂) = >>=-eq-ok (refuse_unsupported q) _ e₁ in
    let (projection, columns, e₃) = >>=-eq-ok (column_field_names q.columns) _ e₂ in
    let ((residual, eqs), collected, e₄) =
      >>=-eq-ok (collect_equalities g coll q.condition []) _ e₃ in
    let (guarded, _) = fail_if-eq-ok (residual && not coll.client_side_filter) _ _ e₄ in
    let (_, flag, held) = equalities-Walk g coll q.condition [] eqs residual collected in
    record {
      collection = coll;
      found = find_collection-lookup collections q.from coll found;
      plain = (refuse_unsupported_iff q).0 plain;
      fields = (column_field_names_iff q.columns).0 (projection, columns);
      equalities = eqs;
      held = held;
      filters = subst (λ b. (b && not coll.client_side_filter) ≡ false) flag guarded;
    }

nothing-Extends : (limit : Dict String) → Extends [] limit
unfolding lookup
nothing-Extends limit k s h = cc

find_collection_found :
    (collections : Dict Collection) (name : String) (coll : Collection)
    → lookup name collections ≡ some coll
    → find_collection collections name ≡ ok coll
unfolding find_collection
find_collection_found collections name coll e = rw (find_collection, e) refl

IsPlannable-plan_query :
    (g : Go) (collections : Dict Collection) (q : StructuredQuery)
    → IsPlannable g collections q
    → (p : QueryPlan) × (plan_query g collections q ≡ ok p)
unfolding plan_query
IsPlannable-plan_query g collections q a =
    let coll = a.collection in
    let (projection, columns) = (column_field_names_iff q.columns).1 a.fields in
    let (residual, eqs, collected, _) =
      held-collect_equalities g coll a.equalities [] q.condition (nothing-Extends a.equalities)
        a.held in
    let (_, flag, _) = equalities-Walk g coll q.condition [] eqs residual collected in
    let guarded : (residual && not coll.client_side_filter) ≡ false =
      subst (λ b. (b && not coll.client_side_filter) ≡ false) (sym flag) a.filters in
    (
      record { collection = coll; equalities = eqs; residual = residual; projection = projection },
      rw
          (
            find_collection_found collections q.from coll a.found,
            (refuse_unsupported_iff q).1 a.plain,
            columns,
            collected,
            guarded,
          )
          refl,
    )

-- A query is planned exactly if it names a known collection and asks for nothing but a selection by a
-- condition, columns that are fields, and a limit; the constants that the conditions joined by its
-- Where ask of declared parameters by equality have texts, one for each parameter; and all of these
-- conditions are such equalities, or the collection has opted into client-side filtering.
pub plan_query_iff :
    (g : Go) (collections : Dict Collection) (q : StructuredQuery)
    → ((p : QueryPlan) × (plan_query g collections q ≡ ok p)) ↔ IsPlannable g collections q
plan_query_iff g collections q =
    (λ (p, e). plan_query-IsPlannable g collections q p e, IsPlannable-plan_query g collections q)
