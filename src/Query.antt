-- ===== src/Query.antt =====
-- query.go: how a structured query is planned, and how rows are shaped into records. The fetch
-- between the two, and the query's execution, are in Database and Reads.
pub mod Pushdown
pub mod Plan
pub mod Shape
pub mod Single
pub mod Selection
pub mod Matching
pub mod Walks
pub mod Columns
pub mod Plannable
pub mod Collected
use Prim.Native.String
use dalgo2http.Prelude.{
  ℕ, zero, suc, String, Bool, true, false, not, ◌&&◌, ◌||◌, List, [], ◌∷◌, map, Option, none, some,
  ◌==◌, if◌then◌else◌, Dict, lookup, insert, has_key, is_empty, flag, keep,
}
use dalgo2http.Errors.{
  Error, sentinel, foreign, errorf, not_supported, unknown_collection, Result, ok, panic, err,
  ◌>>=◌, ◌>>◌, fail_if, wrap_error,
}
use dalgo2http.Value.{ℤ, pos, negsuc, Any, nil, str, time, stringer, object, Row, to_fields}
use dalgo2http.Runtime.{Go}
use dalgo2http.Descriptor.{Collection}
use dalgo2http.Filter.{unsupported, is_absent}
use dalgo2http.Dal.{
  Operator, and, equal, Expression, field_ref, constant, Condition, Conditions, absent, group,
  comparison, none_left, both, StructuredQuery,
}

unfoldable pub stringify_param : Go → Any → Result String
stringify_param g (str s) = ok s
stringify_param g (time t) = ok (g.format_rfc3339 t)
stringify_param g (stringer (some s)) = ok s
stringify_param g (stringer none) = panic
stringify_param g nil = err (unsupported "%w: cannot use a nil value as a parameter")
stringify_param g v = ok (g.sprint v)

-- What a walk hands back: the residual flag, and the equalities collected so far, which the source
-- writes into the caller's map.
abbrev pub Collected : Type 0
Collected = Bool × Dict String

conflicts : Option String → String → Bool
conflicts none v = false
conflicts (some existing) v = not (existing == v)

-- one pushable equality
pub push_equality : String → String → Dict String → Result Collected
unfolding conflicts
push_equality name v eqs =
    if conflicts (lookup name eqs) v
    then err (unsupported "%w: collection %q: conflicting equality constraints on %q")
    else ok (false, insert name v eqs)

collect_comparison :
    Go → Collection → Expression → Operator → Expression → Dict String → Result Collected
unfolding push_equality stringify_param
collect_comparison g coll (field_ref name) equal (constant v) eqs =
    if has_key name coll.params
    then (do text ← stringify_param g v; push_equality name text eqs)
    else ok (true, eqs)
collect_comparison g coll left op right eqs = ok (true, eqs)

unfoldable mutual
  unfolding collect_comparison

  pub collect_equalities : Go → Collection → Condition → Dict String → Result Collected
  collect_equalities g coll absent eqs = ok (false, eqs)
  collect_equalities g coll (group and cs) eqs = collect_group g coll cs false eqs
  collect_equalities g coll (comparison left op right) eqs =
      collect_comparison g coll left op right eqs
  collect_equalities g coll _ eqs = ok (true, eqs)

  -- the loop over an AND group, with the flag so far
  pub collect_group : Go → Collection → Conditions → Bool → Dict String → Result Collected
  collect_group g coll none_left residual eqs = ok (residual, eqs)
  collect_group g coll (both c cs) residual eqs = do
    (r, eqs') ← collect_equalities g coll c eqs
    collect_group g coll cs (residual || r) eqs'

column_loop : List Expression → Result (List String)
column_loop [] = ok []
column_loop (field_ref name ∷ columns) = do names ← column_loop columns; ok (name ∷ names)
column_loop (_ ∷ columns) = err (
    unsupported
      "%w: collection %q: column %s is not a plain field reference and cannot be enforced by this adapter")

-- `none` is the nil slice: every field is wanted
unfoldable pub column_field_names : List Expression → Result (Option (List String))
unfolding column_loop
column_field_names [] = ok none
column_field_names columns = do names ← column_loop columns; ok (some names)

pub record QueryPlan : Type 0 where
  pub collection : Collection
  pub equalities : Dict String
  pub residual : Bool
  pub projection : Option (List String)

-- `n > 0` for a signed number
abbrev pub is_positive : ℤ → Bool
is_positive (pos zero) = false
is_positive (pos (suc n)) = true
is_positive (negsuc n) = false

-- `d.collection(name)`, over the index of collections
unfoldable pub find_collection : Dict Collection → String → Result Collection
find_collection collections name = elim (lookup name collections) [
  | none ↦ err (errorf "%w: %q" (sentinel unknown_collection))
  | some coll ↦ ok coll
]

-- the refusals that look at the query alone
unfoldable pub refuse_unsupported : StructuredQuery → Result (Unit {0})
unfolding is_absent
refuse_unsupported q = do
  fail_if (not (is_empty q.joins)) (unsupported "%w: collection %q: joins are not supported")
  fail_if (not (is_empty q.group_by) || not (is_absent q.having))
      (unsupported "%w: collection %q: GROUP BY / HAVING are not supported")
  fail_if (not (is_empty q.order_by)) (
      unsupported
        "%w: collection %q: ORDER BY is not supported (limit is applied after fetch; ordering is not)")
  fail_if (is_positive q.offset) (unsupported "%w: collection %q: Offset is not supported")
  fail_if (not (q.start_from == "") || not (q.start_after == ""))
      (unsupported "%w: collection %q: cursors are not supported")

unfoldable pub plan_query : Go → Dict Collection → StructuredQuery → Result QueryPlan
plan_query g collections q = do
  coll ← find_collection collections q.from
  refuse_unsupported q
  projection ← column_field_names q.columns
  (residual, equalities) ← collect_equalities g coll q.condition []
  fail_if (residual && not coll.client_side_filter) (
      unsupported
        "%w: collection %q: condition cannot be fully pushed into the URL, and this collection does not set ClientSideFilter")
  ok (record {
    collection = coll;
    equalities = equalities;
    residual = residual;
    projection = projection;
  })

-- `keep[f] = true` for each field
keep_fields : List String → Dict Bool → Dict Bool
keep_fields [] wanted = wanted
keep_fields (f ∷ fields) wanted = keep_fields fields (insert f true wanted)

unfoldable pub apply_projection : List Row → List String → String → List Row
unfolding keep_fields flag
apply_projection rows fields key_field =
    let wanted = insert key_field true (keep_fields fields []) in
    map (λ row. keep (λ (k, v). flag k wanted) row) rows

-- `record.Record`: its collection, the text of its ID, and its data
pub record Record : Type 0 where
  pub collection : String
  pub id : String
  pub value : Any

pub record_data : Go → Option ℕ → Row → Result Any
record_data g none row = ok (object (to_fields row))
record_data g (some factory) row =
    wrap_error "dalgo2http: collection %q: %w" (g.map_to_data factory row)

row_to_record : Go → Collection → Option ℕ → Row → Result Record
unfolding record_data
row_to_record g coll into_record row = elim (lookup coll.key_field row) [
  | none ↦ err (foreign "dalgo2http: collection %q: response row is missing key field %q")
  | some id ↦ do
    value ← record_data g into_record row
    ok (record { collection = coll.name; id = g.sprint id; value = value })
]

unfoldable pub rows_to_records : Go → Collection → List Row → Option ℕ → Result (List Record)
unfolding row_to_record
rows_to_records g coll [] into_record = ok []
rows_to_records g coll (row ∷ rows) into_record = do
  rec ← row_to_record g coll into_record row
  records ← rows_to_records g coll rows into_record
  ok (rec ∷ records)
