-- ===== src/Reads/Answers.antt =====
-- When a query of query.go returns records.
use dalgo2http.Prelude.{
  String, ◌≡◌, refl, sym, ◌∙◌, subst, Bool, true, false, ◌||◌, List, [], ◌∷◌, map, Option, none,
  some, is_some, arith, All, All-keep, keep, if◌then◌else◌, ◌==◌, eq_refl, lookup, among,
}
use dalgo2http.Context.{Context}
use dalgo2http.Errors.{ok}
use dalgo2http.Value.{Any, Row}
use dalgo2http.Runtime.{Go}
use dalgo2http.Dal.{StructuredQuery, structured}
use dalgo2http.Filter.{filter_rows, eval_condition}
use dalgo2http.Filter.Rows.{IsOk, filter_rows-decided}
use dalgo2http.Query.{QueryPlan, plan_query, apply_projection, Record}
use dalgo2http.Query.Shape.{apply_projection-lookup, rows_to_records-keyed}
use dalgo2http.Query.Pushdown.{leaves}
use dalgo2http.Query.Selection.{selects}
use dalgo2http.Query.Matching.{matches, AgreesOn}
use dalgo2http.Request.{Env, World}
use dalgo2http.Database.{Database, fetch_rows}
use dalgo2http.Database.Online.{is_online}
use dalgo2http.Database.Served.{ServedWith, fetch_rows-serves}
use dalgo2http.Reads.{limit_records, project, shape_rows, run_plan, execute_query_to_records_reader}
use dalgo2http.Reads.Tables.{IsSelected, filtered-selects, shape_rows-selects, finish_query-ok}

-- the row has the field
abbrev pub HasField : String → Row → Type 0
HasField name row = is_some (lookup name row) ≡ true

map-All :
    (f h : Row → Option Any) (xs ys : List Row)
    → map f xs ≡ map h ys
    → All (λ y. is_some (h y) ≡ true) ys
    → All (λ x. is_some (f x) ≡ true) xs
map-All f h [] ys e all = tt
map-All f h (x ∷ xs) [] e all = cc
map-All f h (x ∷ xs) (y ∷ ys) e (here, all) =
    (subst (λ o. is_some o ≡ true) (sym (ground arith)) here, map-All f h xs ys (ground arith) all)

wanted-HasField :
    (fields : List String) (key_field : String) (rows : List Row)
    → All (HasField key_field) rows
    → All
        (λ row.
          is_some (
            if key_field == key_field || among key_field fields then lookup key_field row else none)
          ≡ true)
        rows
wanted-HasField fields key_field [] h = tt
wanted-HasField fields key_field (row ∷ rows) (here, h) =
    (rw (eq_refl key_field) here, wanted-HasField fields key_field rows h)

-- projection keeps the key field
project-HasField :
    (projection : Option (List String)) (key_field : String) (rows : List Row)
    → All (HasField key_field) rows
    → All (HasField key_field) (project projection key_field rows)
unfolding project
project-HasField none key_field rows h = h
project-HasField (some fields) key_field rows h =
    map-All (lookup key_field) _ (apply_projection rows fields key_field) rows
      (apply_projection-lookup rows fields key_field key_field)
      (wanted-HasField fields key_field rows h)

module _ (g : Go) (d : Database) (q : StructuredQuery) (plan : QueryPlan)
    (agrees : String → String → Row → Bool) (table : List Row)
    (planned : plan_query g d.collections q ≡ ok plan)
    (laws : All (λ row. All (AgreesOn g plan.collection agrees row) (leaves q.condition)) table)
    (keyed : All (HasField plan.collection.key_field) table)
    (decided : plan.residual ≡ true
      → All (λ row. IsOk (eval_condition g row q.condition)) table) where
  abbrev sent : List Row
  sent = keep (matches agrees plan.equalities) table

  filter-answers :
      (residual : Bool)
      → plan.residual ≡ residual
      → (kept : List Row) × ((if residual then filter_rows g sent q.condition else ok sent)
          ≡ ok kept)
  filter-answers false e = (sent, refl)
  filter-answers true e =
      filter_rows-decided g q.condition sent
        (All-keep _ (matches agrees plan.equalities) table (decided e))

  shape_rows-answers :
      q.into_record ≡ none → (records : List Record) × (shape_rows g q plan sent ≡ ok records)
  unfolding shape_rows
  shape_rows-answers plain =
      let (kept, filtered) = filter-answers plan.residual refl in
      let selected =
        filtered-selects g d q plan agrees table planned laws plan.residual kept refl filtered in
      let (all, made) =
        rows_to_records-keyed g plan.collection
          (project plan.projection plan.collection.key_field kept)
          (project-HasField plan.projection plan.collection.key_field kept (
            subst (All (HasField plan.collection.key_field)) (sym selected)
              (All-keep _ (selects g q.condition) table keyed))) in
      (limit_records q.limit all, rw (filtered, plain, made) refl)

-- In every mode that asks the network: where the query is planned and brings no record factory, the
-- endpoint serves for the plan's equalities the rows of a table that match them, a row matches the
-- text of a constant exactly when the query's equality with the constant is true on it, every row
-- of the table has the key field, and the condition is evaluated on every row without an error if
-- the plan leaves it to the filter, the query returns records, and they are those of the rows of the
-- whole table on which every condition that its Where joins is true, each restricted to the wanted
-- columns, in order and up to the limit.
pub execute_query_to_records_reader-answers :
    (g : Go) (env : Env) (d : Database) (ctx : Context) (q : StructuredQuery) (w : World)
    (plan : QueryPlan) (agrees : String → String → Row → Bool) (table : List Row)
    → is_online d.mode ≡ true
    → plan_query g d.collections q ≡ ok plan
    → q.into_record ≡ none
    → ServedWith g env d ctx plan.collection plan.equalities w
        (keep (matches agrees plan.equalities) table)
    → All (λ row. All (AgreesOn g plan.collection agrees row) (leaves q.condition)) table
    → All (HasField plan.collection.key_field) table
    → (plan.residual ≡ true → All (λ row. IsOk (eval_condition g row q.condition)) table)
    → (records : List Record) × ((execute_query_to_records_reader g env d ctx (structured q) w).0
        ≡ ok records)
      × IsSelected g q plan table records
unfolding execute_query_to_records_reader run_plan
execute_query_to_records_reader-answers g env d ctx q w plan agrees table online planned plain
      served laws keyed decided =
    let (records, shaped) =
      shape_rows-answers g d q plan agrees table planned laws keyed decided plain in
    (
      records,
      rw (planned, run_plan)
          (finish_query-ok g env d ctx q w plan _ _
              (fetch_rows g env d ctx plan.collection plan.equalities w)
              (fetch_rows-serves g env d ctx plan.collection plan.equalities w _ served online).1
            ∙ shaped),
      shape_rows-selects g d q plan agrees table planned laws records shaped,
    )
