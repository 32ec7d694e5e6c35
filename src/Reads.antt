-- ===== src/Reads.antt =====
-- The read operations of database.go and query.go on top of `fetchRows`: Get, Exists, GetMulti and
-- the execution of a query.
pub mod Shapes
pub mod Queries
pub mod Tables
pub mod Answers
pub mod Keys
pub mod First
pub mod Gets
pub mod Multi
pub mod Total
pub mod Worlds
use dalgo2http.Prelude.{
  ℕ, zero, suc, String, Bool, true, false, not, List, [], ◌∷◌, Option, none, some, if◌then◌else◌,
  ◌==◌, lookup, has_key, take, length, ltb,
}
use dalgo2http.Context.{Context}
use dalgo2http.Errors.{
  Error, sentinel, errorf, error_is, not_supported, not_found, Result, ok, err, panic, ◌>>=◌,
}
use dalgo2http.Value.{ℤ, pos, negsuc, Any, Row}
use dalgo2http.Runtime.{Go}
use dalgo2http.Descriptor.{Collection}
use dalgo2http.Dal.{StructuredQuery, Query, structured, text_query}
use dalgo2http.Filter.{unsupported, filter_rows}
use dalgo2http.Query.{
  QueryPlan, plan_query, find_collection, apply_projection, Record, rows_to_records,
}
use dalgo2http.Provenance.{Provenance}
use dalgo2http.Request.{Env, World}
use dalgo2http.Database.{Database, Read, fetch_rows}

-- `records[:limit]`, where there is a limit and it is below the length
unfoldable pub limit_records : ℤ → List Record → List Record
limit_records (pos zero) records = records
limit_records (pos (suc n)) records =
    if ltb (suc n) (length records) then take (suc n) records else records
limit_records (negsuc n) records = records

-- `applyProjection`, if columns are asked for
unfoldable pub project : Option (List String) → String → List Row → List Row
project none key_field rows = rows
project (some fields) key_field rows = apply_projection rows fields key_field

-- What is done with the rows of a planned query.
unfoldable pub shape_rows : Go → StructuredQuery → QueryPlan → List Row → Result (List Record)
unfolding limit_records project
shape_rows g q plan rows = do
  kept ← if plan.residual then filter_rows g rows q.condition else ok rows
  let projected = project plan.projection plan.collection.key_field kept
  records ← rows_to_records g plan.collection projected q.into_record
  ok (limit_records q.limit records)

-- the text `fmt.Sprintf("%v", …)` of the row's key field is the ID
abbrev pub has_id : Go → String → String → Row → Bool
has_id g key_field id row = elim (lookup key_field row) [ none ↦ false | some v ↦ g.sprint v == id ]

-- the first row with the ID
unfoldable pub find_row : Go → String → String → List Row → Option Row
find_row g key_field id [] = none
find_row g key_field id (row ∷ rows) =
    if has_id g key_field id row then some row else find_row g key_field id rows

-- A record that a caller passes to Get: its key, the factory of its data, and what Get writes: the
-- error of `SetError`, and the data that `MapToData` made of a row, where it succeeded.
pub record Target : Type 0 where
  pub collection : String
  pub id : Any
  pub factory : ℕ
  pub error : Option Error
  pub value : Option Any

module _ (g : Go) (env : Env) (d : Database) (ctx : Context) where
  pub finish_query : StructuredQuery → QueryPlan → Read (List Row × Provenance) → Read (List Record)
  unfolding shape_rows
  finish_query q plan (ok (rows, prov), w) = (shape_rows g q plan rows, w)
  finish_query q plan (err e, w) = (err e, w)
  finish_query q plan (panic, w) = (panic, w)

  run_plan : StructuredQuery → Result QueryPlan → World → Read (List Record)
  unfolding finish_query
  run_plan q (ok plan) w =
      finish_query q plan (fetch_rows g env d ctx plan.collection plan.equalities w)
  run_plan q (err e) w = (err e, w)
  run_plan q panic w = (panic, w)

  unfoldable pub execute_query_to_records_reader : Query → World → Read (List Record)
  unfolding run_plan
  execute_query_to_records_reader (text_query text) w =
      (err (unsupported "%w: dalgo2http answers structured queries only"), w)
  execute_query_to_records_reader (structured q) w = run_plan q (plan_query g d.collections q) w

  -- not implemented, for any query
  unfoldable pub execute_query_to_recordset_reader : Query → World → Read (List Record)
  execute_query_to_recordset_reader q w = (err (sentinel not_supported), w)

  -- The rows that Get and Exists look through: those of the collection for its key field and the ID,
  -- if the key field is a declared parameter.
  fetch_for : String → Result Collection → String → World → Read (Collection × List Row)
  fetch_for message (ok coll) id w =
      if has_key coll.key_field coll.params
      then (let (r, w') = fetch_rows g env d ctx coll ((coll.key_field, id) ∷ []) w in
          (do (rows, prov) ← r; ok (coll, rows), w'))
      else (err (unsupported message), w)
  fetch_for message (err e) id w = (err e, w)
  fetch_for message panic id w = (panic, w)

  -- `rec.SetError(err)`, and the error is returned too
  fail_target : Target → Error → World → Read (Unit {0}) × Target
  fail_target rec e w = ((err e, w), record rec { error = some e })

  fill_target : Target → Row → World → Read (Unit {0}) × Target
  unfolding fail_target
  fill_target rec row w = elim (g.map_to_data rec.factory row) [
    | ok v ↦ ((ok tt, w), record rec { error = none; value = some v })
    | err e ↦ fail_target rec e w
    | panic ↦ ((panic, w), record rec { error = none })
  ]

  get_from : Target → Read (Collection × List Row) → Read (Unit {0}) × Target
  unfolding find_row fill_target
  get_from rec (ok (coll, rows), w) = elim (find_row g coll.key_field (g.sprint rec.id) rows) [
    | none ↦ fail_target rec (sentinel not_found) w
    | some row ↦ fill_target rec row w
  ]
  get_from rec (err e, w) = fail_target rec e w
  get_from rec (panic, w) = ((panic, w), rec)

  unfoldable pub get : Target → World → Read (Unit {0}) × Target
  unfolding get_from fetch_for
  get rec w = get_from rec (
      fetch_for "%w: collection %q: Get requires key field %q to be a declared parameter"
        (find_collection d.collections rec.collection) (g.sprint rec.id) w)

  exists_from : String → Read (Collection × List Row) → Read Bool
  unfolding find_row
  exists_from id (ok (coll, rows), w) =
      (ok (elim (find_row g coll.key_field id rows) [ none ↦ false | some row ↦ true ]), w)
  exists_from id (err e, w) = (err e, w)
  exists_from id (panic, w) = (panic, w)

  unfoldable pub exists : String → Any → World → Read Bool
  unfolding exists_from fetch_for
  exists collection id w = exists_from (g.sprint id) (
      fetch_for "%w: collection %q: Exists requires key field %q to be a declared parameter"
        (find_collection d.collections collection) (g.sprint id) w)

  -- does the loop of GetMulti go on behind this?
  goes_on : Result (Unit {0}) → Bool
  goes_on (ok _) = true
  goes_on (err e) = error_is e not_found
  goes_on panic = false

  -- the records as Get left them, those behind an error that ends the loop untouched
  unfoldable pub get_multi : List Target → World → Read (Unit {0}) × List Target
  unfolding goes_on
  get_multi [] w = ((ok tt, w), [])
  get_multi (rec ∷ recs) w =
      let ((r, w'), rec') = get rec w in
      let (last, recs') = get_multi recs w' in
      if goes_on r then (last, rec' ∷ recs') else ((r, w'), rec' ∷ recs)
