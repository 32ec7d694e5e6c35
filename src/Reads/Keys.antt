-- ===== src/Reads/Keys.antt =====
-- Exists beside the query by key, of database.go and query.go.
use dalgo2http.Prelude.{
  String, ◌≡◌, refl, ◌∙◌, ap, Bool, true, false, List, [], ◌∷◌, none, some, any, ◌==◌, Bool-cases,
  inl, inr, lookup, insert, has_key,
}
use dalgo2http.Context.{Context}
use dalgo2http.Errors.{ok, err, panic, ◌>>=◌, >>=-eq-ok, ok_inj}
use dalgo2http.Value.{pos, str, Row}
use dalgo2http.Runtime.{Go}
use dalgo2http.Descriptor.{Collection}
use dalgo2http.Dal.{StructuredQuery, structured, absent, comparison, field_ref, equal, constant}
use dalgo2http.Filter.{is_absent}
use dalgo2http.Query.{
  QueryPlan, plan_query, find_collection, refuse_unsupported, column_field_names,
  collect_equalities, stringify_param, Record, rows_to_records,
}
use dalgo2http.Query.Shape.{IsRecordOf, Zipped, rows_to_records-Zipped}
use dalgo2http.Provenance.{Provenance}
use dalgo2http.Request.{Env, World}
use dalgo2http.Database.{Database, Read, fetch_rows}
use dalgo2http.Reads.{
  find_row, limit_records, project, shape_rows, finish_query, run_plan,
  execute_query_to_records_reader, fetch_for, exists_from, exists,
}

-- every record of a collection whose key field is equal to a text, with no limit
abbrev pub by_key : String → String → String → StructuredQuery
by_key name key_field id = record {
  from = name;
  joins = [];
  group_by = [];
  having = absent;
  order_by = [];
  offset = pos 0;
  start_from = "";
  start_after = "";
  columns = [];
  condition = comparison (field_ref key_field) equal (constant (str id));
  limit = pos 0;
  into_record = none;
}

abbrev pub has_record : String → List Record → Bool
has_record id records = any (λ (r : Record). r.id == id) records

-- a row is found exactly if its record is there
find_row-has_record :
    (g : Go) (coll : Collection) (id : String) (records : List Record) (rows : List Row)
    → Zipped (IsRecordOf g coll none) records rows
    → (elim (find_row g coll.key_field id rows) [ none ↦ false | some row ↦ true ])
      ≡ has_record id records
unfolding find_row
find_row-has_record g coll id [] [] z = refl
find_row-has_record g coll id [] (row ∷ rows) z = elim z [ ]
find_row-has_record g coll id (rec ∷ records) [] z = elim z [ ]
find_row-has_record g coll id (rec ∷ records) (row ∷ rows) ((v, found, same, _, _), z) =
    elim (Bool-cases (g.sprint v == id)) [
      | inl here ↦ rw (found, here, same, here) refl
      | inr other ↦ rw (found, other, same, other) (find_row-has_record g coll id records rows z)
    ]

module _ (g : Go) (env : Env) (d : Database) (ctx : Context) (name id : String) (coll : Collection)
    (found : find_collection d.collections name ≡ ok coll)
    (declared : has_key coll.key_field coll.params ≡ true) where
  abbrev plan : QueryPlan
  plan = record {
    collection = coll;
    equalities = (coll.key_field, id) ∷ [];
    residual = false;
    projection = none;
  }

  plan_query-by_key : plan_query g d.collections (by_key name coll.key_field id) ≡ ok plan
  unfolding plan_query refuse_unsupported is_absent column_field_names collect_equalities
      stringify_param insert lookup
  plan_query-by_key = rw (found, declared) refl

  answered-exists :
      (f : Read (List Row × Provenance)) (records : List Record) (w' : World)
      → finish_query g env d ctx (by_key name coll.key_field id) plan f ≡ (ok records, w')
      → exists_from g env d ctx id (do (rows, prov) ← f.0; ok (coll, rows), f.1)
        ≡ (ok (has_record id records), w')
  unfolding finish_query shape_rows exists_from limit_records project
  answered-exists (ok (rows, p), w₁) records w' e =
      let (all, made, shape) =
        >>=-eq-ok (rows_to_records g coll rows none) _ (ap (λ (x : Read (List Record)). x.0) e) in
      λ i. (
        ok (
            (find_row-has_record g coll id all rows
                  (rows_to_records-Zipped g coll none rows all made)
                ∙ ap (has_record id) (ok_inj all records shape))
              i),
        (ap (λ (x : Read (List Record)). x.1) e) i,
      )
  answered-exists (err x, w₁) records w' e = absurd (cc (ap (λ (x : Read (List Record)). x.0) e))
  answered-exists (panic, w₁) records w' e = absurd (cc (ap (λ (x : Read (List Record)). x.0) e))

  -- For a collection whose key field is a declared parameter: where the query for all records whose
  -- key field equals a text returns records, Exists of the key with that text answers whether one of
  -- them has this ID, and leaves the same world behind, so it made the same request and the observer
  -- was told the same. A text is its own `%v`.
  pub exists-query :
      (records : List Record) (w w' : World)
      → g.sprint (str id) ≡ id
      → execute_query_to_records_reader g env d ctx (structured (by_key name coll.key_field id)) w
        ≡ (ok records, w')
      → exists g env d ctx name (str id) w ≡ (ok (has_record id records), w')
  unfolding execute_query_to_records_reader run_plan exists fetch_for
  exists-query records w w' plain e =
      rw (found, fetch_for, declared, plain)
        (answered-exists (fetch_rows g env d ctx coll ((coll.key_field, id) ∷ []) w) records w'
          (rw (plan_query-by_key, run_plan) at e))
