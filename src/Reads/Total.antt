-- ===== src/Reads/Total.antt =====
-- Panics of the operations of the database.
use dalgo2http.Prelude.{
  ℕ, arith, String, ◌≡◌, refl, Bool, true, false, List, [], ◌∷◌, All, inl, inr, Option-cases,
  Bool-cases, has_key, if◌then◌else◌,
}
use dalgo2http.Context.{Context}
use dalgo2http.Errors.{Result, ok, err, panic, ◌>>=◌, Raises-bind, Returns, Raises-Returns}
use dalgo2http.Value.{Any, Row}
use dalgo2http.Runtime.{Go}
use dalgo2http.Descriptor.{Collection}
use dalgo2http.Dal.{StructuredQuery, Query, structured, text_query}
use dalgo2http.Filter.{filter_rows}
use dalgo2http.Filter.Rows.{filter_rows-Returns}
use dalgo2http.Query.{QueryPlan, plan_query, find_collection, rows_to_records}
use dalgo2http.Query.Shape.{rows_to_records-Returns}
use dalgo2http.Query.Pushdown.{leaves}
use dalgo2http.Query.Plan.{IsShown, IsRefusal, plan_query-IsRefusal}
use dalgo2http.Provenance.{Provenance}
use dalgo2http.Request.{Env, World}
use dalgo2http.Database.{Database, Read}
use dalgo2http.Database.Total as Database
use dalgo2http.Reads.{
  Target, project, shape_rows, find_row, finish_query, run_plan, execute_query_to_records_reader,
  fetch_for, fail_target, fill_target, get_from, get, exists_from, exists, goes_on, get_multi,
}

-- What the operations rely on, beside what a read does: filling a caller's data returns.
pub record IsSound (g : Go) (env : Env) (d : Database) : Type 0 where
  pub reads : Database.IsSound g env d
  pub map_returns : (factory : ℕ) (row : Row) → Returns (g.map_to_data factory row)

-- what the query compares a field with has its text
abbrev pub IsShownQuery : Query → Type 0
IsShownQuery (structured q) = All IsShown (leaves q.condition)
IsShownQuery (text_query text) = Unit

module _ (g : Go) (env : Env) (d : Database) (ctx : Context) (h : IsSound g env d) where
  shape_rows-Returns :
      (q : StructuredQuery) (plan : QueryPlan) (rows : List Row)
      → Returns (shape_rows g q plan rows)
  unfolding shape_rows
  shape_rows-Returns q plan rows =
      Raises-bind _ (if plan.residual then filter_rows g rows q.condition else ok rows) _
        (by_residual plan.residual)
        λ kept.
          Raises-bind _
            (rows_to_records g plan.collection
              (project plan.projection plan.collection.key_field kept) q.into_record)
            _ (rows_to_records-Returns g plan.collection _ q.into_record h.map_returns)
            (λ records. tt)
    where
      by_residual :
          (b : Bool)
          → Returns {A = List Row} (if b then filter_rows g rows q.condition else ok rows)
      by_residual true = filter_rows-Returns g rows q.condition
      by_residual false = tt

  finish_query-Returns :
      (q : StructuredQuery) (plan : QueryPlan) (f : Read (List Row × Provenance))
      → Returns f.0
      → Returns (finish_query g env d ctx q plan f).0
  unfolding finish_query
  finish_query-Returns q plan (ok (rows, prov), w) k = shape_rows-Returns q plan rows
  finish_query-Returns q plan (err e, w) k = tt
  finish_query-Returns q plan (panic, w) k = k

  run_plan-Returns :
      (q : StructuredQuery) (r : Result QueryPlan) (w : World)
      → Returns r
      → Returns (run_plan g env d ctx q r w).0
  unfolding run_plan
  run_plan-Returns q (ok plan) w k =
      finish_query-Returns q plan _
        (Database.fetch_rows-Returns g env d ctx plan.collection h.reads plan.equalities w)
  run_plan-Returns q (err e) w k = tt
  run_plan-Returns q panic w k = k

  pub query-Returns :
      (q : Query) (w : World)
      → IsShownQuery q
      → Returns (execute_query_to_records_reader g env d ctx q w).0
  unfolding execute_query_to_records_reader
  query-Returns (text_query text) w shown = tt
  query-Returns (structured q) w shown =
      run_plan-Returns q (plan_query g d.collections q) w
        (Raises-Returns IsRefusal _ (plan_query-IsRefusal g d.collections q shown))

  found-Returns :
      (coll : Collection) (r : Result (List Row × Provenance))
      → Returns r
      → Returns {A = Collection × List Row} (r >>= λ x. ok (coll, x.0))
  found-Returns coll r k = Raises-bind _ r _ k (λ x. tt)

  fetch_for-Returns :
      (message : String) (r : Result Collection) (id : String) (w : World)
      → Returns r
      → Returns (fetch_for g env d ctx message r id w).0
  unfolding fetch_for
  fetch_for-Returns message (ok coll) id w k =
      elim (Bool-cases (has_key coll.key_field coll.params)) [
        | inl declared ↦ rw declared (
            found-Returns coll _
              (Database.fetch_rows-Returns g env d ctx coll h.reads ((coll.key_field, id) ∷ []) w))
        | inr undeclared ↦ rw undeclared tt
      ]
  fetch_for-Returns message (err e) id w k = tt
  fetch_for-Returns message panic id w k = k

  found_collection-Returns : (name : String) → Returns (find_collection d.collections name)
  unfolding find_collection
  found_collection-Returns name = ground arith

  exists_from-Returns :
      (id : String) (f : Read (Collection × List Row))
      → Returns f.0
      → Returns (exists_from g env d ctx id f).0
  unfolding exists_from
  exists_from-Returns id (ok (coll, rows), w) k = tt
  exists_from-Returns id (err e, w) k = tt
  exists_from-Returns id (panic, w) k = k

  fill_target-Returns :
      (rec : Target) (row : Row) (w : World) → Returns (fill_target g env d ctx rec row w).0.0
  unfolding fill_target fail_target
  fill_target-Returns rec row w = by_data (g.map_to_data rec.factory row) refl
    where
      by_data :
          (r : Result Any)
          → g.map_to_data rec.factory row ≡ r
          → Returns (fill_target g env d ctx rec row w).0.0
      by_data (ok v) e = rw (e, fill_target) tt
      by_data (err x) e = rw (e, fill_target) tt
      by_data panic e = absurd (rw e at (h.map_returns rec.factory row))

  get_from-Returns :
      (rec : Target) (f : Read (Collection × List Row))
      → Returns f.0
      → Returns (get_from g env d ctx rec f).0.0
  unfolding get_from fail_target
  get_from-Returns rec (ok (coll, rows), w) k =
      elim (Option-cases (find_row g coll.key_field (g.sprint rec.id) rows)) [
        | inl missing ↦ rw (missing, get_from) tt
        | inr (row, here) ↦ rw (here, get_from) (fill_target-Returns rec row w)
      ]
  get_from-Returns rec (err e, w) k = tt
  get_from-Returns rec (panic, w) k = k

  pub get-Returns : (rec : Target) (w : World) → Returns (get g env d ctx rec w).0.0
  unfolding get
  get-Returns rec w = get_from-Returns rec _ (
      fetch_for-Returns _ (find_collection d.collections rec.collection) (g.sprint rec.id) w
        (found_collection-Returns rec.collection))

  pub exists-Returns :
      (collection : String) (id : Any) (w : World) → Returns (exists g env d ctx collection id w).0
  unfolding exists
  exists-Returns collection id w = exists_from-Returns _ _ (
      fetch_for-Returns _ (find_collection d.collections collection) (g.sprint id) w
        (found_collection-Returns collection))

  -- the loop's result, without the records
  abbrev Ends : Read (Unit {0}) × List Target → Type 0
  Ends out = Returns out.0.0

  get_multi-step :
      (recs : List Target) (f : Read (Unit {0}) × Target) (rest : Read (Unit {0}) × List Target)
      (b : Bool)
      → Returns f.0.0
      → Returns rest.0.0
      → Ends (if b then (rest.0, f.1 ∷ rest.1) else (f.0, f.1 ∷ recs))
  get_multi-step recs f rest true k l = l
  get_multi-step recs f rest false k l = k

  pub get_multi-Returns :
      (recs : List Target) (w : World) → Returns (get_multi g env d ctx recs w).0.0
  unfolding get_multi
  get_multi-Returns [] w = tt
  get_multi-Returns (rec ∷ recs) w =
      let f = get g env d ctx rec w in
      get_multi-step recs f (get_multi g env d ctx recs f.0.1) (goes_on g env d ctx f.0.0)
        (get-Returns rec w) (get_multi-Returns recs f.0.1)
