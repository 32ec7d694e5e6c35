-- ===== src/Reads/Queries.antt =====
-- What the execution of a structured query asks of the network, and what it answers.
use dalgo2http.Prelude.{
  ℕ, suc, ◌≤◌, ◌≡◌, refl, sym, subst, ◌⊎◌, inl, inr, Bool, true, false, List, [], ◌∷◌, ◌++◌,
  if◌then◌else◌, length, keep, arith,
}
use dalgo2http.Context.{Context}
use dalgo2http.Errors.{Result, ok, err, panic, >>=-eq-ok, ok_inj}
use dalgo2http.Value.{pos, Row}
use dalgo2http.Runtime.{Go}
use dalgo2http.Dal.{StructuredQuery, structured}
use dalgo2http.Filter.{is_absent, filter_rows, eval_condition}
use dalgo2http.Filter.Rows.{passes, filter_rows-keep}
use dalgo2http.Query.{QueryPlan, plan_query, Record, rows_to_records}
use dalgo2http.Query.Collected.{plan_query-is_absent}
use dalgo2http.Query.Shape.{IsRecordOf, Zipped, rows_to_records-Zipped}
use dalgo2http.Provenance.{Provenance}
use dalgo2http.Request.{Env, World, HttpRequest}
use dalgo2http.Database.{Database, Read, fetch_rows}
use dalgo2http.Database.Sources.{IsRequest, fetch_rows-IsRequest}
use dalgo2http.Reads.Shapes.{IsProjected, IsLimited, project-IsProjected, limit_records-IsLimited}
use dalgo2http.Reads.{project, shape_rows, finish_query, run_plan, execute_query_to_records_reader}

-- The rows that a plan leaves: those on which the condition is true, if something of it was not
-- pushed into the URL, and all of them otherwise.
abbrev pub kept_rows : Go → StructuredQuery → Bool → List Row → List Row
kept_rows g q true rows = keep (λ row. passes (eval_condition g row q.condition)) rows
kept_rows g q false rows = rows

filtered-kept_rows :
    (g : Go) (q : StructuredQuery) (residual : Bool) (rows kept : List Row)
    → (residual ≡ true → is_absent q.condition ≡ false)
    → (if residual then filter_rows g rows q.condition else ok rows) ≡ ok kept
    → kept ≡ kept_rows g q residual rows
filtered-kept_rows g q true rows kept h e = (filter_rows-keep g q.condition rows kept (h refl) e).1
filtered-kept_rows g q false rows kept h e = sym (ok_inj rows kept e)

-- The records that a query returns: those of the rows that the plan leaves, each restricted to the
-- columns, up to the limit.
pub record IsAnswerOf (g : Go) (env : Env) (d : Database) (ctx : Context) (q : StructuredQuery)
    (w : World) (records : List Record) : Type 0 where
  pub plan : QueryPlan
  pub rows : List Row
  pub origin : Provenance
  pub projected : List Row
  pub all : List Record
  pub planned : plan_query g d.collections q ≡ ok plan
  pub fetched : (fetch_rows g env d ctx plan.collection plan.equalities w).0 ≡ ok (rows, origin)
  pub restricted :
      IsProjected plan.projection plan.collection.key_field
        (kept_rows g q plan.residual rows)
        projected
  pub each : Zipped (IsRecordOf g plan.collection q.into_record) all projected
  pub limited : IsLimited q.limit all records

module _ (g : Go) (env : Env) (d : Database) (ctx : Context) (q : StructuredQuery) (w : World) where
  shape_rows-IsAnswerOf :
      (plan : QueryPlan) (rows : List Row) (origin : Provenance) (records : List Record)
      → plan_query g d.collections q ≡ ok plan
      → (fetch_rows g env d ctx plan.collection plan.equalities w).0 ≡ ok (rows, origin)
      → shape_rows g q plan rows ≡ ok records
      → IsAnswerOf g env d ctx q w records
  unfolding shape_rows
  shape_rows-IsAnswerOf plan rows origin records planned fetched e =
      let (kept, filtered, e₁) =
        >>=-eq-ok (if plan.residual then filter_rows g rows q.condition else ok rows) _ e in
      let (all, made, shape) =
        >>=-eq-ok
          (rows_to_records g plan.collection
            (project plan.projection plan.collection.key_field kept) q.into_record)
          _ e₁ in
      record {
        plan = plan;
        rows = rows;
        origin = origin;
        projected = project plan.projection plan.collection.key_field kept;
        all = all;
        planned = planned;
        fetched = fetched;
        restricted =
            subst
              (λ rs.
                IsProjected plan.projection plan.collection.key_field rs
                  (project plan.projection plan.collection.key_field kept))
              (filtered-kept_rows g q plan.residual rows kept
                (plan_query-is_absent g d.collections q plan planned) filtered)
              (project-IsProjected plan.projection plan.collection.key_field kept);
        each = rows_to_records-Zipped g plan.collection q.into_record _ all made;
        limited =
            subst (IsLimited q.limit all) (ok_inj _ records shape)
              (limit_records-IsLimited q.limit all);
      }

  finish_query-IsAnswerOf :
      (plan : QueryPlan) (records : List Record) (f : Read (List Row × Provenance))
      → plan_query g d.collections q ≡ ok plan
      → (fetch_rows g env d ctx plan.collection plan.equalities w).0 ≡ f.0
      → (finish_query g env d ctx q plan f).0 ≡ ok records
      → IsAnswerOf g env d ctx q w records
  unfolding finish_query
  finish_query-IsAnswerOf plan records (ok (rows, origin), w') planned fetched e =
      shape_rows-IsAnswerOf plan rows origin records planned fetched e
  finish_query-IsAnswerOf plan records (err x, w') planned fetched e = cc
  finish_query-IsAnswerOf plan records (panic, w') planned fetched e = cc

  run_plan-IsAnswerOf :
      (r : Result QueryPlan) (records : List Record)
      → plan_query g d.collections q ≡ r
      → (run_plan g env d ctx q r w).0 ≡ ok records
      → IsAnswerOf g env d ctx q w records
  unfolding run_plan
  run_plan-IsAnswerOf (ok plan) records planned e =
      finish_query-IsAnswerOf plan records
        (fetch_rows g env d ctx plan.collection plan.equalities w) planned refl e
  run_plan-IsAnswerOf (err x) records planned e = cc
  run_plan-IsAnswerOf panic records planned e = cc

  -- A structured query that returns records was planned, and its rows were fetched for the equalities
  -- that the plan pushed. The records are those of the rows on which the whole condition is true if
  -- something of it was not pushed, and of all rows otherwise, each restricted to the wanted columns,
  -- in order and up to the limit.
  pub execute_query_to_records_reader-IsAnswerOf :
      (records : List Record)
      → (execute_query_to_records_reader g env d ctx (structured q) w).0 ≡ ok records
      → IsAnswerOf g env d ctx q w records
  unfolding execute_query_to_records_reader
  execute_query_to_records_reader-IsAnswerOf records e =
      run_plan-IsAnswerOf (plan_query g d.collections q) records refl e

  -- A structured query with a positive limit returns no more records than that.
  pub execute_query_to_records_reader-limit :
      (n : ℕ) (records : List Record)
      → q.limit ≡ pos (suc n)
      → (execute_query_to_records_reader g env d ctx (structured q) w).0 ≡ ok records
      → length records ≤ suc n
  execute_query_to_records_reader-limit n records limit e =
      let answer = execute_query_to_records_reader-IsAnswerOf records e in
      let (rest, split, size) : IsLimited (pos (suc n)) answer.all records =
        subst (λ l. IsLimited l answer.all records) limit answer.limited in
      elim size [ inl full ↦ omega (arith, full) | inr (_, short) ↦ short ]

  -- The requests behind a query: those before, or one more, which the plan's collection makes of the
  -- URL for the plan's equalities.
  abbrev pub Requested : World → Type 0
  Requested w' =
      (w'.requests ≡ w.requests)
      ⊎ ((plan : QueryPlan) × (req : HttpRequest) × (plan_query g d.collections q ≡ ok plan)
          × (w'.requests ≡ w.requests ++ req ∷ [])
          × IsRequest g env d ctx plan.collection plan.equalities req)

  finish_query-world :
      (plan : QueryPlan) (f : Read (List Row × Provenance))
      → (finish_query g env d ctx q plan f).1 ≡ f.1
  unfolding finish_query
  finish_query-world plan (ok (rows, origin), w') = refl
  finish_query-world plan (err x, w') = refl
  finish_query-world plan (panic, w') = refl

  run_plan-Requested :
      (r : Result QueryPlan)
      → plan_query g d.collections q ≡ r
      → Requested (run_plan g env d ctx q r w).1
  unfolding run_plan
  run_plan-Requested (ok plan) planned =
      subst Requested
        (sym (finish_query-world plan (fetch_rows g env d ctx plan.collection plan.equalities w)))
        (elim (fetch_rows-IsRequest g env d ctx plan.collection plan.equalities w) [
          | inl same ↦ inl same
          | inr (req, one, h) ↦ inr (plan, req, planned, one, h)
        ])
  run_plan-Requested (err x) planned = inl refl
  run_plan-Requested panic planned = inl refl

  -- A structured query issues no request, or one; and one only if it was planned, the request that
  -- the plan's collection makes of the URL for the equalities that the plan pushed.
  pub execute_query_to_records_reader-Requested :
      Requested (execute_query_to_records_reader g env d ctx (structured q) w).1
  unfolding execute_query_to_records_reader
  execute_query_to_records_reader-Requested = run_plan-Requested (plan_query g d.collections q) refl
