-- ===== src/Reads/Tables.antt =====
-- A query of query.go at an endpoint that serves a table of rows, and selects from it by equality.
use dalgo2http.Prelude.{
  [], Bool, true, false, ◌≡◌, refl, sym, ◌∙◌, ap, subst, List, All, All-mono, keep, keep-keep,
  keep-agree, String, inl, inr, if◌then◌else◌, Bool-eq,
}
use dalgo2http.Context.{Context}
use dalgo2http.Errors.{ok, err, panic, >>=-eq-ok, ok_inj}
use dalgo2http.Value.{Row}
use dalgo2http.Runtime.{Go}
use dalgo2http.Dal.{StructuredQuery, structured}
use dalgo2http.Filter.{filter_rows, eval_condition}
use dalgo2http.Filter.Rows.{passes, IsOk, filter_rows-keep}
use dalgo2http.Query.{QueryPlan, plan_query, Record, rows_to_records}
use dalgo2http.Query.Collected.{plan_query-collected, plan_query-is_absent}
use dalgo2http.Query.Shape.{IsRecordOf, Zipped, rows_to_records-Zipped}
use dalgo2http.Query.Pushdown.{leaves, IsPushed}
use dalgo2http.Query.Walks.{collect_equalities-IsPushed}
use dalgo2http.Query.Selection.{selects, selects-eval_condition}
use dalgo2http.Query.Matching.{matches, AgreesOn, selects-matches, matches-selects}
use dalgo2http.Provenance.{Provenance}
use dalgo2http.Request.{Env, World}
use dalgo2http.Database.{Database, Read, fetch_rows}
use dalgo2http.Database.Online.{is_online}
use dalgo2http.Database.Served.{ServedWith, fetch_rows-serves}
use dalgo2http.Reads.Shapes.{IsProjected, IsLimited, project-IsProjected, limit_records-IsLimited}
use dalgo2http.Reads.{project, shape_rows, finish_query, run_plan, execute_query_to_records_reader}

decided :
    (g : Go) (q : StructuredQuery) (row : Row)
    → IsOk (eval_condition g row q.condition)
    → passes (eval_condition g row q.condition) ≡ selects g q.condition row
decided g q row (inl e) = rw e (sym (selects-eval_condition g row q.condition true e))
decided g q row (inr e) = rw e (sym (selects-eval_condition g row q.condition false e))

-- The records are those of the rows that the condition selects from a table: each restricted to the
-- wanted columns, in order and up to the limit.
abbrev pub IsSelected : Go → StructuredQuery → QueryPlan → List Row → List Record → Type 0
IsSelected g q plan table records =
    (projected : List Row) × (all : List Record) × IsProjected plan.projection
      plan.collection.key_field (keep (selects g q.condition) table) projected
    × Zipped (IsRecordOf g plan.collection q.into_record) all projected
    × IsLimited q.limit all records

module _ (g : Go) (d : Database) (q : StructuredQuery) (plan : QueryPlan)
    (agrees : String → String → Row → Bool) (table : List Row)
    (planned : plan_query g d.collections q ≡ ok plan)
    (laws : All
      (λ row. All (AgreesOn g plan.collection agrees row) (leaves q.condition))
      table) where
  -- what the endpoint sends for the plan
  abbrev pub sent : List Row
  sent = keep (matches agrees plan.equalities) table

  -- what is left of these rows is what the condition selects from the table
  pub filtered-selects :
      (residual : Bool) (kept : List Row)
      → plan.residual ≡ residual
      → (if residual then filter_rows g sent q.condition else ok sent) ≡ ok kept
      → kept ≡ keep (selects g q.condition) table
  filtered-selects true kept left e =
      let (each, shape) =
        filter_rows-keep g q.condition sent kept
          (plan_query-is_absent g d.collections q plan planned left) e in
      shape
      ∙ keep-agree _ (selects g q.condition) sent (All-mono _ _ sent (λ row. decided g q row) each)
      ∙ keep-keep (selects g q.condition) (matches agrees plan.equalities) table (
          All-mono _ _ table
            (λ row law.
              selects-matches g plan.collection agrees row q.condition plan.equalities plan.residual
                law (plan_query-collected g d.collections q plan planned))
            laws)
  filtered-selects false kept left e =
      sym (ok_inj sent kept e)
      ∙ keep-agree (matches agrees plan.equalities) (selects g q.condition) table (
          All-mono _ _ table
            (λ row law.
              Bool-eq _ _
                (matches-selects g plan.collection agrees row q.condition plan.equalities law
                  pushed)
                (selects-matches g plan.collection agrees row q.condition plan.equalities
                  plan.residual law (plan_query-collected g d.collections q plan planned)))
            laws)
    where
      pushed : All (IsPushed g plan.collection plan.equalities) (leaves q.condition)
      pushed =
          elim (collect_equalities-IsPushed g plan.collection q.condition [] plan.equalities
            plan.residual (plan_query-collected g d.collections q plan planned)).1 [
              | inl leftover ↦ absurd (cc (left, leftover))
              | inr all ↦ all
            ]

  pub shape_rows-selects :
      (records : List Record)
      → shape_rows g q plan sent ≡ ok records
      → IsSelected g q plan table records
  unfolding shape_rows
  shape_rows-selects records e =
      let (kept, filtered, e₁) =
        >>=-eq-ok (if plan.residual then filter_rows g sent q.condition else ok sent) _ e in
      let (all, made, shape) =
        >>=-eq-ok
          (rows_to_records g plan.collection
            (project plan.projection plan.collection.key_field kept) q.into_record)
          _ e₁ in
      (
        project plan.projection plan.collection.key_field kept,
        all,
        subst
            (λ rs.
              IsProjected plan.projection plan.collection.key_field rs
                (project plan.projection plan.collection.key_field kept))
            (filtered-selects plan.residual kept refl filtered)
            (project-IsProjected plan.projection plan.collection.key_field kept),
        rows_to_records-Zipped g plan.collection q.into_record _ all made,
        subst (IsLimited q.limit all) (ok_inj _ records shape)
            (limit_records-IsLimited q.limit all),
      )

module _ (g : Go) (env : Env) (d : Database) (ctx : Context) (q : StructuredQuery) (w : World)
    (plan : QueryPlan) where
  pub finish_query-ok :
      (rows : List Row) (p : Provenance) (f : Read (List Row × Provenance))
      → f.0 ≡ ok (rows, p)
      → (finish_query g env d ctx q plan f).0 ≡ shape_rows g q plan rows
  unfolding finish_query
  finish_query-ok rows p (ok (rows', p'), w') e =
      ap (λ (x : List Row × Provenance). shape_rows g q plan x.0) (ok_inj _ _ e)
  finish_query-ok rows p (err x, w') e = cc
  finish_query-ok rows p (panic, w') e = cc

  -- In every mode that asks the network: where the query is planned, the endpoint serves for the
  -- plan's equalities the rows of a table that match them, and a row matches the text of a constant
  -- exactly when the query's equality with the constant is true on it, the records that the query
  -- returns are those of the rows of the whole table on which every condition that its Where joins is
  -- true, each restricted to the wanted columns, in order and up to the limit.
  pub execute_query_to_records_reader-IsSelected :
      (agrees : String → String → Row → Bool) (table : List Row) (records : List Record)
      → is_online d.mode ≡ true
      → plan_query g d.collections q ≡ ok plan
      → ServedWith g env d ctx plan.collection plan.equalities w
          (keep (matches agrees plan.equalities) table)
      → All (λ row. All (AgreesOn g plan.collection agrees row) (leaves q.condition)) table
      → (execute_query_to_records_reader g env d ctx (structured q) w).0 ≡ ok records
      → IsSelected g q plan table records
  unfolding execute_query_to_records_reader run_plan
  execute_query_to_records_reader-IsSelected agrees table records online planned served laws e =
      shape_rows-selects g d q plan agrees table planned laws records (
        sym (
          finish_query-ok _ _ (fetch_rows g env d ctx plan.collection plan.equalities w)
            (fetch_rows-serves g env d ctx plan.collection plan.equalities w _ served online).1)
        ∙ rw (planned, run_plan) at e)
