-- ===== src/Reads/Worlds.antt =====
-- How the operations of the database change the world.
use dalgo2http.Prelude.{
  String, ◌≡◌, refl, sym, subst, Bool, true, false, List, [], ◌∷◌, some, arith, Bool-cases,
  Option-cases, inl, inr, Dict, lookup, has_key, if◌then◌else◌,
}
use dalgo2http.Context.{Context}
use dalgo2http.Errors.{Result, ok, err, panic}
use dalgo2http.Value.{Any, Row}
use dalgo2http.Runtime.{Go}
use dalgo2http.Dal.{StructuredQuery, Query, structured, text_query}
use dalgo2http.Descriptor.{Collection}
use dalgo2http.Provenance.{Provenance}
use dalgo2http.Query.{QueryPlan, plan_query, find_collection}
use dalgo2http.Query.Plan.{plan_query-Answers, find_collection-lookup}
use dalgo2http.Request.{Env, World}
use dalgo2http.Database.{Database, Read, fetch_rows}
use dalgo2http.Reads.{
  Target, find_row, finish_query, run_plan, execute_query_to_records_reader, fetch_for, fail_target,
  fill_target, get_from, get, exists_from, exists, goes_on, get_multi,
}

-- A relation between the worlds in front of something and behind it, which any number of reads of the
-- database's collections keep.
pub record IsKept (g : Go) (env : Env) (d : Database) (ctx : Context) (R : World → World → Type 0)
    : Type 0 where
  pub stays : (w : World) → R w w
  pub joins : (w w' w'' : World) → R w w' → R w' w'' → R w w''
  pub fetches :
      (name : String) (coll : Collection) (params : Dict String) (w : World)
      → lookup name d.collections ≡ some coll
      → R w (fetch_rows g env d ctx coll params w).1

module _ (g : Go) (env : Env) (d : Database) (ctx : Context) (R : World → World → Type 0)
    (kept : IsKept g env d ctx R) where
  finish_query-world :
      (q : StructuredQuery) (plan : QueryPlan) (f : Read (List Row × Provenance))
      → (finish_query g env d ctx q plan f).1 ≡ f.1
  unfolding finish_query
  finish_query-world q plan (ok (rows, origin), w') = refl
  finish_query-world q plan (err x, w') = refl
  finish_query-world q plan (panic, w') = refl

  run_plan-kept :
      (q : StructuredQuery) (r : Result QueryPlan) (w : World)
      → plan_query g d.collections q ≡ r
      → R w (run_plan g env d ctx q r w).1
  unfolding run_plan
  run_plan-kept q (ok plan) w planned =
      subst (R w)
        (sym (finish_query-world q plan (fetch_rows g env d ctx plan.collection plan.equalities w)))
        (kept.fetches q.from plan.collection plan.equalities w
          (let answers = plan_query-Answers g d.collections q plan planned in answers.found))
  run_plan-kept q (err x) w planned = kept.stays w
  run_plan-kept q panic w planned = kept.stays w

  pub query-kept : (q : Query) (w : World) → R w (execute_query_to_records_reader g env d ctx q w).1
  unfolding execute_query_to_records_reader
  query-kept (text_query text) w = kept.stays w
  query-kept (structured q) w = run_plan-kept q (plan_query g d.collections q) w refl

  fetch_for-kept :
      (message name id : String) (r : Result Collection) (w : World)
      → find_collection d.collections name ≡ r
      → R w (fetch_for g env d ctx message r id w).1
  unfolding fetch_for
  fetch_for-kept message name id (ok coll) w found =
      elim (Bool-cases (has_key coll.key_field coll.params)) [
        | inl declared ↦
            rw (declared, fetch_for)
              (kept.fetches name coll ((coll.key_field, id) ∷ []) w
                (find_collection-lookup d.collections name coll found))
        | inr undeclared ↦ rw (undeclared, fetch_for) (kept.stays w)
      ]
  fetch_for-kept message name id (err x) w found = kept.stays w
  fetch_for-kept message name id panic w found = kept.stays w

  fill_target-world :
      (rec : Target) (row : Row) (w : World) → (fill_target g env d ctx rec row w).0.1 ≡ w
  unfolding fill_target fail_target
  fill_target-world rec row w = ground arith

  get_from-world :
      (rec : Target) (f : Read (Collection × List Row)) → (get_from g env d ctx rec f).0.1 ≡ f.1
  unfolding get_from fail_target
  get_from-world rec (ok (coll, rows), w) =
      elim (Option-cases (find_row g coll.key_field (g.sprint rec.id) rows)) [
        | inl missing ↦ rw (missing, get_from) refl
        | inr (row, here) ↦ rw (here, get_from) (fill_target-world rec row w)
      ]
  get_from-world rec (err x, w) = refl
  get_from-world rec (panic, w) = refl

  pub get-kept : (rec : Target) (w : World) → R w (get g env d ctx rec w).0.1
  unfolding get
  get-kept rec w = subst (R w) (sym (get_from-world rec _)) (
      fetch_for-kept _ rec.collection (g.sprint rec.id)
        (find_collection d.collections rec.collection) w refl)

  exists_from-world :
      (id : String) (f : Read (Collection × List Row)) → (exists_from g env d ctx id f).1 ≡ f.1
  unfolding exists_from
  exists_from-world id (ok (coll, rows), w) = refl
  exists_from-world id (err x, w) = refl
  exists_from-world id (panic, w) = refl

  pub exists-kept :
      (collection : String) (id : Any) (w : World) → R w (exists g env d ctx collection id w).1
  unfolding exists
  exists-kept collection id w =
      subst (R w) (sym (exists_from-world (g.sprint id) _)) (
        fetch_for-kept _ collection (g.sprint id) (find_collection d.collections collection) w refl)

  -- the world behind the loop
  abbrev Leads : World → Read (Unit {0}) × List Target → Type 0
  Leads w out = R w out.0.1

  get_multi-step :
      (recs : List Target) (w : World) (f : Read (Unit {0}) × Target)
      (rest : Read (Unit {0}) × List Target) (b : Bool)
      → R w f.0.1
      → R f.0.1 rest.0.1
      → Leads w (if b then (rest.0, f.1 ∷ rest.1) else (f.0, f.1 ∷ recs))
  get_multi-step recs w f rest true first later = kept.joins w f.0.1 rest.0.1 first later
  get_multi-step recs w f rest false first later = first

  pub get_multi-kept : (recs : List Target) (w : World) → R w (get_multi g env d ctx recs w).0.1
  unfolding get_multi
  get_multi-kept [] w = kept.stays w
  get_multi-kept (rec ∷ recs) w =
      let f = get g env d ctx rec w in
      get_multi-step recs w f (get_multi g env d ctx recs f.0.1) (goes_on g env d ctx f.0.0)
        (get-kept rec w) (get_multi-kept recs f.0.1)
