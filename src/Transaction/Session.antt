-- ===== src/Transaction/Session.antt =====
-- What a worker's calls of its transaction lead to, in any number and order.
use dalgo2http.Prelude.{
  String, ◌≡◌, refl, sym, ap, ◌∙◌, List, [], ◌∷◌, ◌++◌, All, All-append, All-mono, some, Dict,
  lookup, inl, inr, subst,
}
use mathlib.Core.List.{append-nil, append_assoc}
use dalgo2http.Context.{Context}
use dalgo2http.Errors.{ok, >>=-eq-ok, ok_inj}
use dalgo2http.Runtime.{Go}
use dalgo2http.Descriptor.{Collection}
use dalgo2http.Request.{Env, World, HttpRequest}
use dalgo2http.Database.{Database, snapshot_only, fetch_rows}
use dalgo2http.Database.Sources.{IsRequest, fetch_rows-IsRequest, fetch_rows-snapshot_only}
use dalgo2http.Reads.{execute_query_to_recordset_reader}
use dalgo2http.Reads.Worlds.{IsKept, query-kept, get-kept, exists-kept, get_multi-kept}
use dalgo2http.Config.{Config, validate_config, new_db}
use dalgo2http.Config.Valid.{IsValid}
use dalgo2http.Config.Index.{validate_config-AllAllowed}
use dalgo2http.Transaction.{
  Transaction, Call, get_, exists_, get_multi_, query_, recordset_, set, set_multi, delete,
  delete_multi, update, update_record, update_multi, insert, insert_multi, call,
}

-- The worlds that a transaction's calls lead to, one behind the other.
pub data Session (g : Go) (env : Env) (ctx : Context) (t : Transaction) (w : World)
    : World → Type 0 where
  start : Session g env ctx t w w
  next :
      {w' : World} (w'' : World) (c : Call)
      → Session g env ctx t w w'
      → (call g env ctx t c w').1 ≡ w''
      → Session g env ctx t w w''

module _ (g : Go) (env : Env) (ctx : Context) (t : Transaction) (R : World → World → Type 0)
    (kept : IsKept g env t.db ctx R) where
  call-kept : (c : Call) (w : World) → R w (call g env ctx t c w).1
  unfolding call execute_query_to_recordset_reader
  call-kept (get_ rec) w = get-kept g env t.db ctx R kept rec w
  call-kept (exists_ collection id) w = exists-kept g env t.db ctx R kept collection id w
  call-kept (get_multi_ recs) w = get_multi-kept g env t.db ctx R kept recs w
  call-kept (query_ q) w = query-kept g env t.db ctx R kept q w
  call-kept (recordset_ q) w = kept.stays w
  call-kept set w = kept.stays w
  call-kept set_multi w = kept.stays w
  call-kept delete w = kept.stays w
  call-kept delete_multi w = kept.stays w
  call-kept update w = kept.stays w
  call-kept update_record w = kept.stays w
  call-kept update_multi w = kept.stays w
  call-kept insert w = kept.stays w
  call-kept insert_multi w = kept.stays w

  Session-kept : {w w' : World} → Session g env ctx t w w' → R w w'
  Session-kept {w} start = kept.stays w
  Session-kept {w} (next {w' = w'} w'' c before e) =
      kept.joins w w' w'' (Session-kept before) (subst (R w') e (call-kept c w'))

module _ (g : Go) (env : Env) (ctx : Context) (t : Transaction) where
  -- one of the database's collections makes the request, of a URL that is built for some parameters
  abbrev IsOwn : HttpRequest → Type 0
  IsOwn req =
      (name : String) × (coll : Collection) × (params : Dict String) × (lookup name t.db.collections
        ≡ some coll)
      × IsRequest g env t.db ctx coll params req

  -- what is issued between two worlds
  abbrev Issues : (HttpRequest → Type 0) → World → World → Type 0
  Issues P w₁ w₂ = (reqs : List HttpRequest) × (w₂.requests ≡ w₁.requests ++ reqs) × All P reqs

  Issues-joins : (w₁ w₂ w₃ : World) → Issues IsOwn w₁ w₂ → Issues IsOwn w₂ w₃ → Issues IsOwn w₁ w₃
  Issues-joins w₁ w₂ w₃ (reqs, e, own) (reqs', e', own') = (
    reqs ++ reqs',
    e' ∙ ap (λ rs. rs ++ reqs') e ∙ append_assoc w₁.requests reqs reqs',
    All-append IsOwn reqs reqs' own own',
  )

  fetches-Issues :
      (name : String) (coll : Collection) (params : Dict String) (w₁ : World)
      → lookup name t.db.collections ≡ some coll
      → Issues IsOwn w₁ (fetch_rows g env t.db ctx coll params w₁).1
  fetches-Issues name coll params w₁ found =
      elim (fetch_rows-IsRequest g env t.db ctx coll params w₁) [
        | inl same ↦ ([], same ∙ sym (append-nil w₁.requests), tt)
        | inr (req, one, own) ↦ (req ∷ [], one, ((name, coll, params, found, own), tt))
      ]

  -- all requests that a session issues
  Session-Issues : (w w' : World) → Session g env ctx t w w' → Issues IsOwn w w'
  Session-Issues w w' = Session-kept g env ctx t (Issues IsOwn) (record {
    stays = λ w₁. ([], sym (append-nil w₁.requests), tt);
    joins = Issues-joins;
    fetches = fetches-Issues;
  })

  -- In the mode that is for snapshots only, no calls of a transaction, in any number and order, issue a
  -- request.
  pub Session-snapshot_only :
      (w w' : World)
      → t.db.mode ≡ snapshot_only
      → Session g env ctx t w w'
      → w'.requests ≡ w.requests
  Session-snapshot_only w w' mode =
      Session-kept g env ctx t (λ w₁ w₂. w₂.requests ≡ w₁.requests)
        (record {
          stays = λ w₁. refl;
          joins = λ w₁ w₂ w₃ e e'. e' ∙ e;
          fetches = λ name coll params w₁ found.
              fetch_rows-snapshot_only g env t.db ctx coll params w₁ mode;
        })

  -- A request that a valid collection makes of a URL built of its template and of parameters.
  abbrev pub IsValidRequest : HttpRequest → Type 0
  IsValidRequest req =
      (coll : Collection) × (params : Dict String) × IsValid g coll
      × IsRequest g env t.db ctx coll params req

  IsOwn-IsValidRequest :
      (cfg : Config) → new_db g cfg ≡ ok t.db → (req : HttpRequest) → IsOwn req → IsValidRequest req
  unfolding new_db
  IsOwn-IsValidRequest cfg e req (name, coll, params, found, own) =
      let (index, valid, shape) = >>=-eq-ok (validate_config g cfg) _ e in
      let (_, _, all, _) = validate_config-AllAllowed g cfg index valid in
      let same = ok_inj _ t.db shape in
      (
        coll,
        params,
        (all name coll (ap (λ (d : Database). lookup name d.collections) same ∙ found)).1,
        own,
      )

  -- In a database that `NewDB` has made, whatever calls a worker makes of its transaction, in any number
  -- and order: each request that they issue is one that a valid collection makes of a URL that is built
  -- of its template and of parameters.
  pub Session-IsValid :
      (cfg : Config) (w w' : World)
      → new_db g cfg ≡ ok t.db
      → Session g env ctx t w w'
      → (reqs : List HttpRequest) × (w'.requests ≡ w.requests ++ reqs) × All IsValidRequest reqs
  Session-IsValid cfg w w' e s =
      let (reqs, same, own) = Session-Issues w w' s in
      (reqs, same, All-mono IsOwn IsValidRequest reqs (IsOwn-IsValidRequest cfg e) own)
