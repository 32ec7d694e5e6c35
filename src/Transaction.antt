-- ===== src/Transaction.antt =====
-- transaction.go: reads are the database's, and every write is refused.
pub mod Laws
pub mod Total
pub mod Session
use dalgo2http.Prelude.{ℕ, String, Bool, List}
use dalgo2http.Context.{Context}
use dalgo2http.Errors.{sentinel, not_supported, Result, err}
use dalgo2http.Value.{Any}
use dalgo2http.Runtime.{Go}
use dalgo2http.Dal.{Query}
use dalgo2http.Query.{Record}
use dalgo2http.Request.{Env, World}
use dalgo2http.Database.{Database, Read}
use dalgo2http.Reads.{
  Target, get, exists, get_multi, execute_query_to_records_reader,
  execute_query_to_recordset_reader,
}

-- the options are those of dalgo, named by a number
pub record Transaction : Type 0 where
  pub db : Database
  pub tx_opts : ℕ

-- `RunReadonlyTransaction` and `RunReadwriteTransaction` hand the worker a transaction.
unfoldable pub run_transaction {ℓ} :
    {A : Type ℓ} → Database → ℕ → (Transaction → World → Read A) → World → Read A
run_transaction d tx_opts worker w = worker (record { db = d; tx_opts = tx_opts }) w

-- What a worker can ask of its transaction.
pub data Call : Type 0 where
  get_ : Target → Call
  exists_ : String → Any → Call
  get_multi_ : List Target → Call
  query_ recordset_ : Query → Call
  set set_multi delete delete_multi update update_record update_multi insert insert_multi : Call

pub data Reply : Type 0 where
  done : Result (Unit {0}) → List Target → Reply
  found : Result Bool → Reply
  records : Result (List Record) → Reply

-- the answer to one write
abbrev refused : World → Reply × World
refused w = (done (err (sentinel not_supported)) List.[], w)

module _ (g : Go) (env : Env) (ctx : Context) where
  unfoldable pub call : Transaction → Call → World → Reply × World
  call t (get_ rec) w =
      let ((r, w'), rec') = get g env t.db ctx rec w in (done r (List.◌∷◌ rec' List.[]), w')
  call t (exists_ collection id) w =
      let (r, w') = exists g env t.db ctx collection id w in (found r, w')
  call t (get_multi_ recs) w =
      let ((r, w'), recs') = get_multi g env t.db ctx recs w in (done r recs', w')
  call t (query_ q) w =
      let (r, w') = execute_query_to_records_reader g env t.db ctx q w in (records r, w')
  call t (recordset_ q) w =
      let (r, w') = execute_query_to_recordset_reader g env t.db ctx q w in (records r, w')
  call t set w = refused w
  call t set_multi w = refused w
  call t delete w = refused w
  call t delete_multi w = refused w
  call t update w = refused w
  call t update_record w = refused w
  call t update_multi w = refused w
  call t insert w = refused w
  call t insert_multi w = refused w
