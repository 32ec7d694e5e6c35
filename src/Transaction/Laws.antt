-- ===== src/Transaction/Laws.antt =====
-- The writes of a transaction.
use dalgo2http.Prelude.{◌≡◌, refl, Bool, true, false, []}
use dalgo2http.Context.{Context}
use dalgo2http.Errors.{sentinel, not_supported, err}
use dalgo2http.Runtime.{Go}
use dalgo2http.Request.{Env, World}
use dalgo2http.Transaction.{
  Transaction, Call, get_, exists_, get_multi_, query_, recordset_, set, set_multi, delete,
  delete_multi, update, update_record, update_multi, insert, insert_multi, done, call,
}

-- the calls that ask for a change
abbrev pub is_write : Call → Bool
is_write (get_ rec) = false
is_write (exists_ collection id) = false
is_write (get_multi_ recs) = false
is_write (query_ q) = false
is_write (recordset_ q) = false
is_write _ = true

-- Every write through a transaction, of whatever options and database, is refused with
-- `dal.ErrNotSupported`, and leaves the world as it was: no request is issued and no observer told.
pub call-write :
    (g : Go) (env : Env) (ctx : Context) (t : Transaction) (c : Call) (w : World)
    → is_write c ≡ true
    → call g env ctx t c w ≡ (done (err (sentinel not_supported)) [], w)
unfolding call
call-write g env ctx t set w h = refl
call-write g env ctx t set_multi w h = refl
call-write g env ctx t delete w h = refl
call-write g env ctx t delete_multi w h = refl
call-write g env ctx t update w h = refl
call-write g env ctx t update_record w h = refl
call-write g env ctx t update_multi w h = refl
call-write g env ctx t insert w h = refl
call-write g env ctx t insert_multi w h = refl
call-write g env ctx t (get_ rec) w h = cc
call-write g env ctx t (exists_ collection id) w h = cc
call-write g env ctx t (get_multi_ recs) w h = cc
call-write g env ctx t (query_ q) w h = cc
call-write g env ctx t (recordset_ q) w h = cc
