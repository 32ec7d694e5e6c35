-- ===== src/Reads/Multi.antt =====
-- What Get leaves on a record, and GetMulti on many.
use dalgo2http.Prelude.{
  subst, String, ◌≡◌, refl, ◌⊎◌, inl, inr, Bool, true, List, [], ◌∷◌, Option, none, some,
  Bool-cases, has_key, if◌then◌else◌,
}
use dalgo2http.Context.{Context}
use dalgo2http.Errors.{Error, error_is, not_found, Result, ok, err, panic, ok_inj}
use dalgo2http.Value.{Any, Row}
use dalgo2http.Runtime.{Go}
use dalgo2http.Descriptor.{Collection}
use dalgo2http.Query.{find_collection}
use dalgo2http.Request.{Env, World}
use dalgo2http.Database.{Database, Read}
use dalgo2http.Reads.{find_row, Target, fetch_for, fail_target, fill_target, get_from, get}
use dalgo2http.Provenance.{Provenance}
use dalgo2http.Database.{fetch_rows}
use dalgo2http.Errors.{>>=-eq-ok}
use dalgo2http.Reads.First.{IsFirst, find_row-IsFound}

module _ (g : Go) (env : Env) (d : Database) (ctx : Context) where
  -- The rows are those that a read of the record's collection returns for its key.
  abbrev pub AreFetched : Target → World → Collection → List Row → Type 0
  AreFetched rec w coll rows =
      (find_collection d.collections rec.collection ≡ ok coll)
      × ((p : Provenance) × ((fetch_rows g env d ctx coll ((coll.key_field, g.sprint rec.id) ∷ [])
              w).0
            ≡ ok (rows, p)))

  -- The record was got: of the rows read for its key, its data is what its factory makes of the first
  -- one that has its ID, and its error is cleared.
  abbrev pub IsGot : Target → World → Target → Type 0
  IsGot rec w out =
      (coll : Collection) × (rows : List Row) × (row : Row) × (v : Any) × AreFetched rec w coll rows
      × IsFirst g coll.key_field (g.sprint rec.id) rows row
      × (g.map_to_data rec.factory row ≡ ok v)
      × (out ≡ record rec { error = none; value = some v })

  -- What Get leaves on the record, by what it returns: the data; or the error, and no other change.
  abbrev pub IsReported : Target → World → Read (Unit {0}) × Target → Type 0
  IsReported rec w ((ok u, w'), out) = IsGot rec w out
  IsReported rec w ((err e, w'), out) = out ≡ record rec { error = some e }
  IsReported rec w ((panic, w'), out) = Unit

  fetch_for-AreFetched :
      (message : String) (rec : Target) (w : World) (r : Result Collection) (coll : Collection)
      (rows : List Row)
      → find_collection d.collections rec.collection ≡ r
      → (fetch_for g env d ctx message r (g.sprint rec.id) w).0 ≡ ok (coll, rows)
      → AreFetched rec w coll rows
  unfolding fetch_for
  fetch_for-AreFetched message rec w (ok found) coll rows named e =
      elim (Bool-cases (has_key found.key_field found.params)) [
        | inl declared ↦
            let ((rows', p), read, shape) =
              >>=-eq-ok (fetch_rows g env d ctx found ((found.key_field, g.sprint rec.id) ∷ []) w).0
                _ (rw (declared, fetch_for) at e) in
            subst (λ (x : Collection × List Row). AreFetched rec w x.0 x.1)
              (ok_inj (found, rows') (coll, rows) shape) (named, (p, read))
        | inr undeclared ↦ absurd (cc (rw (undeclared, fetch_for) at e))
      ]
  fetch_for-AreFetched message rec w (err x) coll rows named e = cc
  fetch_for-AreFetched message rec w panic coll rows named e = cc

  fill_target-IsReported :
      (rec : Target) (w : World) (coll : Collection) (rows : List Row) (row : Row) (w' : World)
      → AreFetched rec w coll rows
      → IsFirst g coll.key_field (g.sprint rec.id) rows row
      → IsReported rec w (fill_target g env d ctx rec row w')
  unfolding fill_target fail_target
  fill_target-IsReported rec w coll rows row w' read first =
      by_data (g.map_to_data rec.factory row) refl
    where
      by_data :
          (r : Result Any)
          → g.map_to_data rec.factory row ≡ r
          → IsReported rec w (fill_target g env d ctx rec row w')
      by_data (ok v) e = rw (e, fill_target) (coll, rows, row, v, read, first, e, refl)
      by_data (err x) e = rw (e, fill_target) refl
      by_data panic e = rw (e, fill_target) tt

  get_from-IsReported :
      (rec : Target) (w : World) (f : Read (Collection × List Row))
      → ((coll : Collection) (rows : List Row) → f.0 ≡ ok (coll, rows) → AreFetched rec w coll rows)
      → IsReported rec w (get_from g env d ctx rec f)
  unfolding get_from fail_target
  get_from-IsReported rec w (ok (coll, rows), w') read =
      by_row (find_row g coll.key_field (g.sprint rec.id) rows) refl
    where
      by_row :
          (o : Option Row)
          → find_row g coll.key_field (g.sprint rec.id) rows ≡ o
          → IsReported rec w (get_from g env d ctx rec (ok (coll, rows), w'))
      by_row none missing = rw (missing, get_from) refl
      by_row (some row) here =
          rw (here, get_from)
            (fill_target-IsReported rec w coll rows row w' (read coll rows refl)
              (rw here at (find_row-IsFound g coll.key_field (g.sprint rec.id) rows)))
  get_from-IsReported rec w (err e, w') read = refl
  get_from-IsReported rec w (panic, w') read = tt

  -- Get that succeeds leaves on the record the data of the first row with its ID among those read for
  -- its key; and if it fails, it leaves the error that it returns and changes nothing else.
  pub get-IsReported : (rec : Target) (w : World) → IsReported rec w (get g env d ctx rec w)
  unfolding get
  get-IsReported rec w =
      get_from-IsReported rec w _ (λ coll rows. fetch_for-AreFetched _ rec w _ coll rows refl)

  -- Each record, one after the other, was got in the world that those before it left behind; or its
  -- error says that there is none with its key, and nothing else is changed on it.
  abbrev pub AreSettled : World → List Target → List Target → Type 0
  AreSettled w [] [] = Unit
  AreSettled w (rec ∷ recs) (out ∷ outs) =
      (IsGot rec w out
        ⊎ ((e : Error) × (error_is e not_found ≡ true) × (out ≡ record rec { error = some e })))
      × AreSettled (get g env d ctx rec w).0.1 recs outs
  AreSettled w _ _ = ⊥

  -- what the loop hands back behind one record, if it goes on and if not
  abbrev behind :
      Bool
      → Read (Unit {0}) × Target
      → List Target
      → Read (Unit {0}) × List Target
      → Read (Unit {0}) × List Target
  behind r f recs rest = if r then (rest.0, f.1 ∷ rest.1) else (f.0, f.1 ∷ recs)
