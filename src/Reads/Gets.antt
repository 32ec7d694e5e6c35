-- ===== src/Reads/Gets.antt =====
-- Get, Exists and GetMulti.
use dalgo2http.Prelude.{
  String, ◌≡◌, refl, ap, inl, inr, Bool, true, false, List, Option, none, some, Bool-cases,
  Option-cases, has_key,
}
use dalgo2http.Context.{Context}
use dalgo2http.Errors.{
  Error, sentinel, error_is, not_supported, not_found, Result, ok, err, panic, ok_inj,
}
use dalgo2http.Value.{Row}
use dalgo2http.Runtime.{Go}
use dalgo2http.Descriptor.{Collection}
use dalgo2http.Filter.{unsupported}
use dalgo2http.Query.{find_collection}
use dalgo2http.Request.{Env, World}
use dalgo2http.Database.{Database, Read}
use dalgo2http.Reads.{find_row, Target, fetch_for, fail_target, get_from, get, exists_from, exists}

module _ (g : Go) (env : Env) (d : Database) (ctx : Context) where
  -- the rows do not depend on the text of the refusal
  fetch_for-message :
      (m m' : String) (r : Result Collection) (id : String) (w w' : World)
      (x : Collection × List Row)
      → fetch_for g env d ctx m r id w ≡ (ok x, w')
      → fetch_for g env d ctx m' r id w ≡ (ok x, w')
  unfolding fetch_for
  fetch_for-message m m' (ok coll) id w w' x e =
      elim (Bool-cases (has_key coll.key_field coll.params)) [
        | inl declared ↦ rw (declared, fetch_for) (rw (declared, fetch_for) at e)
        | inr undeclared ↦ absurd (cc (rw (undeclared, fetch_for) at e))
      ]
  fetch_for-message m m' (err y) id w w' x e = cc
  fetch_for-message m m' panic id w w' x e = cc

  abbrev is_found : Option Row → Bool
  is_found none = false
  is_found (some row) = true

  exists_from-eq-ok :
      (id : String) (f : Read (Collection × List Row)) (b : Bool) (w' : World)
      → exists_from g env d ctx id f ≡ (ok b, w')
      → (coll : Collection) × (rows : List Row) × (f ≡ (ok (coll, rows), w'))
        × (is_found (find_row g coll.key_field id rows) ≡ b)
  unfolding exists_from
  exists_from-eq-ok id (ok (coll, rows), w₁) b w' e = (
    coll,
    rows,
    ap (λ v. (ok (coll, rows), v)) (ap (λ (x : Read Bool). x.1) e),
    by_row (find_row g coll.key_field id rows) refl,
  )
    where
      by_row : (o : Option Row) → find_row g coll.key_field id rows ≡ o → is_found o ≡ b
      by_row none h = ok_inj false b (ap (λ (x : Read Bool). x.0) (rw (h, exists_from) at e))
      by_row (some row) h = ok_inj true b (ap (λ (x : Read Bool). x.0) (rw (h, exists_from) at e))
  exists_from-eq-ok id (err x, w₁) b w' e = cc
  exists_from-eq-ok id (panic, w₁) b w' e = cc

  -- Where Exists answers false, Get of a record with that key returns the not-found error, records it
  -- on the record, and leaves the same world behind.
  pub get-exists :
      (rec : Target) (w w' : World)
      → exists g env d ctx rec.collection rec.id w ≡ (ok false, w')
      → get g env d ctx rec w
        ≡ ((err (sentinel not_found), w'), record rec { error = some (sentinel not_found) })
  unfolding get exists get_from fail_target
  get-exists rec w w' e =
      let (coll, rows, fetched, found) = exists_from-eq-ok (g.sprint rec.id) _ false w' e in
      let same =
        fetch_for-message _
          "%w: collection %q: Get requires key field %q to be a declared parameter" _ _ w w'
          (coll, rows) fetched in
      elim (Option-cases (find_row g coll.key_field (g.sprint rec.id) rows)) [
        | inl missing ↦ rw (same, get_from, missing) refl
        | inr (row, here) ↦ absurd (cc (rw here at found))
      ]

  -- Get of a record whose collection does not declare its key field as a parameter fails with
  -- `dal.ErrNotSupported`, and leaves the world as it was: nothing is asked of the network.
  pub get-IsRefused :
      (rec : Target) (w : World) (coll : Collection)
      → find_collection d.collections rec.collection ≡ ok coll
      → has_key coll.key_field coll.params ≡ false
      → (e : Error) × ((get g env d ctx rec w).0 ≡ (err e, w)) × (error_is e not_supported ≡ true)
  unfolding get fetch_for get_from fail_target
  get-IsRefused rec w coll found undeclared = (
    unsupported "%w: collection %q: Get requires key field %q to be a declared parameter",
    rw (found, fetch_for, undeclared, get_from) refl,
    refl,
  )
