-- ===== src/Database/Total.antt =====
-- Panics of a read.
use dalgo2http.Prelude.{
  ◌≤◌, String, ◌≡◌, refl, ap, ◌∙◌, List, [], ◌∷◌, Option, none, some, inl, inr, arith, All, Dict,
  length, lookup, Bool-cases,
}
use dalgo2http.Context.{Context}
use dalgo2http.Errors.{Error, Result, ok, err, panic, Raises-bind, Raises-wrap_error, Returns}
use dalgo2http.Value.{str, Row}
use dalgo2http.Runtime.{Go, Bytes, SnapshotEnvelope}
use dalgo2http.Descriptor.{Decoder, unset, json, ecb_euro_fx_ref, strict_csv3, Collection}
use dalgo2http.Provenance.{Provenance}
use dalgo2http.EcbXml.{quote_row}
use dalgo2http.EcbXml.Rows.{IsQuote}
use dalgo2http.Decoder.{decode_rows}
use dalgo2http.Decoder.Total as Decoders
use dalgo2http.Decoder.Total.{HasDate}
use dalgo2http.Request.{Env, World, Live}
use dalgo2http.Request.Total as Requests
use dalgo2http.Snapshot.{Store, read_snapshot}
use dalgo2http.Database.{
  Mode, unset as unset_mode, live_only, snapshot_only, live_then_snapshot, other, Database, Read,
  with_provenance, serve_snapshot, reference_date, complete, completed, live_rows, serve_live,
  falls_back, snapshot_or_error, fallback, after_live, fetch_live, fetch_snapshot, fetch_by_mode,
  fetch_rows,
}

-- reading a file of the store returns
abbrev StoreReturns : Option Store → Type 0
StoreReturns none = Unit
StoreReturns (some fsys) = (name : String) → Returns (fsys name)

-- What a read relies on.
pub record IsSound (g : Go) (env : Env) (d : Database) : Type 0 where
  pub decoders : Decoders.IsSound g
  pub requests : Requests.IsSound g env
  pub store : StoreReturns d.snapshots
  pub envelope_returns : (body : Bytes) → Returns (g.unmarshal_envelope body)

pub lookup-quote_row :
    (date currency rate : String) → lookup "time" (quote_row date currency rate) ≡ some (str date)
unfolding lookup
lookup-quote_row date currency rate = refl

-- a decoded document of the ECB has a first row, and that has a date
reference_date-Returns :
    (rows : List Row) → All IsQuote rows → 1 ≤ length rows → Returns (reference_date rows)
unfolding reference_date
reference_date-Returns [] h k = absurd (omega arith)
reference_date-Returns (row ∷ rows) (q, h) k =
    rw (ap (lookup "time") q.shape ∙ lookup-quote_row q.date q.currency q.rate, reference_date) tt

complete-Returns :
    (decoder : Decoder) (rows : List Row) (p : Provenance)
    → HasDate decoder rows
    → Returns (complete decoder rows p)
unfolding complete
complete-Returns ecb_euro_fx_ref rows p (quotes, there) =
    Raises-bind _ (reference_date rows) _ (reference_date-Returns rows quotes there) (λ date. tt)
complete-Returns strict_csv3 rows p h = tt
complete-Returns unset rows p h = tt
complete-Returns json rows p h = tt
complete-Returns (Decoder.other d) rows p h = tt

with_provenance-Returns :
    (p : Provenance) (r : Result (List Row)) → Returns r → Returns (with_provenance p r)
unfolding with_provenance
with_provenance-Returns p (ok rows) h = tt
with_provenance-Returns p (err e) h = tt
with_provenance-Returns p panic h = h

completed-Returns :
    (ctx : Context) (rows : List Row) (r : Result Provenance) (w : World)
    → Returns r
    → Returns (completed ctx rows r w).0
unfolding completed
completed-Returns ctx rows (ok p) w h = tt
completed-Returns ctx rows (err e) w h = tt
completed-Returns ctx rows panic w h = h

live_rows-Returns :
    (ctx : Context) (coll : Collection) (r : Result (List Row)) (p : Provenance) (w : World)
    → Returns r
    → ((rows : List Row) → r ≡ ok rows → HasDate coll.decoder rows)
    → Returns (live_rows ctx coll r p w).0
unfolding live_rows
live_rows-Returns ctx coll (ok rows) p w h dated =
    completed-Returns ctx rows (complete coll.decoder rows p) w
      (complete-Returns coll.decoder rows p (dated rows refl))
live_rows-Returns ctx coll (err e) p w h dated = tt
live_rows-Returns ctx coll panic p w h dated = h

read_snapshot-Returns :
    (g : Go) (fsys : Option Store) (name : String)
    → StoreReturns fsys
    → ((body : Bytes) → Returns (g.unmarshal_envelope body))
    → Returns (read_snapshot g fsys name)
unfolding read_snapshot
read_snapshot-Returns g none name h k = tt
read_snapshot-Returns g (some fsys) name h k = by_content (fsys name) refl
  where
    by_content : (r : Result Bytes) → fsys name ≡ r → Returns (read_snapshot g (some fsys) name)
    by_content (ok content) e =
        rw (e, read_snapshot)
          (Raises-wrap_error _ _ _ (g.unmarshal_envelope content) (λ x y. tt) (k content))
    by_content (err x) e = rw (e, read_snapshot) tt
    by_content panic e = absurd (rw e at (h name))

module _ (g : Go) (env : Env) (d : Database) (ctx : Context) (coll : Collection)
    (h : IsSound g env d) where
  serve_snapshot-Returns :
      (snap : SnapshotEnvelope) (w : World) → Returns (serve_snapshot g ctx coll snap w).0
  unfolding serve_snapshot
  serve_snapshot-Returns snap w =
      with_provenance-Returns _ (decode_rows g snap.body coll)
        (Decoders.decode_rows-Returns g snap.body coll h.decoders)

  serve_live-Returns :
      (p : Provenance) (fetched : Live) (w : World)
      → Returns (serve_live g env ctx coll p fetched w).0
  unfolding serve_live
  serve_live-Returns p fetched w =
      live_rows-Returns ctx coll (decode_rows g fetched.body coll) _ w
        (Decoders.decode_rows-Returns g fetched.body coll h.decoders)
        (λ rows e. Decoders.decode_rows-HasDate g fetched.body coll rows e)

  snapshot_or_error-Returns :
      (e : Error) (r : Result SnapshotEnvelope) (w : World)
      → Returns r
      → Returns (snapshot_or_error g env d ctx coll e r w).0
  unfolding snapshot_or_error
  snapshot_or_error-Returns e (ok snap) w k = serve_snapshot-Returns snap w
  snapshot_or_error-Returns e (err x) w k = tt
  snapshot_or_error-Returns e panic w k = k

  fallback-Returns :
      (key : String) (e : Error) (w : World) → Returns (fallback g env d ctx coll key e w).0
  unfolding fallback
  fallback-Returns key e w = elim (Bool-cases (falls_back d.mode e)) [
    | inl goes ↦ rw goes (
        snapshot_or_error-Returns e (read_snapshot g d.snapshots key) w
          (read_snapshot-Returns g d.snapshots key h.store h.envelope_returns))
    | inr stays ↦ rw stays tt
  ]

  after_live-Returns :
      (key : String) (p : Provenance) (r : Read Live)
      → Returns r.0
      → Returns (after_live g env d ctx coll key p r).0
  unfolding after_live
  after_live-Returns key p (ok fetched, w) k = serve_live-Returns p fetched w
  after_live-Returns key p (err e, w) k = fallback-Returns key e w
  after_live-Returns key p (panic, w) k = k

  fetch_live-Returns :
      (key : String) (r : Result String) (w : World)
      → Returns r
      → Returns (fetch_live g env d ctx coll key r w).0
  unfolding fetch_live
  fetch_live-Returns key (ok url) w k =
      after_live-Returns key _ _
        (Requests.do_live_fetch-Returns g env ctx d.client coll url _ w h.requests)
  fetch_live-Returns key (err e) w k = tt
  fetch_live-Returns key panic w k = k

  fetch_snapshot-Returns :
      (r : Result SnapshotEnvelope) (w : World)
      → Returns r
      → Returns (fetch_snapshot g env d ctx coll r w).0
  unfolding fetch_snapshot
  fetch_snapshot-Returns (ok snap) w k = serve_snapshot-Returns snap w
  fetch_snapshot-Returns (err e) w k = tt
  fetch_snapshot-Returns panic w k = k

  fetch_by_mode-Returns :
      (m : Mode) (params : Dict String) (w : World)
      → Returns (fetch_by_mode g env d ctx m coll params w).0
  unfolding fetch_by_mode
  fetch_by_mode-Returns snapshot_only params w =
      fetch_snapshot-Returns _ w (read_snapshot-Returns g d.snapshots _ h.store h.envelope_returns)
  fetch_by_mode-Returns unset_mode params w =
      fetch_live-Returns _ _ w (Requests.build_url-Returns g env coll params h.requests)
  fetch_by_mode-Returns live_only params w =
      fetch_live-Returns _ _ w (Requests.build_url-Returns g env coll params h.requests)
  fetch_by_mode-Returns live_then_snapshot params w =
      fetch_live-Returns _ _ w (Requests.build_url-Returns g env coll params h.requests)
  fetch_by_mode-Returns (other name) params w =
      fetch_live-Returns _ _ w (Requests.build_url-Returns g env coll params h.requests)

  -- A read always returns rows or an error, and never panics: not in decoding, and not where the date
  -- of an ECB document is taken from its first row.
  pub fetch_rows-Returns :
      (params : Dict String) (w : World) → Returns (fetch_rows g env d ctx coll params w).0
  unfolding fetch_rows
  fetch_rows-Returns params w = fetch_by_mode-Returns d.mode params w
