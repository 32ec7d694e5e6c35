-- ===== src/Database/Origins.antt =====
-- Which body the rows of a read are decoded from, and what their provenance says of it.
use dalgo2http.Prelude.{
  String, ◌≡◌, refl, ◌∙◌, ◌⊎◌, inl, inr, true, false, List, Option, none, some, Dict, Bool-cases,
}
use dalgo2http.Context.{Context}
use dalgo2http.Errors.{Error, error_is, upstream_client, Result, ok, err, panic}
use dalgo2http.Value.{Row}
use dalgo2http.Runtime.{Go, SnapshotEnvelope}
use dalgo2http.Descriptor.{Collection}
use dalgo2http.Provenance.{Provenance, provenance_of, live, snapshot}
use dalgo2http.Decoder.{decode_rows}
use dalgo2http.Request.Build.{build_url}
use dalgo2http.Request.{Env, World, Live}
use dalgo2http.Request.Issued.{SameOrigin, do_live_fetch-SameOrigin}
use dalgo2http.Snapshot.{snapshot_key, read_snapshot}
use dalgo2http.Database.Fetch.{falls_back-eq-true}
use dalgo2http.Database.Online.{is_online, live_answer}
use dalgo2http.Database.{
  Mode, unset, live_only, snapshot_only, live_then_snapshot, other, Database, Read, serve_snapshot,
  observation_or, serve_live, falls_back, snapshot_or_error, fallback, after_live, fetch_live,
  fetch_snapshot, fetch_by_mode, fetch_rows,
}
use dalgo2http.Database.Completed.{with_provenance-eq-ok, live_rows-eq-ok}

module _ (g : Go) (env : Env) (d : Database) (ctx : Context) (coll : Collection)
    (params : Dict String) (w : World) where
  -- the rows are those of the snapshot that is stored under the name of the parameters, and the
  -- provenance has its status and time
  abbrev pub FromSnapshot : List Row → Provenance → Type 0
  FromSnapshot rows p =
      (snap : SnapshotEnvelope) × (read_snapshot g d.snapshots (snapshot_key g coll.name params)
        ≡ ok snap)
      × (decode_rows g snap.body coll ≡ ok rows)
      × (p ≡ provenance_of coll.name snapshot snap.status_code snap.fetched_at)

  -- the rows are those of the body that the live fetch took
  abbrev pub FromBody : Read Live → List Row → Provenance → Type 0
  FromBody answer rows p =
      (fetched : Live) × (answer.0 ≡ ok fetched)
      × (decode_rows g fetched.body coll ≡ ok rows)
      × (p.source ≡ live)
      × (p.collection ≡ coll.name)
      × (p.status_code ≡ fetched.status_code)
      × (p.fetched_at ≡ env.now answer.1.requests)

  -- the live fetch failed, and a snapshot stands in
  abbrev pub InPlace : Read Live → List Row → Provenance → Type 0
  InPlace answer rows p =
      (e : Error) × (answer.0 ≡ err e)
      × (d.mode ≡ live_then_snapshot)
      × (error_is e upstream_client ≡ false)
      × FromSnapshot rows p

  abbrev pub ComesFrom : List Row → Provenance → Type 0
  ComesFrom rows p =
      ((d.mode ≡ snapshot_only) × FromSnapshot rows p)
      ⊎ ((is_online d.mode ≡ true)
          × ((url : String) × (built : build_url g coll params ≡ ok url) × (FromBody
                  (live_answer g env d ctx coll params w url built) rows p
                ⊎ InPlace (live_answer g env d ctx coll params w url built) rows p)))

  serve_snapshot-FromSnapshot :
      (snap : SnapshotEnvelope) (w' : World) (rows : List Row) (p : Provenance)
      → read_snapshot g d.snapshots (snapshot_key g coll.name params) ≡ ok snap
      → (serve_snapshot g ctx coll snap w').0 ≡ ok (rows, p)
      → FromSnapshot rows p
  unfolding serve_snapshot
  serve_snapshot-FromSnapshot snap w' rows p stored e =
      let (decodes, same) = with_provenance-eq-ok _ (decode_rows g snap.body coll) rows p e in
      (snap, stored, decodes, same)

  fetch_snapshot-FromSnapshot :
      (r : Result SnapshotEnvelope) (rows : List Row) (p : Provenance)
      → read_snapshot g d.snapshots (snapshot_key g coll.name params) ≡ r
      → (fetch_snapshot g env d ctx coll r w).0 ≡ ok (rows, p)
      → FromSnapshot rows p
  unfolding fetch_snapshot
  fetch_snapshot-FromSnapshot (ok snap) rows p stored e =
      serve_snapshot-FromSnapshot snap w rows p stored e
  fetch_snapshot-FromSnapshot (err x) rows p stored e = cc
  fetch_snapshot-FromSnapshot panic rows p stored e = cc

  snapshot_or_error-FromSnapshot :
      (x : Error) (r : Result SnapshotEnvelope) (w' : World) (rows : List Row) (p : Provenance)
      → read_snapshot g d.snapshots (snapshot_key g coll.name params) ≡ r
      → (snapshot_or_error g env d ctx coll x r w').0 ≡ ok (rows, p)
      → FromSnapshot rows p
  unfolding snapshot_or_error
  snapshot_or_error-FromSnapshot x (ok snap) w' rows p stored e =
      serve_snapshot-FromSnapshot snap w' rows p stored e
  snapshot_or_error-FromSnapshot x (err y) w' rows p stored e = cc
  snapshot_or_error-FromSnapshot x panic w' rows p stored e = cc

  fallback-InPlace :
      (x : Error) (w' : World) (rows : List Row) (p : Provenance)
      → (fallback g env d ctx coll (snapshot_key g coll.name params) x w').0 ≡ ok (rows, p)
      → InPlace (err x, w') rows p
  unfolding fallback
  fallback-InPlace x w' rows p e = elim (Bool-cases (falls_back d.mode x)) [
    | inl goes ↦
        let (mode, lasting) = falls_back-eq-true d.mode x goes in
        (
          x,
          refl,
          mode,
          lasting,
          snapshot_or_error-FromSnapshot x _ w' rows p refl (rw (goes, fallback) at e),
        )
    | inr stays ↦ absurd (cc (rw (stays, fallback) at e))
  ]

  after_live-From :
      (answer : Read Live) (rows : List Row) (p : Provenance)
      → ((fetched : Live)
          → answer.0 ≡ ok fetched
          → SameOrigin (some (provenance_of coll.name live 0 0)) fetched.observation)
      → (after_live g env d ctx coll
          (snapshot_key g coll.name params)
          (provenance_of coll.name live 0 0)
          answer).0
        ≡ ok (rows, p)
      → FromBody answer rows p ⊎ InPlace answer rows p
  unfolding after_live serve_live observation_or
  after_live-From (ok fetched, w') rows p origin e =
      let prov = provenance_of coll.name live 0 0 in
      let (decodes, at) =
        live_rows-eq-ok ctx coll (decode_rows g fetched.body coll)
          (record (observation_or prov fetched.observation) {
            status_code = fetched.status_code;
            fetched_at = env.now w'.requests;
          })
          w' rows p e in
      let (source, name) = observed_origin fetched.observation (origin fetched refl) in
      inl (fetched, refl, decodes, at.0 ∙ source, at.1 ∙ name, at.2, at.3)
    where
      observed_origin :
          (o : Option Provenance)
          → SameOrigin (some (provenance_of coll.name live 0 0)) o
          → ((observation_or (provenance_of coll.name live 0 0) o).source ≡ live)
            × ((observation_or (provenance_of coll.name live 0 0) o).collection ≡ coll.name)
      observed_origin none h = elim h [ ]
      observed_origin (some q) h = h
  after_live-From (err x, w') rows p origin e = inr (fallback-InPlace x w' rows p e)
  after_live-From (panic, w') rows p origin e = cc

  fetch_live-ComesFrom :
      (r : Result String) (rows : List Row) (p : Provenance)
      → is_online d.mode ≡ true
      → build_url g coll params ≡ r
      → (fetch_live g env d ctx coll (snapshot_key g coll.name params) r w).0 ≡ ok (rows, p)
      → ComesFrom rows p
  unfolding fetch_live
  fetch_live-ComesFrom (ok url) rows p online built e = inr (
    online,
    (
      url,
      built,
      after_live-From (live_answer g env d ctx coll params w url built) rows p
          (do_live_fetch-SameOrigin g env ctx d.client coll url
            (some (provenance_of coll.name live 0 0)) w)
          e,
    ),
  )
  fetch_live-ComesFrom (err x) rows p online built e = cc
  fetch_live-ComesFrom panic rows p online built e = cc

  fetch_by_mode-ComesFrom :
      (mode : Mode) (rows : List Row) (p : Provenance)
      → d.mode ≡ mode
      → (fetch_by_mode g env d ctx mode coll params w).0 ≡ ok (rows, p)
      → ComesFrom rows p
  unfolding fetch_by_mode
  fetch_by_mode-ComesFrom snapshot_only rows p is_mode e =
      inl (is_mode, fetch_snapshot-FromSnapshot _ rows p refl e)
  fetch_by_mode-ComesFrom unset rows p is_mode e =
      fetch_live-ComesFrom _ rows p (rw is_mode refl) refl e
  fetch_by_mode-ComesFrom live_only rows p is_mode e =
      fetch_live-ComesFrom _ rows p (rw is_mode refl) refl e
  fetch_by_mode-ComesFrom live_then_snapshot rows p is_mode e =
      fetch_live-ComesFrom _ rows p (rw is_mode refl) refl e
  fetch_by_mode-ComesFrom (other name) rows p is_mode e =
      fetch_live-ComesFrom _ rows p (rw is_mode refl) refl e

  -- In the mode for snapshots only, the rows that a read returns are decoded from the snapshot stored
  -- under the name of the collection and the parameters, and the provenance has its status and time. In
  -- any other mode the URL was built, and they are decoded from the body that the live fetch took, with
  -- the provenance of a live answer of the collection, its status and the time behind the request; or
  -- the mode is live, then snapshot, the live fetch failed with an error that does not wrap
  -- `ErrUpstreamClient`, and they are those of the stored snapshot.
  pub fetch_rows-ComesFrom :
      (rows : List Row) (p : Provenance)
      → (fetch_rows g env d ctx coll params w).0 ≡ ok (rows, p)
      → ComesFrom rows p
  unfolding fetch_rows
  fetch_rows-ComesFrom rows p e = fetch_by_mode-ComesFrom d.mode rows p refl e
