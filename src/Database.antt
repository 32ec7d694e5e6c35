-- ===== src/Database.antt =====
-- database.go: the database, and reads that go to the network or to snapshots.
pub mod Fetch
pub mod Sources
pub mod Online
pub mod Completed
pub mod Origins
pub mod Observed
pub mod Served
pub mod Guarded
pub mod Fallback
pub mod Recorded
pub mod Replay
pub mod Maps
pub mod Params
pub mod Dates
pub mod Collisions
pub mod Total
use dalgo2http.Prelude.{
  ℕ, String, Bool, true, false, not, ◌&&◌, List, [], ◌∷◌, ◌++◌, Option, none, some, if◌then◌else◌,
  ◌==◌, Dict, lookup, insert, has_key, take, length, ltb,
}
use dalgo2http.Context.{Context, provenance_observer_from}
use dalgo2http.Errors.{
  Error, sentinel, foreign, errorf, error_is, upstream_client, not_supported, not_found, Result, ok,
  err, panic, ◌>>=◌,
}
use dalgo2http.Value.{ℤ, pos, negsuc, Any, str, Row}
use dalgo2http.Runtime.{Go, Bytes, SnapshotEnvelope}
use dalgo2http.Descriptor.{Decoder, ecb_euro_fx_ref, strict_csv3, Collection}
use dalgo2http.Dal.{StructuredQuery, Query, structured, text_query}
use dalgo2http.Decoder.{decode_rows}
use dalgo2http.Filter.{unsupported, filter_rows}
use dalgo2http.Query.{
  QueryPlan, plan_query, find_collection, apply_projection, Record, rows_to_records,
}
use dalgo2http.Provenance.{Provenance, provenance_of, live, snapshot}
use dalgo2http.Security.{HttpClient}
use dalgo2http.Request.Build.{build_url}
use dalgo2http.Request.{Env, World, Live, do_live_fetch}
use dalgo2http.Snapshot.{Store, snapshot_key, read_snapshot}

-- config.go: `Mode`
pub data Mode : Type 0 where
  unset live_only snapshot_only live_then_snapshot : Mode
  other : String → Mode

-- the `database` struct, with what its Config holds beside the collections
pub record Database : Type 0 where
  pub collections : Dict Collection
  pub client : Option HttpClient
  pub snapshots : Option Store
  pub mode : Mode

-- A read's answer, and the world behind it.
abbrev pub Read {ℓ} : Type ℓ → Type ℓ
Read A = Result A × World

-- `d.observe`: the observer attached to the context, if any, is told
unfoldable pub observe : Context → Provenance → World → World
observe ctx p w = elim (provenance_observer_from ctx) [
  | none ↦ w
  | some obs ↦ record w { observed = w.observed ++ (obs, p) ∷ [] }
]

pub with_provenance : Provenance → Result (List Row) → Result (List Row × Provenance)
with_provenance p (ok rows) = ok (rows, p)
with_provenance p (err e) = err e
with_provenance p panic = panic

-- the rows and provenance of a snapshot that was read
unfoldable pub serve_snapshot :
    Go → Context → Collection → SnapshotEnvelope → World → Read (List Row × Provenance)
unfolding observe with_provenance
serve_snapshot g ctx coll env w =
    let prov = provenance_of coll.name snapshot env.status_code env.fetched_at in
    (with_provenance prov (decode_rows g env.body coll), observe ctx prov w)

-- `rows[0]["time"].(string)`
pub reference_date : List Row → Result String
reference_date [] = panic
reference_date (row ∷ rows) = elim (lookup "time" row) [
  | none ↦ panic
  | some v ↦ elim v [ str s ↦ ok s | _ ↦ panic ]
]

-- the provenance of decoded live rows, by the decoder
pub complete : Decoder → List Row → Provenance → Result Provenance
unfolding reference_date
complete ecb_euro_fx_ref rows p = do
  date ← reference_date rows
  ok (record p { decoder = ecb_euro_fx_ref; base_currency = "EUR"; reference_date = date })
complete strict_csv3 rows p = ok (record p { decoder = strict_csv3 })
complete _ rows p = ok p

completed : Context → List Row → Result Provenance → World → Read (List Row × Provenance)
unfolding observe
completed ctx rows (ok p) w = (ok (rows, p), observe ctx p w)
completed ctx rows (err e) w = (err e, w)
completed ctx rows panic w = (panic, w)

pub live_rows :
    Context → Collection → Result (List Row) → Provenance → World → Read (List Row × Provenance)
unfolding complete completed observe
live_rows ctx coll (ok rows) p w = completed ctx rows (complete coll.decoder rows p) w
live_rows ctx coll (err e) p w = (err e, observe ctx p w)
live_rows ctx coll panic p w = (panic, w)

-- what the live fetch left in the provenance that it was given
observation_or : Provenance → Option Provenance → Provenance
observation_or p none = p
observation_or p (some q) = q

-- the rows and provenance of a live answer
unfoldable pub serve_live :
    Go → Env → Context → Collection → Provenance → Live → World → Read (List Row × Provenance)
unfolding live_rows observation_or
serve_live g env ctx coll prov fetched w =
    live_rows ctx coll (decode_rows g fetched.body coll)
      (record (observation_or prov fetched.observation) {
        status_code = fetched.status_code;
        fetched_at = env.now w.requests;
      })
      w

abbrev pub falls_back : Mode → Error → Bool
falls_back live_then_snapshot e = not (error_is e upstream_client)
falls_back _ e = false

module _ (g : Go) (env : Env) (d : Database) (ctx : Context) where
  -- the snapshot in place of the live error, if it can be read
  snapshot_or_error :
      Collection → Error → Result SnapshotEnvelope → World → Read (List Row × Provenance)
  unfolding serve_snapshot
  snapshot_or_error coll e (ok snap) w = serve_snapshot g ctx coll snap w
  snapshot_or_error coll e (err _) w = (err e, w)
  snapshot_or_error coll e panic w = (panic, w)

  -- after a live failure: the snapshot if the mode and the error allow one and it can be read
  pub fallback : Collection → String → Error → World → Read (List Row × Provenance)
  unfolding snapshot_or_error
  fallback coll key e w =
      if falls_back d.mode e
      then snapshot_or_error coll e (read_snapshot g d.snapshots key) w
      else (err e, w)

  unfoldable pub after_live :
      Collection → String → Provenance → Read Live → Read (List Row × Provenance)
  unfolding serve_live fallback
  after_live coll key prov (ok fetched, w) = serve_live g env ctx coll prov fetched w
  after_live coll key prov (err e, w) = fallback coll key e w
  after_live coll key prov (panic, w) = (panic, w)

  fetch_live : Collection → String → Result String → World → Read (List Row × Provenance)
  unfolding after_live
  fetch_live coll key (ok raw_url) w =
      let prov = provenance_of coll.name live 0 0 in
      after_live coll key prov (do_live_fetch g env ctx d.client coll raw_url (some prov) w)
  fetch_live coll key (err e) w = (err e, w)
  fetch_live coll key panic w = (panic, w)

  fetch_snapshot : Collection → Result SnapshotEnvelope → World → Read (List Row × Provenance)
  unfolding serve_snapshot
  fetch_snapshot coll (ok snap) w = serve_snapshot g ctx coll snap w
  fetch_snapshot coll (err e) w = (err (errorf "dalgo2http: collection %q: %w" e), w)
  fetch_snapshot coll panic w = (panic, w)

  fetch_by_mode : Mode → Collection → Dict String → World → Read (List Row × Provenance)
  unfolding fetch_live fetch_snapshot
  fetch_by_mode snapshot_only coll params w =
      fetch_snapshot coll (read_snapshot g d.snapshots (snapshot_key g coll.name params)) w
  fetch_by_mode _ coll params w =
      fetch_live coll (snapshot_key g coll.name params) (build_url g coll params) w

  unfoldable pub fetch_rows : Collection → Dict String → World → Read (List Row × Provenance)
  unfolding fetch_by_mode
  fetch_rows coll params w = fetch_by_mode d.mode coll params w
