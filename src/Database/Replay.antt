-- ===== src/Database/Replay.antt =====
-- Recording a snapshot, and reading it back.
use dalgo2http.Prelude.{ℕ, String, ◌≡◌, ap, ◌∙◌, List, Option, some, Dict}
use dalgo2http.Context.{Context}
use dalgo2http.Errors.{Result, ok}
use dalgo2http.Value.{Row}
use dalgo2http.Security.{HttpClient}
use dalgo2http.Runtime.{Go, Bytes, SnapshotEnvelope}
use dalgo2http.Descriptor.{Collection}
use dalgo2http.Provenance.{Provenance, provenance_of, snapshot}
use dalgo2http.Decoder.{decode_rows}
use dalgo2http.Decoder.Replay.{decode_rows-json}
use dalgo2http.Request.{Env, World}
use dalgo2http.Snapshot.{snapshot_key, read_snapshot, Disk, record_snapshot}
use dalgo2http.Snapshot.Recorded.{IsRecorded, record_snapshot-IsRecorded}
use dalgo2http.Snapshot.Names.{SameMap}
use dalgo2http.Database.Maps.{fetch_rows-SameMap}
use dalgo2http.Database.{
  Read, snapshot_only, Database, with_provenance, serve_snapshot, fetch_snapshot, fetch_by_mode,
  fetch_rows,
}

-- Decoding an encoded envelope gives back its status and its time, and a body of the same JSON value
-- (encoding/json writes a json.RawMessage compactly, so the text may differ).
abbrev pub KeepsEnvelopes : Go → Type 0
KeepsEnvelopes g =
    (e : SnapshotEnvelope) (content : Bytes)
    → g.marshal_envelope e ≡ ok content
    → (e' : SnapshotEnvelope) × (g.unmarshal_envelope content ≡ ok e')
      × (e'.status_code ≡ e.status_code)
      × (e'.fetched_at ≡ e.fetched_at)
      × (g.json_unmarshal e'.body ≡ g.json_unmarshal e.body)

module _ (g : Go) (env : Env) (disk : Disk) (ctx : Context) (client : Option HttpClient)
    (coll : Collection) (params : Dict String) (dir : String) (w : World) (path : String)
    (content : Bytes) where
  -- the rows and provenance of a snapshot of what a recording fetched
  pub served :
      IsRecorded g env disk ctx client coll params dir w path content
      → Result (List Row × Provenance)
  served r =
      with_provenance
        (provenance_of coll.name snapshot r.fetched.status_code (env.now r.behind.requests))
        (decode_rows g r.fetched.body coll)

  module _ (d : Database) (fsys : String → Result Bytes) (later : Context) (w₂ : World) where
    serves_recorded :
        (r : IsRecorded g env disk ctx client coll params dir w path content)
        → KeepsEnvelopes g
        → d.snapshots ≡ some fsys
        → fsys (snapshot_key g coll.name params) ≡ ok content
        → (fetch_by_mode g env d later snapshot_only coll params w₂).0 ≡ served r
    unfolding fetch_by_mode fetch_snapshot serve_snapshot read_snapshot served
    serves_recorded r keeps stored placed =
        let (e', unmarshalled, status, at, value) = keeps _ content r.encoded in
        rw (stored, read_snapshot, placed, unmarshalled, fetch_snapshot, serve_snapshot)
          (ap (with_provenance _) (decode_rows-json g e'.body r.fetched.body coll r.allowed value)
            ∙ ap
                (λ (x : ℕ).
                  with_provenance (provenance_of coll.name snapshot x e'.fetched_at)
                    (decode_rows g r.fetched.body coll))
                status
            ∙ ap
                (λ (x : ℕ).
                  with_provenance (provenance_of coll.name snapshot r.fetched.status_code x)
                    (decode_rows g r.fetched.body coll))
                at)

    -- Where decoding an encoded envelope gives back its status, its time and the JSON value of its body:
    -- when `Record` succeeds and its file is found under the name of the snapshot, a database that only
    -- serves snapshots, asked for the same parameters in whatever order, returns what the recorded
    -- answer decodes to, with its status and time.
    pub fetch_rows-record_snapshot :
        (asked : Dict String)
        → SameMap asked params
        → KeepsEnvelopes g
        → d.mode ≡ snapshot_only
        → d.snapshots ≡ some fsys
        → fsys (snapshot_key g coll.name params) ≡ ok content
        → (record_snapshot g env disk ctx client coll params dir w).0 ≡ ok (path, content)
        → (r : IsRecorded g env disk ctx client coll params dir w path content) × ((fetch_rows g env
              d later coll asked w₂).0
            ≡ served r)
    unfolding fetch_rows
    fetch_rows-record_snapshot asked same keeps mode stored placed recorded =
        let r =
          record_snapshot-IsRecorded g env disk ctx client coll params dir w path content
            recorded in
        (
          r,
          ap (λ (x : Read (List Row × Provenance)). x.0)
                (fetch_rows-SameMap g env d later coll asked params w₂ same)
              ∙ rw mode (serves_recorded r keeps stored placed),
        )
