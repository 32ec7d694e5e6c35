-- ===== src/Database/Fallback.antt =====
-- What a failing status of the live answer leads to.
use dalgo2http.Prelude.{
  ◌≤◌, ◌||◌, String, ◌++◌, [], ◌∷◌, ◌≡◌, refl, ◌∙◌, ap, Bool, true, false, not, List, none, some,
  Dict, leb, nat_eq, length,
}
use dalgo2http.Context.{Context}
use dalgo2http.Errors.{Error, error_is, upstream, upstream_client, Result, ok, err}
use dalgo2http.Value.{Row}
use dalgo2http.Runtime.{Go, SnapshotEnvelope}
use dalgo2http.Descriptor.{Collection}
use dalgo2http.Provenance.{Provenance, provenance_of, live, snapshot}
use dalgo2http.Decoder.{decode_rows}
use dalgo2http.Request.Build.{build_url}
use dalgo2http.Request.{Env, World, Live, HttpResponse, make_request, response_byte_limit}
use dalgo2http.Request.Issued.{do_live_fetch-answered}
use dalgo2http.Request.Classes.{receive_class}
use dalgo2http.Snapshot.{snapshot_key, read_snapshot}
use dalgo2http.Database.Online.{is_online, live_answer, fetch_rows-fallback, fetch_rows-client}
use dalgo2http.Database.{
  Read, live_then_snapshot, Database, serve_snapshot, with_provenance, snapshot_or_error, fallback,
  fetch_rows,
}

-- The request of a collection for a URL is built and answered by a whole response within the limit,
-- whose status is a failure.
pub record FailsWith (g : Go) (env : Env) (d : Database) (ctx : Context) (coll : Collection)
    (params : Dict String) (w : World) (resp : HttpResponse) : Type 0 where
  pub url : String
  pub built : build_url g coll params ≡ ok url
  pub accepted : g.new_request url ≡ ok tt
  pub answered : env.client_do w.requests (make_request g env ctx d.client coll url) ≡ ok resp
  pub whole : resp.body_error ≡ none
  pub small : length resp.body ≤ response_byte_limit coll.decoder
  pub failed : 400 ≤ resp.status_code

-- server errors and 429
abbrev pub is_transient : HttpResponse → Bool
is_transient resp = leb 500 resp.status_code || nat_eq resp.status_code 429

module _ (g : Go) (env : Env) (d : Database) (ctx : Context) (coll : Collection)
    (params : Dict String) (w : World) (resp : HttpResponse)
    (f : FailsWith g env d ctx coll params w resp) where
  -- the world behind the request
  abbrev behind : World
  behind = record w { requests = w.requests ++ make_request g env ctx d.client coll f.url ∷ [] }

  live_answer_failed :
      (e : Error) × (live_answer g env d ctx coll params w f.url f.built ≡ (err e, behind))
      × (error_is e upstream ≡ is_transient resp)
      × (error_is e upstream_client ≡ not (is_transient resp))
  live_answer_failed =
      let (e, same, up, down) =
        receive_class g coll f.url (some (provenance_of coll.name live 0 0)) resp f.small f.whole
          f.failed in
      (
        e,
        do_live_fetch-answered g env ctx d.client coll f.url _ w resp f.accepted f.answered
            ∙ ap (λ (r : Result Live). (r, behind)) same,
        up,
        down,
      )

  -- In the mode live, then snapshot: where the request is built and is answered by a whole response
  -- within the limit, of a failing status that is transient (429, or 500 and above), and there is a
  -- snapshot that can be read and decoded, the read returns its rows and its provenance.
  pub fetch_rows-falls_back :
      (snap : SnapshotEnvelope) (rows : List Row)
      → d.mode ≡ live_then_snapshot
      → is_transient resp ≡ true
      → read_snapshot g d.snapshots (snapshot_key g coll.name params) ≡ ok snap
      → decode_rows g snap.body coll ≡ ok rows
      → (fetch_rows g env d ctx coll params w).0
        ≡ ok (rows, provenance_of coll.name snapshot snap.status_code snap.fetched_at)
  unfolding fallback snapshot_or_error serve_snapshot with_provenance
  fetch_rows-falls_back snap rows mode transient stored decoded =
      let (e, failed, _, lasting) = live_answer_failed in
      ap (λ (r : Read (List Row × Provenance)). r.0)
        (fetch_rows-fallback g env d ctx coll params w f.url f.built e behind (rw mode refl) failed)
      ∙ rw (mode, lasting, transient, fallback, stored, snapshot_or_error, decoded, with_provenance)
          refl

  -- In every mode that asks the network: where the request is built and is answered by a whole response
  -- within the limit, of a failing status that is not transient, the read fails with an error of the
  -- client's class, whatever snapshots there are.
  pub fetch_rows-fails :
      is_online d.mode ≡ true
      → is_transient resp ≡ false
      → (e : Error) × ((fetch_rows g env d ctx coll params w).0 ≡ err e)
        × (error_is e upstream_client ≡ true)
  fetch_rows-fails online lasting =
      let (e, failed, _, down) = live_answer_failed in
      let client : error_is e upstream_client ≡ true = down ∙ rw lasting refl in
      (
        e,
        ap (λ (r : Read (List Row × Provenance)). r.0)
            (fetch_rows-client g env d ctx coll params w f.url f.built e behind online failed
              client),
        client,
      )
