-- ===== src/Database/Served.antt =====
-- What a taken response of the live answer leads to, in database.go and request.go.
use dalgo2http.Prelude.{
  ◌≤◌, ◌<◌, String, ◌≡◌, refl, ◌∙◌, ap, true, false, List, [], ◌∷◌, ◌++◌, none, some, Dict, length,
}
use dalgo2http.Context.{Context}
use dalgo2http.Errors.{Result, ok}
use dalgo2http.Value.{Row}
use dalgo2http.Runtime.{Go}
use dalgo2http.Descriptor.{Collection, live_only_decoder}
use dalgo2http.Provenance.{Provenance, provenance_of, live}
use dalgo2http.Decoder.{decode_rows}
use dalgo2http.Request.Build.{build_url}
use dalgo2http.Request.{
  Env, World, Live, HttpResponse, make_request, response_byte_limit, has_long_header,
}
use dalgo2http.Request.Issued.{do_live_fetch-answered}
use dalgo2http.Request.Classes.{observed, receive_taken}
use dalgo2http.Decoder.Total.{decode_rows-HasDate}
use dalgo2http.Snapshot.{snapshot_key}
use dalgo2http.Database.Online.{is_online, live_answer, fetch_rows-after_live}
use dalgo2http.Database.{
  Read, Database, serve_live, live_rows, completed, observation_or, after_live, fetch_rows,
}
use dalgo2http.Database.Observed.{IsLive, complete-IsLive}

-- The request of a collection for a URL is built and answered by a whole response within the limit,
-- of a status below 400, whose body decodes to the rows; for a live-only profile its observed headers
-- are at most 1024 bytes long.
pub record ServedWith (g : Go) (env : Env) (d : Database) (ctx : Context) (coll : Collection)
    (params : Dict String) (w : World) (rows : List Row) : Type 0 where
  pub url : String
  pub resp : HttpResponse
  pub built : build_url g coll params ≡ ok url
  pub accepted : g.new_request url ≡ ok tt
  pub answered : env.client_do w.requests (make_request g env ctx d.client coll url) ≡ ok resp
  pub whole : resp.body_error ≡ none
  pub small : length resp.body ≤ response_byte_limit coll.decoder
  pub taken : resp.status_code < 400
  pub short : live_only_decoder coll.decoder ≡ true → has_long_header resp ≡ false
  pub decoded : decode_rows g resp.body coll ≡ ok rows

module _ (g : Go) (env : Env) (d : Database) (ctx : Context) (coll : Collection)
    (params : Dict String) (w : World) (rows : List Row)
    (s : ServedWith g env d ctx coll params w rows) where
  -- the world behind the request
  abbrev pub world_behind : World
  world_behind = record w {
    requests = w.requests ++ make_request g env ctx d.client coll s.url ∷ [];
  }

  abbrev received : Live
  received = record {
    body = s.resp.body;
    status_code = s.resp.status_code;
    observation = some (observed g coll s.url s.resp (provenance_of coll.name live 0 0));
  }

  live_answer_taken :
      live_answer g env d ctx coll params w s.url s.built ≡ (ok received, world_behind)
  live_answer_taken =
      do_live_fetch-answered g env ctx d.client coll s.url _ w s.resp s.accepted s.answered
      ∙ ap (λ (r : Result Live). (r, world_behind))
          (receive_taken g coll s.url (provenance_of coll.name live 0 0) s.resp s.small s.whole
            s.taken s.short)

  -- In every mode that asks the network: where the request is built and is answered by a whole response
  -- within the limit, of a status below 400, and the body decodes, the read returns the decoded rows
  -- with the provenance of a live answer: the collection, the response's status and the time behind
  -- the request; and for a live-only profile, whose observed headers are at most 1024 bytes long, the
  -- decoder, the URL, these headers, and the sum and the length of the body, and for the ECB's the base
  -- currency and the date of the first row.
  pub fetch_rows-serves :
      is_online d.mode ≡ true
      → (p : Provenance) × ((fetch_rows g env d ctx coll params w).0 ≡ ok (rows, p))
        × IsLive g coll s.url s.resp (env.now world_behind.requests) rows p
  unfolding after_live serve_live live_rows completed observation_or
  fetch_rows-serves online =
      let (p, completes, is_live) =
        complete-IsLive g coll s.url s.resp (env.now world_behind.requests) coll.decoder rows refl
          (decode_rows-HasDate g s.resp.body coll rows s.decoded) in
      (
        p,
        ap (λ (r : Read (List Row × Provenance)). r.0)
              (fetch_rows-after_live g env d ctx coll params w s.url s.built online
                ∙ ap
                    (after_live g env d ctx coll (snapshot_key g coll.name params)
                      (provenance_of coll.name live 0 0))
                    live_answer_taken)
            ∙ rw (s.decoded, live_rows, completes, completed) refl,
        is_live,
      )
