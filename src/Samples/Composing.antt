-- ===== src/Samples/Composing.antt =====
-- Runs of the parts together: a guarded client below a read, a live read, and a query by the key.
use dalgo2http.Prelude.{
  some, ℕ, true, ◌≡◌, refl, ap, String, [], ◌∷◌, lookup, insert, has_key, arith,
}
use dalgo2http.Errors.{Error, errorf, Result, ok, err, panic}
use dalgo2http.Value.{str}
use dalgo2http.Dal.{structured}
use dalgo2http.Filter.{is_absent}
use dalgo2http.Security.{guarded_dial_context}
use dalgo2http.Context.{context_with_insecure_loopback}
use dalgo2http.Request.{
  Env, World, HttpResponse, make_request, do_live_fetch, receive, response_byte_limit,
  has_long_header,
}
use dalgo2http.Descriptor.{pieces, live_only_decoder}
use dalgo2http.Provenance.{provenance_of, live}
use dalgo2http.Samples.Asking.{local_is_blocked}
use dalgo2http.Request.Build.{build_url}
use dalgo2http.Request.Clients.{IsDenial}
use dalgo2http.Query.{
  plan_query, find_collection, refuse_unsupported, column_field_names, collect_equalities,
  stringify_param, Record, rows_to_records,
}
use dalgo2http.Decoder.{decode_rows}
use dalgo2http.JsonPath.{extract_rows, segments, navigate, rows_of}
use dalgo2http.Database.{observe, fetch_rows, serve_live, after_live}
use dalgo2http.Database.Guarded.{HttpLaws, IsDenied, blocked, fetch_rows-IsDenial}
use dalgo2http.Database.Served.{ServedWith}
use dalgo2http.Reads.Keys.{by_key, exists-query}
use dalgo2http.Reads.{exists, execute_query_to_records_reader, shape_rows, limit_records}
use dalgo2http.Samples.{
  sample_go, sample_row, sample_value, sample_collection, sample_env, sample_world, sample_context,
  sample_response, sample_network, online,
}

-- the address of every URL, and no URL redirects
abbrev local_address : String → String
local_address url = "127.0.0.1:80"

abbrev Never : String → Type 0
Never url = ⊥

-- a client below which the guarded dialer opens the connections
abbrev after_dial : Result ℕ → Result HttpResponse
after_dial (ok connection) = ok sample_response
after_dial (err e) = err (errorf "Get %q: %w" e)
after_dial panic = panic

abbrev dialling : Env
dialling = record sample_env {
  client_do = λ before req.
      after_dial
        (guarded_dial_context sample_go sample_network
          (record { insecure_loopback = req.loopback; observer = some 0 }) "tcp"
          (local_address req.url)).0;
}

dialling_laws : HttpLaws sample_go sample_network dialling (some 0) local_address Never sample_world
dialling_laws = record {
  dials = λ req e transport failed. (errorf "Get %q: %w" e, ap after_dial failed, λ s h. h);
  checks = λ req e denies same redirects. absurd redirects;
}

denies_local :
    IsDenied sample_go sample_network online sample_context sample_collection local_address Never
      "https://api.example/rates/EUR"
unfolding context_with_insecure_loopback
denies_local = blocked "127.0.0.1" "80" [] refl refl refl local_is_blocked

builds :
    build_url sample_go sample_collection (("base", "EUR") ∷ [])
    ≡ ok "https://api.example/rates/EUR"
unfolding build_url pieces lookup
builds = refl

fetch_rows-IsDenial_example :
    (e : Error) × ((fetch_rows sample_go dialling online sample_context sample_collection
        (("base", "EUR") ∷ [])
        sample_world).0
      ≡ err e)
    × IsDenial e
    × ((fetch_rows sample_go dialling online sample_context sample_collection
          (("base", "EUR") ∷ [])
          sample_world).1.observed
        ≡ [])
fetch_rows-IsDenial_example =
    fetch_rows-IsDenial sample_go sample_network dialling online sample_context sample_collection
      local_address Never sample_world "https://api.example/rates/EUR" (("base", "EUR") ∷ []) refl
      builds refl dialling_laws denies_local

abbrev sample_record : Record
sample_record = record { collection = "rates"; id = "EUR"; value = sample_value }

abbrev serves :
    ServedWith sample_go sample_env online sample_context sample_collection
      (("base", "EUR") ∷ [])
      sample_world
      (sample_row ∷ [])
unfolding lookup live_only_decoder has_long_header response_byte_limit decode_rows extract_rows
    segments navigate rows_of
serves = record {
  url = "https://api.example/rates/EUR";
  resp = sample_response;
  built = builds;
  accepted = refl;
  answered = refl;
  whole = refl;
  small = omega arith;
  taken = omega arith;
  short = λ h. refl;
  decoded = refl;
}

abbrev behind_query : World
behind_query = record {
  requests =
      make_request sample_go sample_env sample_context online.client sample_collection
        "https://api.example/rates/EUR"
      ∷ [];
  observed = (0, provenance_of "rates" live 200 1) ∷ [];
}

finds : find_collection online.collections "rates" ≡ ok sample_collection
unfolding find_collection lookup
finds = refl

declares : has_key "base" sample_collection.params ≡ true
unfolding has_key lookup
declares = refl

queries_key :
    execute_query_to_records_reader sample_go sample_env online sample_context
      (structured (by_key "rates" "base" "EUR"))
      sample_world
    ≡ (ok (sample_record ∷ []), behind_query)
unfolding execute_query_to_records_reader plan_query find_collection refuse_unsupported
    column_field_names collect_equalities stringify_param lookup insert has_key is_absent fetch_rows
    build_url pieces make_request do_live_fetch after_live receive live_only_decoder
    response_byte_limit serve_live observe decode_rows extract_rows segments navigate rows_of
    shape_rows rows_to_records limit_records
queries_key = refl

exists-query_example :
    exists sample_go sample_env online sample_context "rates" (str "EUR") sample_world
    ≡ (ok true, behind_query)
exists-query_example =
    exists-query sample_go sample_env online sample_context "rates" "EUR" sample_collection finds
      declares (sample_record ∷ []) sample_world behind_query refl queries_key
