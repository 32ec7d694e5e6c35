-- ===== src/Samples/Failing.antt =====
-- Runs in which the network fails, or nothing may.
use dalgo2http.Prelude.{ℕ, ◌≡◌, refl, true, [], ◌∷◌, Dict, String, ◌≤◌, arith, lookup}
use dalgo2http.Errors.{Error, error_is, upstream_client, ok, err, Raises}
use dalgo2http.Runtime.{SnapshotEnvelope}
use dalgo2http.Descriptor.{pieces}
use dalgo2http.Provenance.{provenance_of, snapshot}
use dalgo2http.JsonPath.{segments, navigate, rows_of, extract_rows}
use dalgo2http.Decoder.{decode_rows}
use dalgo2http.Decoder.Total as Decoders
use dalgo2http.EcbXml.{decode_ecb_daily}
use dalgo2http.EcbXml.Failures.{IsXmlError, decode_ecb_daily-IsXmlError}
use dalgo2http.Request.Build.{build_url}
use dalgo2http.Request.{response_byte_limit, Env}
use dalgo2http.Snapshot.{snapshot_key, read_snapshot}
use dalgo2http.Database.{fetch_rows}
use dalgo2http.Database.Fallback.{FailsWith, fetch_rows-falls_back, fetch_rows-fails}
use dalgo2http.Reads.Total as Reads
use dalgo2http.Samples.{
  sample_go, sample_row, sample_collection, sample_env, sample_response, sample_world,
  sample_context, online,
}

decode_ecb_daily-IsXmlError_example : Raises IsXmlError (decode_ecb_daily sample_go (60 ∷ []))
decode_ecb_daily-IsXmlError_example = decode_ecb_daily-IsXmlError sample_go (60 ∷ []) tt

abbrev asked : Dict String
asked = ("base", "EUR") ∷ []

-- every request is answered by one status
abbrev answering : ℕ → Env
answering status = record sample_env {
  client_do = λ before req. ok (record sample_response { status_code = status });
}

builds : build_url sample_go sample_collection asked ≡ ok "https://api.example/rates/EUR"
unfolding build_url pieces lookup
builds = refl

within : 2 ≤ response_byte_limit sample_collection.decoder
unfolding response_byte_limit
within = omega arith

unavailable :
    FailsWith sample_go
      (answering 503)
      online
      sample_context
      sample_collection
      asked
      sample_world
      (record sample_response { status_code = 503 })
unavailable = record {
  url = "https://api.example/rates/EUR";
  built = builds;
  accepted = refl;
  answered = refl;
  whole = refl;
  small = within;
  failed = omega arith;
}

missing :
    FailsWith sample_go
      (answering 404)
      online
      sample_context
      sample_collection
      asked
      sample_world
      (record sample_response { status_code = 404 })
missing = record {
  url = "https://api.example/rates/EUR";
  built = builds;
  accepted = refl;
  answered = refl;
  whole = refl;
  small = within;
  failed = omega arith;
}

abbrev kept : SnapshotEnvelope
kept = record { fetched_at = 7; status_code = 200; body = 123 ∷ 125 ∷ [] }

reads_kept :
    read_snapshot sample_go online.snapshots (snapshot_key sample_go "rates" asked) ≡ ok kept
unfolding read_snapshot
reads_kept = refl

decodes_kept : decode_rows sample_go kept.body sample_collection ≡ ok (sample_row ∷ [])
unfolding decode_rows extract_rows segments navigate rows_of
decodes_kept = refl

fetch_rows-falls_back_example :
    (fetch_rows sample_go
      (answering 503)
      online
      sample_context
      sample_collection
      asked
      sample_world).0
    ≡ ok (sample_row ∷ [], provenance_of "rates" snapshot 200 7)
fetch_rows-falls_back_example =
    fetch_rows-falls_back sample_go (answering 503) online sample_context sample_collection asked
      sample_world (record sample_response { status_code = 503 }) unavailable kept (sample_row ∷ [])
      refl refl reads_kept decodes_kept

fetch_rows-fails_example :
    (e : Error) × ((fetch_rows sample_go
        (answering 404)
        online
        sample_context
        sample_collection
        asked
        sample_world).0
      ≡ err e)
    × (error_is e upstream_client ≡ true)
fetch_rows-fails_example =
    fetch_rows-fails sample_go (answering 404) online sample_context sample_collection asked
      sample_world (record sample_response { status_code = 404 }) missing refl refl
