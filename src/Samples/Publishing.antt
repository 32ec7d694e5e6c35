-- ===== src/Samples/Publishing.antt =====
-- Reads of live-only profiles: the daily rates of the European Central Bank.
use dalgo2http.Prelude.{
  ◌≡◌, refl, [], ◌∷◌, lookup, arith, All, true, none, some, has_key, insert, flag,
}
use dalgo2http.Errors.{ok}
use dalgo2http.Descriptor.{Collection, ecb_euro_fx_ref, live_only_decoder, pieces, placeholders}
use dalgo2http.Provenance.{Provenance, provenance_of, live}
use dalgo2http.Decoder.{decode_rows}
use dalgo2http.Request.{
  Env, HttpResponse, response_byte_limit, has_long_header, do_live_fetch, receive,
}
use dalgo2http.Request.Build.{build_url}
use dalgo2http.Database.{fetch_rows, Database, live_only, observe}
use dalgo2http.Database.Served.{ServedWith, fetch_rows-serves}
use dalgo2http.Database.Observed.{IsLive}
use dalgo2http.Samples.{
  sample_go, sample_collection, sample_response, sample_env, sample_world, sample_context, online,
}
use dalgo2http.Samples.Reading.{usd, csv_body, decodes_ecb}
use dalgo2http.Value.{pos}
use dalgo2http.EcbXml.{decode_ecb_daily}
use dalgo2http.EcbXml.Dates.{Bears}
use dalgo2http.Database.Dates.{fetch_rows-Bears}
use dalgo2http.EcbXml.Lexical.{is_currency_code, is_lexical_decimal, is_trimmed_away}
use dalgo2http.Snapshot.{keys}
use dalgo2http.Security.{new_default_client}
use dalgo2http.Config.{Config, is_secret_like_name, new_db, validate_config, validate}
use dalgo2http.Config.LiveOnly.{new_db-live}

abbrev rates_collection : Collection
rates_collection = record sample_collection { decoder = ecb_euro_fx_ref }

abbrev published : HttpResponse
published = record sample_response { body = csv_body }

abbrev publishing : Env
publishing = record sample_env { client_do = λ before req. ok published }

rates_url :
    build_url sample_go rates_collection (("base", "EUR") ∷ []) ≡ ok "https://api.example/rates/EUR"
unfolding build_url pieces lookup
rates_url = refl

abbrev serves_quotes :
    ServedWith sample_go publishing online sample_context rates_collection
      (("base", "EUR") ∷ [])
      sample_world
      (usd ∷ [])
unfolding lookup live_only_decoder has_long_header response_byte_limit decode_rows
serves_quotes = record {
  url = "https://api.example/rates/EUR";
  resp = published;
  built = rates_url;
  accepted = refl;
  answered = refl;
  whole = refl;
  small = omega arith;
  taken = omega arith;
  short = λ h. refl;
  decoded = decodes_ecb;
}

fetch_rows-serves_example :
    (p : Provenance) × ((fetch_rows sample_go publishing online sample_context rates_collection
        (("base", "EUR") ∷ [])
        sample_world).0
      ≡ ok (usd ∷ [], p))
    × IsLive sample_go rates_collection "https://api.example/rates/EUR" published 1 (usd ∷ []) p
unfolding serves_quotes
fetch_rows-serves_example =
    fetch_rows-serves sample_go publishing online sample_context rates_collection
      (("base", "EUR") ∷ []) sample_world (usd ∷ []) serves_quotes refl

-- a collection with the ECB's document
abbrev daily : Collection
daily = record sample_collection {
  name = "daily";
  decoder = ecb_euro_fx_ref;
  url_template = "https://api.example/daily.xml";
  params = [];
  key_field = "currency";
  timeout = pos 1;
}

abbrev daily_config : Config
daily_config = record {
  collections = daily ∷ [];
  client = none;
  snapshots = none;
  mode = live_only;
}

abbrev daily_database : Database
daily_database = record {
  collections = ("daily", daily) ∷ [];
  client = some new_default_client;
  snapshots = none;
  mode = live_only;
}

makes_daily : new_db sample_go daily_config ≡ ok daily_database
unfolding new_db validate_config validate pieces placeholders has_key lookup insert flag
    is_secret_like_name keys live_only_decoder
makes_daily = refl

abbrev daily_provenance : Provenance
daily_provenance = record (provenance_of "daily" live 200 1) {
  decoder = ecb_euro_fx_ref;
  base_currency = "EUR";
  reference_date = "2024-05-17";
  upstream_url = "https://api.example/daily.xml";
  sha256 = "e3b0";
  bytes = 2;
}

reads_daily :
    (fetch_rows sample_go sample_env daily_database sample_context daily [] sample_world).0
    ≡ ok (usd ∷ [], daily_provenance)
unfolding fetch_rows build_url pieces lookup do_live_fetch receive live_only_decoder observe
    decode_rows decode_ecb_daily is_currency_code is_lexical_decimal is_trimmed_away insert flag
reads_daily = refl

finds_daily : lookup "daily" daily_database.collections ≡ some daily
unfolding lookup
finds_daily = refl

is_live_only : live_only_decoder daily.decoder ≡ true
unfolding live_only_decoder
is_live_only = refl

new_db-live_example : daily_provenance.source ≡ live
new_db-live_example =
    new_db-live sample_go sample_env daily_config daily_database "daily" daily sample_context []
      sample_world (usd ∷ []) daily_provenance makes_daily finds_daily is_live_only reads_daily

fetch_rows-Bears_example :
    All (Bears daily_provenance.reference_date) (usd ∷ [])
    × (daily_provenance.base_currency ≡ "EUR")
fetch_rows-Bears_example =
    fetch_rows-Bears sample_go sample_env daily_database sample_context daily refl [] sample_world
      (usd ∷ []) daily_provenance reads_daily refl
