-- ===== src/Examples.antt =====
-- examples/countries/countries.go and examples/frankfurter/frankfurter.go: two collections that come
-- with the library.
pub mod Accepted
use dalgo2http.Prelude.{String, List, [], ◌∷◌, false}
use dalgo2http.Value.{pos}
use dalgo2http.Descriptor.{Method, query, Decoder, Collection}

-- countries.go: `Collection`; the timeout is in nanoseconds
abbrev pub countries : Collection
countries = record {
  name = "countries";
  decoder = Decoder.unset;
  url_template = "https://countriesnow.space/api/v0.1/countries/currency/q?country={name}";
  method = Method.unset;
  params = ("name", record { location = query }) ∷ [];
  rows_path = "data";
  key_field = "name";
  headers = [];
  timeout = pos 10000000000;
  client_side_filter = false;
  insecure_allow_loopback = false;
}

-- frankfurter.go: `Collection`
abbrev pub exchange_rates : Collection
exchange_rates = record {
  name = "exchange-rates";
  decoder = Decoder.unset;
  url_template = "https://api.frankfurter.dev/v1/latest?base=USD&symbols={to}";
  method = Method.unset;
  params = ("to", record { location = query }) ∷ [];
  rows_path = "";
  key_field = "base";
  headers = [];
  timeout = pos 10000000000;
  client_side_filter = false;
  insecure_allow_loopback = false;
}
