-- ===== src/Config.antt =====
-- config.go, and `NewDB` of database.go.
pub mod Decoders
pub mod Valid
pub mod Profiles
pub mod Accepts
pub mod Databases
pub mod Index
pub mod Loading
pub mod LiveOnly
pub mod Failures
use Prim.Native.String
use dalgo2http.Prelude.{
  ℕ, String, Char, code, Bool, true, false, not, ◌&&◌, ◌||◌, List, [], ◌∷◌, ◌++◌, Option, none,
  some, nat_eq, ltb, if◌then◌else◌, ◌==◌, Dict, lookup, insert, has_key, flag, is_empty, any,
}
use dalgo2http.Errors.{
  Error, sentinel, errorf, invalid_config, Result, ok, err, panic, ◌>>=◌, ◌>>◌, fail_if,
}
use dalgo2http.Value.{ℤ, pos, negsuc}
use dalgo2http.Runtime.{Go, Url}
use dalgo2http.Descriptor.{
  Method, ParamLocation, path, query, Decoder, unset, json, ecb_euro_fx_ref, strict_csv3,
  live_only_decoder, Param, Collection, pieces, placeholders,
}
use dalgo2http.Query.{is_positive}
use dalgo2http.Request.Build.{is_query}
use dalgo2http.Security.{is_loopback, HttpClient, client_or_default}
use dalgo2http.Snapshot.{Store, keys}
use dalgo2http.Config.Decoders.{config_error, parsed_or, validate_decoder}
use dalgo2http.Database.{Mode, live_only, live_then_snapshot, Database}

-- `Config`
pub record Config : Type 0 where
  pub collections : List Collection
  pub client : Option HttpClient
  pub snapshots : Option Store
  pub mode : Mode

abbrev pub is_path : ParamLocation → Bool
is_path path = true
is_path _ = false

abbrev pub is_supported : Method → Bool
is_supported (Method.other m) = false
is_supported _ = true

check_locations : Dict Param → Result (Unit {0})
check_locations [] = ok tt
check_locations ((name, p) ∷ rest) = do
  fail_if (not (is_path p.location) && not (is_query p.location))
      (config_error "%w: collection %q: param %q has location %q, want %q or %q")
  check_locations rest

-- the loop over the placeholders, with `seen`
check_placeholders : Dict Param → List String → Dict Bool → Result (Dict Bool)
check_placeholders params [] seen = ok seen
check_placeholders params (name ∷ rest) seen = do
  fail_if (not (has_key name params))
      (config_error "%w: collection %q: urlTemplate references undeclared parameter %q")
  check_placeholders params rest (insert name true seen)

check_paths : Dict Param → Dict Bool → Result (Unit {0})
check_paths [] seen = ok tt
check_paths ((name, p) ∷ rest) seen = do
  fail_if (is_path p.location && not (flag name seen))
      (config_error "%w: collection %q: path parameter %q does not appear in urlTemplate")
  check_paths rest seen

check_headers : Dict String → Result (Unit {0})
check_headers [] = ok tt
check_headers ((header, env_var) ∷ rest) = do
  fail_if (header == "" || env_var == "") (
      config_error
        "%w: collection %q: headers entries require both a header name and an environment variable name")
  check_headers rest

unfoldable pub is_loopback_host : Go → String → Bool
is_loopback_host g host =
    g.equal_fold host "localhost"
    || elim (g.parse_ip host) [ none ↦ false | some ip ↦ is_loopback ip ]

validate_scheme : Go → Collection → Url → Result (Unit {0})
unfolding is_loopback_host
validate_scheme g coll parsed =
    if parsed.scheme == "https"
    then ok tt
    else if parsed.scheme == "http"
    then (do
      fail_if (not coll.insecure_allow_loopback) (
          config_error
            "%w: collection %q: urlTemplate must use https:// (got %q); set InsecureAllowLoopback (test-only) for a loopback httptest server")
      fail_if (not (is_loopback_host g parsed.hostname)) (
          config_error
            "%w: collection %q: InsecureAllowLoopback only permits a loopback host (127.0.0.1, ::1, localhost), got %q"))
    else err (
        config_error
          "%w: collection %q: urlTemplate scheme %q is not supported (want https://, or http:// with InsecureAllowLoopback set for a loopback test server)")

-- `strings.Contains(s, p)`
unfoldable pub has_prefix : String → String → Bool
has_prefix String.[] s = true
has_prefix (String.◌∷◌ c p) String.[] = false
has_prefix (String.◌∷◌ c p) (String.◌∷◌ d s) = nat_eq (code c) (code d) && has_prefix p s

unfoldable pub contains : String → String → Bool
unfolding has_prefix
contains p String.[] = has_prefix p String.[]
contains p (String.◌∷◌ c s) = has_prefix p (String.◌∷◌ c s) || contains p s

abbrev pub secret_query_key_markers : List String
secret_query_key_markers =
    "token" ∷ "apikey" ∷ "api_key" ∷ "secret" ∷ "password" ∷ "authorization" ∷ []

unfoldable pub is_secret_like_name : Go → String → Bool
unfolding contains
is_secret_like_name g name =
    any (λ marker. contains marker (g.to_lower name)) secret_query_key_markers

check_query_params : Go → Dict Param → Result (Unit {0})
unfolding is_secret_like_name
check_query_params g [] = ok tt
check_query_params g ((name, p) ∷ rest) = do
  fail_if (is_query p.location && is_secret_like_name g name) (
      config_error
        "%w: collection %q: query parameter %q looks like a credential name; secrets must never be sent in a query string — use Headers (an environment variable) instead")
  check_query_params g rest

check_query_keys : Go → List String → Result (Unit {0})
unfolding is_secret_like_name
check_query_keys g [] = ok tt
check_query_keys g (key ∷ rest) = do
  fail_if (is_secret_like_name g key) (
      config_error
        "%w: collection %q: urlTemplate's query string has a parameter named %q, which looks like a credential; secrets must never be sent in a query string")
  check_query_keys g rest

validate_no_secrets : Go → Collection → Url → Result (Unit {0})
unfolding check_query_params check_query_keys keys
validate_no_secrets g coll parsed = do
  check_query_params g coll.params
  check_query_keys g (keys (g.url_query parsed))

unfoldable pub validate : Go → Collection → Result (Unit {0})
unfolding validate_decoder check_locations check_placeholders check_paths check_headers
    validate_scheme validate_no_secrets
validate g coll = do
  validate_decoder g coll.decoder coll
  fail_if (coll.name == "") (config_error "%w: collection name is required")
  fail_if (coll.url_template == "") (config_error "%w: collection %q: urlTemplate is required")
  fail_if (not (is_supported coll.method)) (
      config_error
        "%w: collection %q: method %q is not supported, this adapter is read-only GET-only")
  fail_if (coll.key_field == "") (config_error "%w: collection %q: keyField is required")
  check_locations coll.params
  seen ← check_placeholders coll.params (placeholders (pieces coll.url_template)) []
  check_paths coll.params seen
  check_headers coll.headers
  parsed ←
      parsed_or (config_error "%w: collection %q: urlTemplate is not a valid URL: %v")
        (g.url_parse coll.url_template)
  validate_scheme g coll parsed
  validate_no_secrets g coll parsed

abbrev pub is_known : Mode → Bool
is_known (Mode.other m) = false
is_known _ = true

abbrev pub is_live : Mode → Bool
is_live live_only = true
is_live _ = false

abbrev pub has_store : Option Store → Bool
has_store none = false
has_store (some fsys) = true

-- the loop over the collections, with the index so far
index_loop : Go → Config → List Collection → Dict Collection → Result (Dict Collection)
index_loop g cfg [] index = ok index
index_loop g cfg (coll ∷ rest) index = do
  fail_if (live_only_decoder coll.decoder && (not (is_live cfg.mode) || has_store cfg.snapshots))
      (config_error "%w: collection %q: decoder %q requires live mode without a snapshot store")
  validate g coll
  fail_if (has_key coll.name index) (config_error "%w: duplicate collection name %q")
  index_loop g cfg rest (insert coll.name coll index)

unfoldable pub validate_config : Go → Config → Result (Dict Collection)
unfolding index_loop
validate_config g cfg = do
  fail_if (is_empty cfg.collections) (config_error "%w: at least one collection is required")
  fail_if (not (is_known cfg.mode)) (config_error "%w: mode %q is not one of %q, %q, %q")
  index_loop g cfg cfg.collections []

default_mode : Mode → Mode
default_mode Mode.unset = live_then_snapshot
default_mode m = m

-- `NewDB`
unfoldable pub new_db : Go → Config → Result Database
unfolding default_mode
new_db g cfg = do
  index ← validate_config g cfg
  ok (record {
    collections = index;
    client = some (client_or_default cfg.client);
    snapshots = cfg.snapshots;
    mode = default_mode cfg.mode;
  })
