-- ===== src/Config/Loading.antt =====
-- config.go: a configuration from the contents of a file, and what such a configuration can say.
pub mod Failures
use dalgo2http.Prelude.{
  String, ◌≡◌, refl, subst, Bool, true, false, List, [], ◌∷◌, none, some, arith, All, if◌then◌else◌,
  ◌==◌, Dict, lookup,
}
use dalgo2http.Errors.{Result, ok, ◌>>=◌, >>=-eq-ok, ok_inj}
use dalgo2http.Value.{ℤ, pos}
use dalgo2http.Security.{client_or_default}
use dalgo2http.Runtime.{Go, Url}
use dalgo2http.Descriptor.{Method, get, Decoder, Param, Collection}
use dalgo2http.Database.{Mode, unset, live_only, snapshot_only, live_then_snapshot, Database}
use dalgo2http.Config.Decoders.{config_error, parsed_or}
use dalgo2http.Config.{Config, default_mode, validate_config, new_db}
use dalgo2http.Config.Valid.{IsValid}
use dalgo2http.Config.Index.{validate_config-AllAllowed}

-- `collectionFile` and `configFile`
pub record CollectionFile : Type 0 where
  pub decoder : Decoder
  pub name : String
  pub url_template : String
  pub method : String
  pub params : Dict Param
  pub rows_path : String
  pub key_field : String
  pub headers : Dict String
  pub timeout : String
  pub client_side_filter : Bool

pub record ConfigFile : Type 0 where
  pub collections : List CollectionFile
  pub mode : String

-- `Method(…)` and `Mode(…)`
method_of : String → Method
method_of s = if s == "" then Method.unset else if s == "GET" then get else Method.other s

mode_of : String → Mode
mode_of s =
    if s == ""
    then unset
    else if s == "live"
    then live_only
    else if s == "snapshot"
    then snapshot_only
    else if s == "live-then-snapshot"
    then live_then_snapshot
    else Mode.other s

timeout_of : Go → String → Result ℤ
timeout_of g s =
    if s == ""
    then ok (pos 0)
    else parsed_or (config_error "%w: collection %q: invalid timeout %q: %v") (g.parse_duration s)

-- the collection of a file's entry, with its timeout
collection_of : CollectionFile → ℤ → Collection
unfolding method_of
collection_of cf timeout = record {
  name = cf.name;
  decoder = cf.decoder;
  url_template = cf.url_template;
  method = method_of cf.method;
  params = cf.params;
  rows_path = cf.rows_path;
  key_field = cf.key_field;
  headers = cf.headers;
  timeout = timeout;
  client_side_filter = cf.client_side_filter;
  insecure_allow_loopback = false;
}

collections_from : Go → List CollectionFile → Result (List Collection)
unfolding timeout_of collection_of
collections_from g [] = ok []
collections_from g (cf ∷ rest) = do
  timeout ← timeout_of g cf.timeout
  colls ← collections_from g rest
  ok (collection_of cf timeout ∷ colls)

unfoldable pub config_from_file : Go → ConfigFile → Result Config
unfolding collections_from mode_of
config_from_file g file = do
  colls ← collections_from g file.collections
  let cfg : Config = record {
    collections = colls;
    client = none;
    snapshots = none;
    mode = mode_of file.mode;
  }
  _ ← validate_config g cfg
  ok cfg

-- `LoadConfigYAML` and `LoadConfigJSON`, behind the parser of the format, which the message names
unfoldable pub load_config : Go → String → Result ConfigFile → Result Config
unfolding config_from_file
load_config g message decoded = do
  file ← parsed_or (config_error message) decoded
  config_from_file g file

collections_from-loopback :
    (g : Go) (files : List CollectionFile) (colls : List Collection)
    → collections_from g files ≡ ok colls
    → All (λ (c : Collection). c.insecure_allow_loopback ≡ false) colls
unfolding collections_from collection_of
collections_from-loopback g [] colls e =
    subst (All (λ (c : Collection). c.insecure_allow_loopback ≡ false)) (ok_inj [] colls e) tt
collections_from-loopback g (cf ∷ rest) colls e =
    let (timeout, _, e₁) = >>=-eq-ok (timeout_of g cf.timeout) _ e in
    let (others, later, same) = >>=-eq-ok (collections_from g rest) _ e₁ in
    subst (All (λ (c : Collection). c.insecure_allow_loopback ≡ false)) (ok_inj _ colls same)
      (refl, collections_from-loopback g rest others later)

-- the collection's template is an HTTPS URL
abbrev pub IsHttps : Go → Collection → Type 0
IsHttps g coll =
    (url : Url) × (g.url_parse coll.url_template ≡ ok url) × ((url.scheme == "https") ≡ true)

colls-IsHttps :
    (g : Go) (index : Dict Collection) (colls : List Collection)
    → ((k : String) (c : Collection) → lookup k index ≡ some c → IsValid g c)
    → All (λ (c : Collection). lookup c.name index ≡ some c) colls
    → All (λ (c : Collection). c.insecure_allow_loopback ≡ false) colls
    → All (IsHttps g) colls
colls-IsHttps g index [] valid placed closed = tt
colls-IsHttps g index (c ∷ rest) valid (here, placed) (shut, closed) =
    let v = valid c.name c here in
    let secure = v.secure in
    ((v.url, v.parses, ground arith), colls-IsHttps g index rest valid placed closed)

-- once a configuration is validated, there is a database with its collections
pub new_db-accepts :
    (g : Go) (cfg : Config) (index : Dict Collection)
    → validate_config g cfg ≡ ok index
    → (d : Database) × (new_db g cfg ≡ ok d) × (d.collections ≡ index)
unfolding new_db
new_db-accepts g cfg index e = (
  record {
    collections = index;
    client = some (client_or_default cfg.client);
    snapshots = cfg.snapshots;
    mode = default_mode cfg.mode;
  },
  rw e refl,
  refl,
)

-- A configuration that is loaded from a file has only collections whose template is an HTTPS URL, and
-- `NewDB` accepts it as it is.
pub config_from_file-IsHttps :
    (g : Go) (file : ConfigFile) (cfg : Config)
    → config_from_file g file ≡ ok cfg
    → All (IsHttps g) cfg.collections × ((d : Database) × (new_db g cfg ≡ ok d))
unfolding config_from_file
config_from_file-IsHttps g file cfg e =
    let (colls, loaded, e₁) = >>=-eq-ok (collections_from g file.collections) _ e in
    let made : Config = record {
      collections = colls;
      client = none;
      snapshots = none;
      mode = mode_of file.mode;
    } in
    let (index, valid, same) = >>=-eq-ok (validate_config g made) _ e₁ in
    let (_, _, all, placed) = validate_config-AllAllowed g made index valid in
    subst (λ (c : Config). All (IsHttps g) c.collections × ((d : Database) × (new_db g c ≡ ok d)))
      (ok_inj made cfg same)
      (
        colls-IsHttps g index colls (λ k c h. (all k c h).1) placed
            (collections_from-loopback g file.collections colls loaded),
        (let (d, made_it, _) = new_db-accepts g made index valid in (d, made_it)),
      )
