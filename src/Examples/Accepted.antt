-- ===== src/Examples/Accepted.antt =====
-- What `NewDB` makes of the two example collections, and what can be asked of them.
use dalgo2http.Prelude.{
  ◌≡◌, refl, String, List, [], ◌∷◌, none, true, false, Option, Dict, lookup, has_key, insert, Bool,
  All, flag, any, ap, ◌∙◌,
}
use dalgo2http.Context.{Context}
use dalgo2http.Errors.{Error, error_is, not_supported, ok, err}
use dalgo2http.Runtime.{Go, Url}
use dalgo2http.Descriptor.{Collection, pieces, placeholders, live_only_decoder}
use dalgo2http.Snapshot.{Store, keys, sort_strings}
use dalgo2http.Dal.{equal}
use dalgo2http.Request.{Env, World}
use dalgo2http.Database.{Mode, Database}
use dalgo2http.Query.{find_collection}
use dalgo2http.Reads.{Target, get}
use dalgo2http.Reads.Gets.{get-IsRefused}
use dalgo2http.Config.{
  Config, is_known, secret_query_key_markers, is_secret_like_name, contains, has_prefix, validate,
  validate_config, new_db,
}
use dalgo2http.Capabilities.{Capabilities, capabilities}
use dalgo2http.Config.Loading.{new_db-accepts}
use dalgo2http.Examples.{countries, exchange_rates}

-- What accepting a collection asks of the libraries: its template is parsed as an HTTPS URL with
-- these names in its query, and lower case leaves those names as they are.
pub record ParsesAs (g : Go) (template : String) (names : List String) : Type 0 where
  pub url : Url
  pub parses : g.url_parse template ≡ ok url
  pub secure : url.scheme ≡ "https"
  pub queried : keys (g.url_query url) ≡ names

-- the names of the parameters, and those in the two templates
abbrev pub query_names : List String
query_names = "name" ∷ "country" ∷ "to" ∷ "base" ∷ "symbols" ∷ []

abbrev IsPlain : Go → String → Type 0
IsPlain g name = is_secret_like_name g name ≡ false

abbrev has_marker : String → Bool
has_marker name = any (λ marker. contains marker name) secret_query_key_markers

plain_lem :
    (g : Go) (name : String) → has_marker name ≡ false → g.to_lower name ≡ name → IsPlain g name
unfolding is_secret_like_name
plain_lem g name h lower = rw lower h

no_markers : All (λ (name : String). has_marker name ≡ false) query_names
unfolding contains has_prefix
no_markers = (refl, (refl, (refl, (refl, (refl, tt)))))

names-IsPlain :
    (g : Go) (names : List String)
    → All (λ (name : String). has_marker name ≡ false) names
    → All (λ (name : String). g.to_lower name ≡ name) names
    → All (IsPlain g) names
names-IsPlain g [] h k = tt
names-IsPlain g (name ∷ names) (h, hs) (k, ks) = (plain_lem g name h k, names-IsPlain g names hs ks)

validate-countries :
    (g : Go)
    → ParsesAs g countries.url_template ("country" ∷ [])
    → IsPlain g "name"
    → IsPlain g "country"
    → validate g countries ≡ ok tt
unfolding validate pieces placeholders has_key lookup insert flag
validate-countries g p n₁ n₂ = rw (p.parses, p.queried, p.secure, n₁, n₂) refl

validate-exchange_rates :
    (g : Go)
    → ParsesAs g exchange_rates.url_template ("base" ∷ "symbols" ∷ [])
    → IsPlain g "to"
    → IsPlain g "base"
    → IsPlain g "symbols"
    → validate g exchange_rates ≡ ok tt
unfolding validate pieces placeholders has_key lookup insert flag
validate-exchange_rates g p n₁ n₂ n₃ = rw (p.parses, p.queried, p.secure, n₁, n₂, n₃) refl

-- What accepting the examples asks of the libraries.
pub record IsUsable (g : Go) : Type 0 where
  pub reads_countries : ParsesAs g countries.url_template ("country" ∷ [])
  pub reads_rates : ParsesAs g exchange_rates.url_template ("base" ∷ "symbols" ∷ [])
  pub keeps_lower : All (λ (name : String). g.to_lower name ≡ name) query_names

-- the configuration of the two examples
abbrev pub both_examples : Option Store → Mode → Config
both_examples store mode = record {
  collections = countries ∷ exchange_rates ∷ [];
  client = none;
  snapshots = store;
  mode = mode;
}

validate_config-examples :
    (g : Go) (store : Option Store) (mode : Mode)
    → IsUsable g
    → is_known mode ≡ true
    → validate_config g (both_examples store mode)
      ≡ ok (("countries", countries) ∷ ("exchange-rates", exchange_rates) ∷ [])
unfolding validate_config has_key lookup insert live_only_decoder
validate_config-examples g store mode h known =
    let (name, (country, (to, (base, (symbols, _))))) =
      names-IsPlain g query_names no_markers h.keeps_lower in
    rw
      (
        known,
        validate-countries g h.reads_countries name country,
        validate-exchange_rates g h.reads_rates to base symbols,
      )
      refl

abbrev index : Dict Collection
index = ("countries", countries) ∷ ("exchange-rates", exchange_rates) ∷ []

finds_rates :
    (d : Database)
    → d.collections ≡ index
    → find_collection d.collections "exchange-rates" ≡ ok exchange_rates
unfolding find_collection lookup
finds_rates d h = rw h refl

lacks_key : has_key exchange_rates.key_field exchange_rates.params ≡ false
unfolding has_key lookup
lacks_key = refl

-- by equality on the name, and by Get
abbrev pub countries_capabilities : Capabilities
countries_capabilities = record {
  collection = "countries";
  fields = "name" ∷ [];
  operators = equal ∷ [];
  supports_get = true;
  client_side_filter = false;
}

supports_countries :
    (d : Database) → d.collections ≡ index → capabilities d "countries" ≡ ok countries_capabilities
unfolding capabilities find_collection has_key lookup sort_strings keys
supports_countries d h = rw (h, find_collection, lookup) refl

-- Where the two templates are parsed as HTTPS URLs with their names in the query, and lower case leaves
-- the names as they are: `NewDB` accepts the two examples together, in every known mode and with or
-- without snapshots. In the
-- database it makes, the capabilities of the countries are equality on the name and Get, and Get of an
-- exchange rate fails with `dal.ErrNotSupported` and leaves the world as it was.
pub new_db-examples :
    (g : Go) (env : Env) (ctx : Context) (store : Option Store) (mode : Mode) (rec : Target)
    (w : World)
    → IsUsable g
    → is_known mode ≡ true
    → rec.collection ≡ "exchange-rates"
    → (d : Database) × (new_db g (both_examples store mode) ≡ ok d)
      × (capabilities d "countries" ≡ ok countries_capabilities)
      × ((e : Error) × ((get g env d ctx rec w).0 ≡ (err e, w)) × (error_is e not_supported ≡ true))
new_db-examples g env ctx store mode rec w h known named =
    let (d, made, collections) =
      new_db-accepts g (both_examples store mode) index
        (validate_config-examples g store mode h known) in
    (
      d,
      made,
      supports_countries d collections,
      get-IsRefused g env d ctx rec w exchange_rates
          (ap (find_collection d.collections) named ∙ finds_rates d collections) lacks_key,
    )
