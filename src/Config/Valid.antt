-- ===== src/Config/Valid.antt =====
-- What a validated configuration guarantees.
use dalgo2http.Prelude.{
  among, flag-insert, flag-nil, String, ◌≡◌, sym, ap, Bool, true, false, not, ◌&&◌, ◌||◌, List, [],
  ◌∷◌, arith, All, ◌==◌, Dict, insert, has_key, flag,
}
use dalgo2http.Errors.{Error, Result, ok, err, panic, >>=-eq-ok, fail_if-eq-ok, ok_inj}
use dalgo2http.Runtime.{Go, Url}
use dalgo2http.Descriptor.{Param, Collection, pieces, placeholders}
use dalgo2http.Request.Build.{is_query}
use dalgo2http.Snapshot.{keys}
use dalgo2http.Config.Decoders.{parsed_or, validate_decoder}
use dalgo2http.Config.Profiles.{IsProfiled, validate_decoder_iff}
use dalgo2http.Config.{
  is_path, is_supported, check_locations, check_placeholders, check_paths, check_headers,
  is_loopback_host, validate_scheme, is_secret_like_name, check_query_params, check_query_keys,
  validate_no_secrets, validate,
}

abbrev pub IsLocated : String × Param → Type 0
IsLocated (name, p) = (is_path p.location || is_query p.location) ≡ true

abbrev pub IsSubstituted : List String → String × Param → Type 0
IsSubstituted names (name, p) = (not (is_path p.location) || among name names) ≡ true

abbrev pub IsHeaded : String × String → Type 0
IsHeaded (header, env_var) = (header == "" || env_var == "") ≡ false

abbrev pub IsNoSecret : Go → String × Param → Type 0
IsNoSecret g (name, p) = (is_query p.location && is_secret_like_name g name) ≡ false

check_locations-IsLocated :
    (params : Dict Param) {u : Unit {0}} → check_locations params ≡ ok u → All IsLocated params
unfolding check_locations
check_locations-IsLocated [] e = tt
check_locations-IsLocated ((name, p) ∷ rest) e =
    let (located, later) =
      fail_if-eq-ok (not (is_path p.location) && not (is_query p.location)) _ _ e in
    (ground arith, check_locations-IsLocated rest later)

check_placeholders-flag :
    (params : Dict Param) (names : List String) (seen seen' : Dict Bool)
    → check_placeholders params names seen ≡ ok seen'
    → All (λ name. has_key name params ≡ true) names
      × ((k : String) → flag k seen' ≡ (among k names || flag k seen))
unfolding check_placeholders
check_placeholders-flag params [] seen seen' e = (tt, λ k. ap (flag k) (sym (ok_inj seen seen' e)))
check_placeholders-flag params (name ∷ rest) seen seen' e =
    let (declared, later) = fail_if-eq-ok (not (has_key name params)) _ _ e in
    let (all, flags) = check_placeholders-flag params rest (insert name true seen) seen' later in
    ((ground arith, all), λ k. ground (arith, flags k, flag-insert name k seen))

check_paths-flag :
    (params : Dict Param) (seen : Dict Bool) {u : Unit {0}}
    → check_paths params seen ≡ ok u
    → All (λ (name, p). (not (is_path p.location) || flag name seen) ≡ true) params
unfolding check_paths
check_paths-flag [] seen e = tt
check_paths-flag ((name, p) ∷ rest) seen e =
    let (substituted, later) = fail_if-eq-ok (is_path p.location && not (flag name seen)) _ _ e in
    (ground arith, check_paths-flag rest seen later)

flag-IsSubstituted :
    (names : List String) (seen : Dict Bool) (params : Dict Param)
    → ((k : String) → flag k seen ≡ (among k names || flag k []))
    → All (λ (name, p). (not (is_path p.location) || flag name seen) ≡ true) params
    → All (IsSubstituted names) params
flag-IsSubstituted names seen [] h all = tt
flag-IsSubstituted names seen ((name, p) ∷ rest) h (here, all) =
    (ground (arith, h name, flag-nil name), flag-IsSubstituted names seen rest h all)

check_headers-IsHeaded :
    (headers : Dict String) {u : Unit {0}} → check_headers headers ≡ ok u → All IsHeaded headers
unfolding check_headers
check_headers-IsHeaded [] e = tt
check_headers-IsHeaded ((header, env_var) ∷ rest) e =
    let (here, later) = fail_if-eq-ok (header == "" || env_var == "") _ _ e in
    (here, check_headers-IsHeaded rest later)

check_query_params-IsNoSecret :
    (g : Go) (params : Dict Param) {u : Unit {0}}
    → check_query_params g params ≡ ok u
    → All (IsNoSecret g) params
unfolding check_query_params
check_query_params-IsNoSecret g [] e = tt
check_query_params-IsNoSecret g ((name, p) ∷ rest) e =
    let (here, later) = fail_if-eq-ok (is_query p.location && is_secret_like_name g name) _ _ e in
    (here, check_query_params-IsNoSecret g rest later)

check_query_keys-All :
    (g : Go) (names : List String) {u : Unit {0}}
    → check_query_keys g names ≡ ok u
    → All (λ name. is_secret_like_name g name ≡ false) names
unfolding check_query_keys
check_query_keys-All g [] e = tt
check_query_keys-All g (name ∷ rest) e =
    let (here, later) = fail_if-eq-ok (is_secret_like_name g name) _ _ e in
    (here, check_query_keys-All g rest later)

parsed_or-eq-ok : {A : Type 0} (x : Error) (r : Result A) (a : A) → parsed_or x r ≡ ok a → r ≡ ok a
parsed_or-eq-ok x (ok b) a e = e
parsed_or-eq-ok x (err y) a e = cc
parsed_or-eq-ok x panic a e = cc

-- HTTPS, or HTTP to a loopback host where the collection allows it
abbrev pub IsSecure : Go → Collection → Url → Type 0
IsSecure g coll url =
    (url.scheme == "https"
      || (url.scheme == "http" && coll.insecure_allow_loopback && is_loopback_host g url.hostname))
    ≡ true

validate_scheme-IsSecure :
    (g : Go) (coll : Collection) (url : Url) {u : Unit {0}}
    → validate_scheme g coll url ≡ ok u
    → IsSecure g coll url
unfolding validate_scheme
validate_scheme-IsSecure g coll url e = ground arith

-- What the validation of one collection makes sure of.
pub record IsValid (g : Go) (coll : Collection) : Type 0 where
  pub named : (coll.name == "") ≡ false
  pub templated : (coll.url_template == "") ≡ false
  pub keyed : (coll.key_field == "") ≡ false
  pub method : is_supported coll.method ≡ true
  pub located : All IsLocated coll.params
  pub declared :
      All (λ name. has_key name coll.params ≡ true) (placeholders (pieces coll.url_template))
  pub substituted : All (IsSubstituted (placeholders (pieces coll.url_template))) coll.params
  pub headed : All IsHeaded coll.headers
  pub url : Url
  pub parses : g.url_parse coll.url_template ≡ ok url
  pub profiled : IsProfiled coll.decoder coll url
  pub secure : IsSecure g coll url
  pub no_secret_params : All (IsNoSecret g) coll.params
  pub no_secret_keys : All (λ key. is_secret_like_name g key ≡ false) (keys (g.url_query url))

-- A collection that passes its validation is valid.
pub validate-IsValid :
    (g : Go) (coll : Collection) {u : Unit {0}} → validate g coll ≡ ok u → IsValid g coll
unfolding validate validate_no_secrets
validate-IsValid g coll e =
    let (_, profile, e₁) = >>=-eq-ok (validate_decoder g coll.decoder coll) _ e in
    let (named, e₂) = fail_if-eq-ok (coll.name == "") _ _ e₁ in
    let (templated, e₃) = fail_if-eq-ok (coll.url_template == "") _ _ e₂ in
    let (method, e₄) = fail_if-eq-ok (not (is_supported coll.method)) _ _ e₃ in
    let (keyed, e₅) = fail_if-eq-ok (coll.key_field == "") _ _ e₄ in
    let (_, located, e₆) = >>=-eq-ok (check_locations coll.params) _ e₅ in
    let (seen, placed, e₇) =
      >>=-eq-ok (check_placeholders coll.params (placeholders (pieces coll.url_template)) []) _
        e₆ in
    let (_, paths, e₈) = >>=-eq-ok (check_paths coll.params seen) _ e₇ in
    let (_, headed, e₉) = >>=-eq-ok (check_headers coll.headers) _ e₈ in
    let (url, parsed, e₁₀) = >>=-eq-ok (parsed_or _ (g.url_parse coll.url_template)) _ e₉ in
    let parses = parsed_or-eq-ok _ (g.url_parse coll.url_template) url parsed in
    let (_, schemed, e₁₁) = >>=-eq-ok (validate_scheme g coll url) _ e₁₀ in
    let (_, params, queried) = >>=-eq-ok (check_query_params g coll.params) _ e₁₁ in
    let (declared, flags) =
      check_placeholders-flag coll.params (placeholders (pieces coll.url_template)) [] seen
        placed in
    record {
      named = named;
      templated = templated;
      keyed = keyed;
      method = ground arith;
      located = check_locations-IsLocated coll.params located;
      declared = declared;
      substituted =
          flag-IsSubstituted (placeholders (pieces coll.url_template)) seen coll.params flags
            (check_paths-flag coll.params seen paths);
      headed = check_headers-IsHeaded coll.headers headed;
      url = url;
      parses = parses;
      profiled = (validate_decoder_iff g coll url parses coll.decoder).0 profile;
      secure = validate_scheme-IsSecure g coll url schemed;
      no_secret_params = check_query_params-IsNoSecret g coll.params params;
      no_secret_keys = check_query_keys-All g (keys (g.url_query url)) queried;
    }
