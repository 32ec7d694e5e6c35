-- ===== src/Config/Accepts.antt =====
-- Which collections the validation of config.go accepts.
use dalgo2http.Prelude.{
  among, flag-insert, flag-nil, String, ◌≡◌, refl, ◌↔◌, Bool, true, false, not, ◌&&◌, ◌||◌, List,
  [], ◌∷◌, arith, All, Dict, insert, has_key, flag,
}
use dalgo2http.Errors.{ok}
use dalgo2http.Runtime.{Go, Url}
use dalgo2http.Descriptor.{Param, Collection, pieces, placeholders}
use dalgo2http.Request.Build.{is_query}
use dalgo2http.Snapshot.{keys}
use dalgo2http.Config.Profiles.{validate_decoder_iff}
use dalgo2http.Config.Valid.{
  IsLocated, IsSubstituted, IsHeaded, IsNoSecret, IsSecure, IsValid, validate-IsValid,
}
use dalgo2http.Config.{
  is_path, check_locations, check_placeholders, check_paths, check_headers, validate_scheme,
  is_secret_like_name, check_query_params, check_query_keys, validate_no_secrets, validate,
}

IsLocated-check_locations :
    (params : Dict Param) → All IsLocated params → check_locations params ≡ ok tt
unfolding check_locations
IsLocated-check_locations [] h = refl
IsLocated-check_locations ((name, p) ∷ rest) (here, h) =
    let located : (not (is_path p.location) && not (is_query p.location)) ≡ false =
      ground (arith, here) in
    rw located (IsLocated-check_locations rest h)

declared-check_placeholders :
    (params : Dict Param) (names : List String) (seen : Dict Bool)
    → All (λ name. has_key name params ≡ true) names
    → (seen' : Dict Bool) × (check_placeholders params names seen ≡ ok seen')
      × ((k : String) → flag k seen' ≡ (among k names || flag k seen))
unfolding check_placeholders
declared-check_placeholders params [] seen h = (seen, refl, λ k. refl)
declared-check_placeholders params (name ∷ rest) seen (here, h) =
    let (seen', e, flags) = declared-check_placeholders params rest (insert name true seen) h in
    (seen', rw here e, λ k. ground (arith, flags k, flag-insert name k seen))

substituted-check_paths :
    (params : Dict Param) (names : List String) (seen : Dict Bool)
    → ((k : String) → flag k seen ≡ (among k names || flag k []))
    → All (IsSubstituted names) params
    → check_paths params seen ≡ ok tt
unfolding check_paths
substituted-check_paths [] names seen flags h = refl
substituted-check_paths ((name, p) ∷ rest) names seen flags (here, h) =
    let found : (is_path p.location && not (flag name seen)) ≡ false =
      ground (arith, here, flags name, flag-nil name) in
    rw found (substituted-check_paths rest names seen flags h)

IsHeaded-check_headers :
    (headers : Dict String) → All IsHeaded headers → check_headers headers ≡ ok tt
unfolding check_headers
IsHeaded-check_headers [] h = refl
IsHeaded-check_headers ((header, env_var) ∷ rest) (here, h) =
    rw here (IsHeaded-check_headers rest h)

IsNoSecret-check_query_params :
    (g : Go) (params : Dict Param) → All (IsNoSecret g) params → check_query_params g params ≡ ok tt
unfolding check_query_params
IsNoSecret-check_query_params g [] h = refl
IsNoSecret-check_query_params g ((name, p) ∷ rest) (here, h) =
    rw here (IsNoSecret-check_query_params g rest h)

All-check_query_keys :
    (g : Go) (names : List String)
    → All (λ name. is_secret_like_name g name ≡ false) names
    → check_query_keys g names ≡ ok tt
unfolding check_query_keys
All-check_query_keys g [] h = refl
All-check_query_keys g (name ∷ rest) (here, h) = rw here (All-check_query_keys g rest h)

IsSecure-validate_scheme :
    (g : Go) (coll : Collection) (url : Url)
    → IsSecure g coll url
    → validate_scheme g coll url ≡ ok tt
unfolding validate_scheme
IsSecure-validate_scheme g coll url h = ground (arith, h)

IsValid-validate : (g : Go) (coll : Collection) → IsValid g coll → validate g coll ≡ ok tt
unfolding validate validate_no_secrets
IsValid-validate g coll v =
    let (seen, placed, flags) =
      declared-check_placeholders coll.params (placeholders (pieces coll.url_template)) []
        v.declared in
    rw
      (
        (validate_decoder_iff g coll v.url v.parses coll.decoder).1 v.profiled,
        v.named,
        v.templated,
        v.method,
        v.keyed,
        IsLocated-check_locations coll.params v.located,
        placed,
        substituted-check_paths coll.params (placeholders (pieces coll.url_template)) seen flags
            v.substituted,
        IsHeaded-check_headers coll.headers v.headed,
        v.parses,
        IsSecure-validate_scheme g coll v.url v.secure,
        IsNoSecret-check_query_params g coll.params v.no_secret_params,
        All-check_query_keys g (keys (g.url_query v.url)) v.no_secret_keys,
      )
      refl

-- A collection passes its validation exactly if it has a name, a template, a key field and the method
-- GET; each of its parameters has a known location, every placeholder of the template is a declared
-- parameter, and every path parameter is a placeholder; every header has a name and a variable; the
-- template parses as an HTTPS URL, or an HTTP URL of a loopback host where that is allowed; neither
-- a query parameter nor a key of the template's query string looks like a credential; and the
-- collection has the profile of its decoder.
pub validate_iff : (g : Go) (coll : Collection) → (validate g coll ≡ ok tt) ↔ IsValid g coll
validate_iff g coll = (validate-IsValid g coll, IsValid-validate g coll)
