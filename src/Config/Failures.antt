-- ===== src/Config/Failures.antt =====
-- How a configuration is refused.
use dalgo2http.Prelude.{
  String, ◌≡◌, refl, Bool, true, false, not, List, [], ◌∷◌, ◌==◌, arith, Dict, insert, is_empty,
}
use dalgo2http.Errors.{
  Error, error_is, invalid_config, Result, ok, err, panic, ◌>>◌, fail_if, Raises, Raises-bind,
  Raises-fail_if, Returns,
}
use dalgo2http.Runtime.{Go, Url}
use dalgo2http.Descriptor.{
  Decoder, unset, json, ecb_euro_fx_ref, strict_csv3, Param, Collection, pieces, placeholders,
}
use dalgo2http.Snapshot.{keys}
use dalgo2http.Config.Decoders.{
  config_error, parsed_or, validate_ecb, validate_strict_csv3, validate_decoder,
}
use dalgo2http.Config.{
  Config, is_supported, is_known, check_locations, check_placeholders, check_paths, check_headers,
  validate_scheme, check_query_params, check_query_keys, validate_no_secrets, validate, index_loop,
  validate_config, new_db,
}

-- the error wraps `ErrInvalidConfig`
abbrev pub IsConfigError : Error → Type 0
IsConfigError e = error_is e invalid_config ≡ true

pub parsed_or-Raises {ℓ} :
    {A : Type ℓ} (message : String) (r : Result A)
    → Returns r
    → Raises IsConfigError (parsed_or (config_error message) r)
parsed_or-Raises message (ok a) h = tt
parsed_or-Raises message (err e) h = refl
parsed_or-Raises message panic h = h

fail_if-Raises :
    (b : Bool) (message : String) → Raises IsConfigError (fail_if b (config_error message))
fail_if-Raises true message = refl
fail_if-Raises false message = tt

-- a check that may refuse, and what follows it
check-Raises {ℓ} :
    {A : Type ℓ} (b : Bool) (message : String) (rest : Result A)
    → Raises IsConfigError rest
    → Raises IsConfigError (fail_if b (config_error message) >> rest)
check-Raises b message rest h = Raises-fail_if IsConfigError b _ rest refl (λ _. h)

check_locations-Raises : (params : Dict Param) → Raises IsConfigError (check_locations params)
unfolding check_locations
check_locations-Raises [] = tt
check_locations-Raises ((name, p) ∷ rest) = check-Raises _ _ _ (check_locations-Raises rest)

check_placeholders-Raises :
    (params : Dict Param) (names : List String) (seen : Dict Bool)
    → Raises IsConfigError (check_placeholders params names seen)
unfolding check_placeholders
check_placeholders-Raises params [] seen = tt
check_placeholders-Raises params (name ∷ rest) seen =
    check-Raises _ _ _ (check_placeholders-Raises params rest (insert name true seen))

check_paths-Raises :
    (params : Dict Param) (seen : Dict Bool) → Raises IsConfigError (check_paths params seen)
unfolding check_paths
check_paths-Raises [] seen = tt
check_paths-Raises ((name, p) ∷ rest) seen = check-Raises _ _ _ (check_paths-Raises rest seen)

check_headers-Raises : (headers : Dict String) → Raises IsConfigError (check_headers headers)
unfolding check_headers
check_headers-Raises [] = tt
check_headers-Raises ((header, env_var) ∷ rest) = check-Raises _ _ _ (check_headers-Raises rest)

module _ (g : Go) (parses : (s : String) → Returns (g.url_parse s)) where
  validate_decoder-Raises :
      (decoder : Decoder) (coll : Collection)
      → Raises IsConfigError (validate_decoder g decoder coll)
  unfolding validate_decoder validate_ecb validate_strict_csv3
  validate_decoder-Raises unset coll = tt
  validate_decoder-Raises json coll = tt
  validate_decoder-Raises ecb_euro_fx_ref coll = check-Raises _ _ _ (
      Raises-bind IsConfigError _ _ (parsed_or-Raises _ _ (parses coll.url_template))
        (λ url. fail_if-Raises _ _))
  validate_decoder-Raises strict_csv3 coll = check-Raises _ _ _ (
      Raises-bind IsConfigError _ _ (parsed_or-Raises _ _ (parses coll.url_template))
        (λ url. fail_if-Raises _ _))
  validate_decoder-Raises (Decoder.other d) coll = refl

  check_query_params-Raises :
      (params : Dict Param) → Raises IsConfigError (check_query_params g params)
  unfolding check_query_params
  check_query_params-Raises [] = tt
  check_query_params-Raises ((name, p) ∷ rest) = check-Raises _ _ _ (check_query_params-Raises rest)

  check_query_keys-Raises : (names : List String) → Raises IsConfigError (check_query_keys g names)
  unfolding check_query_keys
  check_query_keys-Raises [] = tt
  check_query_keys-Raises (name ∷ rest) = check-Raises _ _ _ (check_query_keys-Raises rest)

  validate_no_secrets-Raises :
      (coll : Collection) (url : Url) → Raises IsConfigError (validate_no_secrets g coll url)
  unfolding validate_no_secrets
  validate_no_secrets-Raises coll url =
      Raises-bind IsConfigError (check_query_params g coll.params) _
        (check_query_params-Raises coll.params)
        (λ _. check_query_keys-Raises (keys (g.url_query url)))

  validate_scheme-Raises :
      (coll : Collection) (url : Url) → Raises IsConfigError (validate_scheme g coll url)
  unfolding validate_scheme
  validate_scheme-Raises coll url = ground arith

  pub validate-Raises : (coll : Collection) → Raises IsConfigError (validate g coll)
  unfolding validate
  validate-Raises coll =
      Raises-bind IsConfigError (validate_decoder g coll.decoder coll) _
        (validate_decoder-Raises coll.decoder coll)
        λ _. check-Raises (coll.name == "") _ _ (
          check-Raises (coll.url_template == "") _ _ (
            check-Raises (not (is_supported coll.method)) _ _ (
              check-Raises (coll.key_field == "") _ _ (
                Raises-bind IsConfigError (check_locations coll.params) _
                  (check_locations-Raises coll.params)
                  λ _.
                    Raises-bind IsConfigError
                      (check_placeholders coll.params (placeholders (pieces coll.url_template)) [])
                      _ (check_placeholders-Raises coll.params _ [])
                      λ seen.
                        Raises-bind IsConfigError (check_paths coll.params seen) _
                          (check_paths-Raises coll.params seen)
                          λ _.
                            Raises-bind IsConfigError (check_headers coll.headers) _
                              (check_headers-Raises coll.headers)
                              λ _.
                                Raises-bind IsConfigError
                                  (parsed_or _ (g.url_parse coll.url_template)) _
                                  (parsed_or-Raises _ _ (parses coll.url_template))
                                  λ url.
                                    Raises-bind IsConfigError (validate_scheme g coll url) _
                                      (validate_scheme-Raises coll url)
                                      (λ _. validate_no_secrets-Raises coll url)))))

  index_loop-Raises :
      (cfg : Config) (colls : List Collection) (index : Dict Collection)
      → Raises IsConfigError (index_loop g cfg colls index)
  unfolding index_loop
  index_loop-Raises cfg [] index = tt
  index_loop-Raises cfg (coll ∷ rest) index =
      let behind = index_loop-Raises cfg rest (insert coll.name coll index) in
      check-Raises _ _ _ (
        Raises-bind IsConfigError (validate g coll) _ (validate-Raises coll)
          (λ _. check-Raises _ _ _ behind))

  pub validate_config-Raises : (cfg : Config) → Raises IsConfigError (validate_config g cfg)
  unfolding validate_config
  validate_config-Raises cfg =
      check-Raises (is_empty cfg.collections) _ _
        (check-Raises (not (is_known cfg.mode)) _ _ (index_loop-Raises cfg cfg.collections []))

  -- If the URL parser does not panic, then `NewDB` returns a database or an error, and every such error
  -- wraps `ErrInvalidConfig`.
  pub new_db-IsConfigError : (cfg : Config) → Raises IsConfigError (new_db g cfg)
  unfolding new_db
  new_db-IsConfigError cfg =
      Raises-bind IsConfigError (validate_config g cfg) _ (validate_config-Raises cfg) (λ index. tt)
