-- ===== src/Config/Decoders.antt =====
-- config.go: the errors of validation; `validateDecoder` of decoder.go and `validateStrictCSV3` of
-- strict_csv.go.
use dalgo2http.Prelude.{ℕ, String, Bool, false, not, ◌||◌, ltb, ◌==◌, is_empty}
use dalgo2http.Errors.{
  Error, sentinel, errorf, invalid_config, Result, ok, err, panic, ◌>>=◌, ◌>>◌, fail_if,
}
use dalgo2http.Value.{ℤ, pos, negsuc}
use dalgo2http.Runtime.{Go}
use dalgo2http.Descriptor.{Decoder, unset, json, ecb_euro_fx_ref, strict_csv3, Collection}
use dalgo2http.Query.{is_positive}

-- `fmt.Errorf("%w: …", ErrInvalidConfig)`
abbrev pub config_error : String → Error
config_error message = errorf message (sentinel invalid_config)

-- a URL that does not parse is reported with the given error
abbrev pub parsed_or {ℓ} : {A : Type ℓ} → Error → Result A → Result A
parsed_or e (ok url) = ok url
parsed_or e (err _) = err e
parsed_or e panic = panic

-- 10 s in nanoseconds
abbrev pub max_strict_csv3_time : ℕ
max_strict_csv3_time = 10000000000

abbrev pub exceeds : ℤ → ℕ → Bool
exceeds (pos n) max = ltb max n
exceeds (negsuc n) max = false

-- decoder.go, the ECB case of `validateDecoder`
unfoldable pub validate_ecb : Go → Collection → Result (Unit {0})
validate_ecb g coll = do
  fail_if
      (not (coll.rows_path == "")
        || not (coll.key_field == "currency")
        || not (is_empty coll.params)
        || not (is_positive coll.timeout))
      (config_error
        "%w: collection %q: ECB daily decoding requires keyField currency, no rowsPath or params, and a positive timeout")
  parsed ←
      parsed_or
        (config_error
          "%w: collection %q: ECB daily decoding requires a fixed public URL without credentials, query, fragment, or secret headers")
        (g.url_parse coll.url_template)
  fail_if
      (parsed.hostname == ""
        || parsed.has_user
        || not (parsed.raw_query == "")
        || not (parsed.fragment == "")
        || not (is_empty coll.headers))
      (config_error
        "%w: collection %q: ECB daily decoding requires a fixed public URL without credentials, query, fragment, or secret headers")

unfoldable pub validate_strict_csv3 : Go → Collection → Result (Unit {0})
validate_strict_csv3 g coll = do
  fail_if
      (not (coll.rows_path == "")
        || not (coll.key_field == "Value")
        || not (is_empty coll.params)
        || not (is_empty coll.headers)
        || not coll.client_side_filter
        || not (is_positive coll.timeout)
        || exceeds coll.timeout max_strict_csv3_time)
      (config_error
        "%w: collection %q: strict CSV requires Value key, no rows path, params or headers, client-side filtering and a timeout up to 10s")
  parsed ←
      parsed_or
        (config_error
          "%w: collection %q: strict CSV requires a fixed URL without credentials, query or fragment")
        (g.url_parse coll.url_template)
  fail_if
      (parsed.hostname == ""
        || not (parsed.raw_query == "")
        || parsed.force_query
        || not (parsed.fragment == "")
        || parsed.has_user)
      (config_error
        "%w: collection %q: strict CSV requires a fixed URL without credentials, query or fragment")

unfoldable pub validate_decoder : Go → Decoder → Collection → Result (Unit {0})
unfolding validate_ecb validate_strict_csv3
validate_decoder g unset coll = ok tt
validate_decoder g json coll = ok tt
validate_decoder g ecb_euro_fx_ref coll = validate_ecb g coll
validate_decoder g strict_csv3 coll = validate_strict_csv3 g coll
validate_decoder g (Decoder.other d) coll =
    err (config_error "%w: collection %q: decoder %q is not supported")
