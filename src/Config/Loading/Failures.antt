-- ===== src/Config/Loading/Failures.antt =====
-- How the contents of a configuration file are refused.
use dalgo2http.Prelude.{String, Bool, true, false, List, [], ◌∷◌, if◌then◌else◌, ◌==◌}
use dalgo2http.Errors.{Result, Raises, Raises-bind, Returns}
use dalgo2http.Value.{ℤ}
use dalgo2http.Runtime.{Go}
use dalgo2http.Config.Decoders.{config_error, parsed_or}
use dalgo2http.Config.{validate_config}
use dalgo2http.Config.Failures.{IsConfigError, parsed_or-Raises, validate_config-Raises}
use dalgo2http.Config.Loading.{
  CollectionFile, ConfigFile, timeout_of, collections_from, config_from_file, load_config,
}

module _ (g : Go) (parses : (s : String) → Returns (g.url_parse s))
    (durations : (s : String) → Returns (g.parse_duration s)) where
  if-Raises :
      (b : Bool) (r s : Result ℤ)
      → Raises IsConfigError r
      → Raises IsConfigError s
      → Raises IsConfigError (if b then r else s)
  if-Raises true r s h k = h
  if-Raises false r s h k = k

  timeout_of-Raises : (s : String) → Raises IsConfigError (timeout_of g s)
  unfolding timeout_of
  timeout_of-Raises s = if-Raises (s == "") _ _ tt (parsed_or-Raises _ _ (durations s))

  collections_from-Raises :
      (files : List CollectionFile) → Raises IsConfigError (collections_from g files)
  unfolding collections_from
  collections_from-Raises [] = tt
  collections_from-Raises (cf ∷ rest) =
      let behind = collections_from-Raises rest in
      Raises-bind IsConfigError (timeout_of g cf.timeout) _ (timeout_of-Raises cf.timeout)
        λ timeout. Raises-bind IsConfigError (collections_from g rest) _ behind (λ colls. tt)

  config_from_file-Raises : (file : ConfigFile) → Raises IsConfigError (config_from_file g file)
  unfolding config_from_file
  config_from_file-Raises file =
      Raises-bind IsConfigError (collections_from g file.collections) _
        (collections_from-Raises file.collections)
        λ colls.
          Raises-bind IsConfigError (validate_config g _) _ (validate_config-Raises g parses _)
            (λ index. tt)

  -- If the parsers of the format, of URLs and of durations do not panic, then loading a configuration
  -- returns it or an error, and every such error wraps `ErrInvalidConfig`.
  pub load_config-IsConfigError :
      (message : String) (decoded : Result ConfigFile)
      → Returns decoded
      → Raises IsConfigError (load_config g message decoded)
  unfolding load_config
  load_config-IsConfigError message decoded h =
      Raises-bind IsConfigError (parsed_or (config_error message) decoded) _
        (parsed_or-Raises message decoded h) config_from_file-Raises
