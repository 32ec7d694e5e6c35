-- ===== src/Samples/Configuring.antt =====
-- Runs of the validation of a configuration.
use dalgo2http.Prelude.{◌↔◌, ◌≡◌, refl, false, [], ◌∷◌, none, All, lookup, insert, has_key, flag}
use dalgo2http.Errors.{ok}
use dalgo2http.Descriptor.{pieces, placeholders, live_only_decoder}
use dalgo2http.Snapshot.{keys}
use dalgo2http.Config.{Config, is_secret_like_name, validate, validate_config, new_db}
use dalgo2http.Config.Valid.{IsValid}
use dalgo2http.Config.Accepts.{validate_iff}
use dalgo2http.Config.Databases.{IsAccepted, new_db_iff}
use dalgo2http.Config.Loading.{ConfigFile, config_from_file, IsHttps, config_from_file-IsHttps}
use dalgo2http.Database.{Database, live_only}
use dalgo2http.Samples.{sample_go, sample_collection, offline}

abbrev sample_config : Config
sample_config = record {
  collections = sample_collection ∷ [];
  client = none;
  snapshots = offline.snapshots;
  mode = offline.mode;
}

validate_iff_example :
    (validate sample_go sample_collection ≡ ok tt) ↔ IsValid sample_go sample_collection
validate_iff_example = validate_iff sample_go sample_collection

abbrev sample_file : ConfigFile
sample_file = record {
  collections =
      record {
        decoder = sample_collection.decoder;
        name = "rates";
        url_template = sample_collection.url_template;
        method = "";
        params = sample_collection.params;
        rows_path = "";
        key_field = "base";
        headers = [];
        timeout = "";
        client_side_filter = false;
      }
      ∷ [];
  mode = "live";
}

abbrev loaded_config : Config
loaded_config = record {
  collections = sample_collection ∷ [];
  client = none;
  snapshots = none;
  mode = live_only;
}

loads : config_from_file sample_go sample_file ≡ ok loaded_config
unfolding config_from_file validate_config validate pieces placeholders has_key lookup insert flag
    is_secret_like_name keys live_only_decoder
loads = refl

config_from_file-IsHttps_example :
    All (IsHttps sample_go) loaded_config.collections
    × ((d : Database) × (new_db sample_go loaded_config ≡ ok d))
config_from_file-IsHttps_example =
    config_from_file-IsHttps sample_go sample_file loaded_config loads

new_db_iff_example :
    ((d : Database) × (new_db sample_go sample_config ≡ ok d)) ↔ IsAccepted sample_go sample_config
new_db_iff_example = new_db_iff sample_go sample_config
