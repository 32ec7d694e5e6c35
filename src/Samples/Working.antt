-- ===== src/Samples/Working.antt =====
-- Runs of a worker in its transaction.
use dalgo2http.Prelude.{◌≡◌, refl, List, [], ◌∷◌, ◌++◌, All, none, lookup, insert, has_key, flag}
use dalgo2http.Errors.{ok}
use dalgo2http.Descriptor.{pieces, placeholders, live_only_decoder}
use dalgo2http.Snapshot.{keys}
use dalgo2http.Request.{World, HttpRequest}
use dalgo2http.Dal.{structured}
use dalgo2http.Database.{Database}
use dalgo2http.Config.{Config, is_secret_like_name, new_db, validate_config, validate}
use dalgo2http.Transaction.{Transaction, get_, query_, call}
use dalgo2http.Transaction.Session.{
  Session, start, next, IsValidRequest, Session-IsValid, Session-snapshot_only,
}
use dalgo2http.Samples.{
  sample_go, sample_collection, sample_env, sample_world, sample_context, offline, online,
  sample_query, sample_target,
}

abbrev online_config : Config
online_config = record {
  collections = sample_collection ∷ [];
  client = none;
  snapshots = online.snapshots;
  mode = online.mode;
}

makes_online : new_db sample_go online_config ≡ ok online
unfolding new_db validate_config validate pieces placeholders has_key lookup insert flag
    is_secret_like_name keys live_only_decoder
makes_online = refl

abbrev working : Database → Transaction
working d = record { db = d; tx_opts = 0 }

-- a record is got, and then a query made
abbrev after_get : Database → World
after_get d =
    (call sample_go sample_env sample_context (working d) (get_ sample_target) sample_world).1

abbrev after_query : Database → World
after_query d =
    (call sample_go sample_env sample_context (working d) (query_ (structured sample_query))
      (after_get d)).1

works :
    (d : Database)
    → Session sample_go sample_env sample_context (working d) sample_world (after_query d)
works d =
    next (after_query d) (query_ (structured sample_query))
      (next (after_get d) (get_ sample_target) start refl) refl

Session-IsValid_example :
    (reqs : List HttpRequest) × ((after_query online).requests ≡ sample_world.requests ++ reqs)
    × All (IsValidRequest sample_go sample_env sample_context (working online)) reqs
Session-IsValid_example =
    Session-IsValid sample_go sample_env sample_context (working online) online_config sample_world
      (after_query online) makes_online (works online)

Session-snapshot_only_example : (after_query offline).requests ≡ []
Session-snapshot_only_example =
    Session-snapshot_only sample_go sample_env sample_context (working offline) sample_world
      (after_query offline) refl (works offline)
