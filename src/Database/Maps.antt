-- ===== src/Database/Maps.antt =====
-- A read, as a function of a request's parameters.
use dalgo2http.Prelude.{String, ◌≡◌, ap, Dict}
use dalgo2http.Context.{Context}
use dalgo2http.Runtime.{Go}
use dalgo2http.Descriptor.{Collection}
use dalgo2http.Request.Build.{build_url}
use dalgo2http.Request.{Env, World}
use dalgo2http.Request.Parameters.{build_url-same}
use dalgo2http.Snapshot.{snapshot_key, read_snapshot}
use dalgo2http.Snapshot.Names.{SameMap, snapshot_key-SameMap}
use dalgo2http.Database.{
  Mode, unset, live_only, snapshot_only, live_then_snapshot, other, Database, fetch_live,
  fetch_snapshot, fetch_by_mode, fetch_rows,
}

module _ (g : Go) (env : Env) (d : Database) (ctx : Context) (coll : Collection)
    (m m' : Dict String) (w : World) (same : SameMap m m') where
  key_same : snapshot_key g coll.name m ≡ snapshot_key g coll.name m'
  key_same = snapshot_key-SameMap g coll.name m m' same

  fetch_live-same :
      fetch_live g env d ctx coll (snapshot_key g coll.name m) (build_url g coll m) w
      ≡ fetch_live g env d ctx coll (snapshot_key g coll.name m') (build_url g coll m') w
  fetch_live-same = λ i.
      fetch_live g env d ctx coll (key_same i) (build_url-same g coll m m' same.same_values i) w

  fetch_by_mode-same :
      (mode : Mode)
      → fetch_by_mode g env d ctx mode coll m w ≡ fetch_by_mode g env d ctx mode coll m' w
  unfolding fetch_by_mode
  fetch_by_mode-same snapshot_only =
      ap (λ key. fetch_snapshot g env d ctx coll (read_snapshot g d.snapshots key) w) key_same
  fetch_by_mode-same unset = fetch_live-same
  fetch_by_mode-same live_only = fetch_live-same
  fetch_by_mode-same live_then_snapshot = fetch_live-same
  fetch_by_mode-same (other name) = fetch_live-same

  -- For two lists of parameters with the same keys, in some order, and the same values under them, a
  -- read is the same in any mode: its result, the requests issued and what the observer is told.
  pub fetch_rows-SameMap : fetch_rows g env d ctx coll m w ≡ fetch_rows g env d ctx coll m' w
  unfolding fetch_rows
  fetch_rows-SameMap = fetch_by_mode-same d.mode
