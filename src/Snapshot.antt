-- ===== src/Snapshot.antt =====
-- snapshot.go: the name of a snapshot, reading one, and recording one.
pub mod Recorded
pub mod Order
pub mod Names
pub mod Collisions
use Prim.Native.String
use text.Mathlib.Text.{is_le}
use dalgo2http.Prelude.{ℕ, String, List, [], ◌∷◌, Option, none, some, if◌then◌else◌, Dict, lookup}
use dalgo2http.Context.{Context}
use dalgo2http.Errors.{
  sentinel, errorf, snapshot_miss, not_supported, Result, ok, err, panic, ◌>>=◌, wrap_error,
}
use dalgo2http.Security.{HttpClient}
use dalgo2http.Runtime.{Go, Bytes, SnapshotEnvelope}
use dalgo2http.Descriptor.{Collection, live_only_decoder}
use dalgo2http.Request.Build.{build_url}
use dalgo2http.Request.{Env, World, Live, do_live_fetch}

-- `sort.Strings`
insert_sorted : String → List String → List String
insert_sorted s [] = s ∷ []
insert_sorted s (t ∷ ts) =
    let rest = insert_sorted s ts in
    if is_le (Prim.Native.String.compare s t) then s ∷ t ∷ ts else t ∷ rest

unfoldable pub sort_strings : List String → List String
unfolding insert_sorted
sort_strings [] = []
sort_strings (s ∷ ss) = insert_sorted s (sort_strings ss)

-- the keys of a map, in the order of its iteration
unfoldable pub keys {ℓ} : {V : Type ℓ} → Dict V → List String
keys [] = []
keys ((k, v) ∷ m) = k ∷ keys m

-- `params[k]`, which is empty for a missing key
param_value : String → Dict String → String
param_value k params = elim (lookup k params) [ none ↦ "" | some v ↦ v ]

key_parts : Go → Dict String → List String → String
unfolding param_value
key_parts g params [] = ".json"
key_parts g params (k ∷ ks) = String.◌++◌ "_" (
    String.◌++◌ (g.query_escape k) (
      String.◌++◌ "="
        (String.◌++◌ (g.query_escape (param_value k params)) (key_parts g params ks))))

unfoldable pub snapshot_key : Go → String → Dict String → String
unfolding key_parts sort_strings keys
snapshot_key g collection params =
    String.◌++◌ (g.path_escape collection) (key_parts g params (sort_strings (keys params)))

-- a store of snapshots, by file name
abbrev pub Store : Type 0
Store = String → Result Bytes

unfoldable pub read_snapshot : Go → Option Store → String → Result SnapshotEnvelope
read_snapshot g none key = err (errorf "%w: no snapshot store configured" (sentinel snapshot_miss))
read_snapshot g (some fsys) key = elim (fsys key) [
  | err e ↦ err (errorf "%w: %s: %v" (sentinel snapshot_miss))
  | panic ↦ panic
  | ok content ↦ wrap_error "dalgo2http: corrupt snapshot %s: %w" (g.unmarshal_envelope content)
]

-- The file system that `Record` writes to: os.MkdirAll, and os.WriteFile of a content.
pub record Disk : Type 0 where
  pub mkdir_all : String → Result (Unit {0})
  pub write_file : String → Bytes → Result (Unit {0})
  pub join : String → String → String

-- What `Record` does with a response: the path and the content of the file written.
record_live :
    Go → Env → Disk → Collection → Dict String → String → Live → World → Result (String × Bytes)
unfolding snapshot_key
record_live g env disk coll params dir fetched w = do
  encoded ← wrap_error "dalgo2http: encode snapshot: %w" (
      g.marshal_envelope (record {
        fetched_at = env.now w.requests;
        status_code = fetched.status_code;
        body = fetched.body;
      }))
  _ ← wrap_error "dalgo2http: create snapshot dir %s: %w" (disk.mkdir_all dir)
  let path = disk.join dir (snapshot_key g coll.name params)
  _ ← wrap_error "dalgo2http: write snapshot %s: %w" (disk.write_file path encoded)
  ok (path, encoded)

record_fetched :
    Go
    → Env
    → Disk
    → Collection
    → Dict String
    → String
    → Result Live × World
    → Result (String × Bytes) × World
unfolding record_live
record_fetched g env disk coll params dir (ok fetched, w) =
    (record_live g env disk coll params dir fetched w, w)
record_fetched g env disk coll params dir (err e, w) = (err e, w)
record_fetched g env disk coll params dir (panic, w) = (panic, w)

record_url :
    Go
    → Env
    → Disk
    → Context
    → Option HttpClient
    → Collection
    → Dict String
    → String
    → Result String
    → World
    → Result (String × Bytes) × World
unfolding record_fetched
record_url g env disk ctx client coll params dir (ok raw_url) w =
    record_fetched g env disk coll params dir (do_live_fetch g env ctx client coll raw_url none w)
record_url g env disk ctx client coll params dir (err e) w = (err e, w)
record_url g env disk ctx client coll params dir panic w = (panic, w)

-- `Record`; the result is the path written and what was written there.
unfoldable pub record_snapshot :
    Go
    → Env
    → Disk
    → Context
    → Option HttpClient
    → Collection
    → Dict String
    → String
    → World
    → Result (String × Bytes) × World
unfolding record_url
record_snapshot g env disk ctx client coll params dir w =
    if live_only_decoder coll.decoder
    then (
      err (errorf "%w: collection %q: source recording is not authorized" (sentinel not_supported)),
      w,
    )
    else record_url g env disk ctx client coll params dir (build_url g coll params) w
