-- ===== src/Samples/Replaying.antt =====
-- Runs in which what a read leaves behind is read again.
use dalgo2http.Prelude.{
  ℕ, ◌≡◌, ◌⊎◌, ◌↔◌, List, refl, sym, ap, arith, eq_iff, true, [], ◌∷◌, none, some, Dict, String,
  lookup,
}
use dalgo2http.Errors.{foreign, Result, ok, err, ok_inj}
use dalgo2http.Value.{Row}
use dalgo2http.Runtime.{Go, Bytes, SnapshotEnvelope}
use dalgo2http.Descriptor.{live_only_decoder, pieces}
use dalgo2http.Provenance.{
  Provenance, provenance_of, snapshot, new_recorder, with_context, last_observed,
}
use dalgo2http.JsonPath.{segments, navigate, rows_of, extract_rows}
use dalgo2http.Decoder.{decode_rows}
use dalgo2http.Request.Build.{build_url}
use dalgo2http.Request.{Env, do_live_fetch, receive}
use dalgo2http.Snapshot.{Disk, snapshot_key, read_snapshot, record_snapshot, sort_strings, keys}
use dalgo2http.Snapshot.Recorded.{IsRecorded, record_snapshot-IsRecorded}
use dalgo2http.Database.{Read, Database, fetch_rows, observe}
use dalgo2http.Database.Recorded.{Recorders, delivered, fetch_rows-last_observed}
use dalgo2http.Database.Replay.{KeepsEnvelopes, served, fetch_rows-record_snapshot}
use mathlib.Core.List.{Permᴰ}
use dalgo2http.Snapshot.Names.{SameMap}
use dalgo2http.Snapshot.Collisions.{joined, pair}
use dalgo2http.Database.Params.{Params, IsRead, fetch_params, fetch_rows-IsRead}
use dalgo2http.Database.Collisions.{fetch_rows-collides}
use dalgo2http.Samples.{
  sample_go, sample_row, sample_collection, sample_env, sample_world, sample_context, offline,
}

abbrev asked : Dict String
asked = ("base", "EUR") ∷ []

-- an encoding of envelopes that keeps the time and the status in front of the body
abbrev decode_envelope : Bytes → Result SnapshotEnvelope
decode_envelope (at ∷ status ∷ body) =
    ok (record { fetched_at = at; status_code = status; body = body })
decode_envelope _ = err (foreign "unexpected end of JSON input")

-- the same two parameters, in two orders
abbrev dated : Dict String
dated = ("base", "EUR") ∷ ("date", "today") ∷ []

abbrev redated : Dict String
redated = ("date", "today") ∷ ("base", "EUR") ∷ []

same_order : SameMap dated redated
unfolding keys lookup
same_order = record {
  same_keys = Permᴰ.swap refl refl;
  same_values = λ k. ground (arith, eq_iff "base" k, eq_iff "date" k, eq_iff "base" "date");
}

abbrev recording_go : Go
recording_go = record sample_go {
  marshal_envelope = λ e. ok (e.fetched_at ∷ e.status_code ∷ e.body);
  unmarshal_envelope = decode_envelope;
}

abbrev disk : Disk
disk = record {
  mkdir_all = λ dir. ok tt;
  write_file = λ path content. ok tt;
  join = λ dir name. name;
}

keeps : KeepsEnvelopes recording_go
keeps e content h = (
  e,
  ap decode_envelope (sym (ok_inj (e.fetched_at ∷ e.status_code ∷ e.body) content h)),
  refl,
  refl,
  refl,
)

abbrev written : Bytes
written = 1 ∷ 200 ∷ 123 ∷ 125 ∷ []

abbrev file_name : String
file_name = "rates_base=EUR_date=today.json"

records :
    (record_snapshot recording_go sample_env disk sample_context none sample_collection redated
      "dir" sample_world).0
    ≡ ok (file_name, written)
unfolding record_snapshot live_only_decoder build_url pieces lookup do_live_fetch receive
    snapshot_key sort_strings keys
records = refl

record_snapshot-IsRecorded_example :
    IsRecorded recording_go sample_env disk sample_context none sample_collection redated "dir"
      sample_world file_name written
record_snapshot-IsRecorded_example =
    record_snapshot-IsRecorded recording_go sample_env disk sample_context none sample_collection
      redated "dir" sample_world file_name written records

abbrev replaying : Database
replaying = record offline { snapshots = some (λ key. ok written) }

fetch_rows-record_snapshot_example :
    (r : IsRecorded recording_go sample_env disk sample_context none sample_collection redated "dir"
      sample_world file_name written)
    × ((fetch_rows recording_go sample_env replaying sample_context sample_collection dated
          sample_world).0
        ≡ served recording_go sample_env disk sample_context none sample_collection redated "dir"
            sample_world file_name written r)
fetch_rows-record_snapshot_example =
    fetch_rows-record_snapshot recording_go sample_env disk sample_context none sample_collection
      redated "dir" sample_world file_name written replaying (λ key. ok written) sample_context
      sample_world dated same_order keeps refl refl refl records

abbrev observed_once : Provenance
observed_once = provenance_of "rates" snapshot 200 7

-- the addresses of two recorders
abbrev attached_at : ℕ
attached_at = 7

abbrev other_at : ℕ
other_at = 8

watched :
    (fetch_rows sample_go sample_env offline
      (with_context attached_at sample_context)
      sample_collection
      asked
      sample_world).0
    ≡ ok (sample_row ∷ [], observed_once)
unfolding with_context fetch_rows read_snapshot observe decode_rows extract_rows segments navigate
    rows_of
watched = refl

abbrev recorders : Recorders
recorders address = new_recorder

fetch_rows-last_observed_example :
    (last_observed (
        delivered
          (fetch_rows sample_go sample_env offline
            (with_context attached_at sample_context)
            sample_collection
            asked
            sample_world).1.observed
          recorders
          attached_at)
      ≡ (observed_once, true))
    × ((other_at ≡ attached_at)
        ⊎ (delivered
              (fetch_rows sample_go sample_env offline
                (with_context attached_at sample_context)
                sample_collection
                asked
                sample_world).1.observed
              recorders
              8
            ≡ delivered sample_world.observed recorders other_at))
fetch_rows-last_observed_example =
    fetch_rows-last_observed sample_go sample_env offline sample_context sample_collection asked
      sample_world (sample_row ∷ []) observed_once recorders attached_at other_at watched

-- the read of a map where the network is down, which a database that serves snapshots does not ask
abbrev unplugged : Env
unplugged = record sample_env { client_do = λ before req. err (foreign "network is unreachable") }

abbrev read_unplugged : Params → Read (List Row × Provenance)
read_unplugged =
    fetch_params sample_go unplugged offline sample_context sample_collection sample_world

fetch_rows-IsRead_example :
    IsRead sample_go sample_env offline sample_context sample_collection sample_world read_unplugged
    ↔ (read_unplugged
        ≡ fetch_params sample_go sample_env offline sample_context sample_collection sample_world)
fetch_rows-IsRead_example =
    fetch_rows-IsRead sample_go sample_env offline sample_context sample_collection sample_world
      read_unplugged

fetch_rows-collides_example :
    fetch_rows sample_go sample_env offline sample_context sample_collection
      (pair "a" "1" (joined "b" "c") "2")
      sample_world
    ≡ fetch_rows sample_go sample_env offline sample_context sample_collection
        (pair "a" (joined "1" "b") "c" "2")
        sample_world
fetch_rows-collides_example =
    fetch_rows-collides sample_go sample_env offline sample_context sample_collection "a" "1" "b"
      "c" "2" sample_world refl (λ s t. refl) refl refl refl refl
