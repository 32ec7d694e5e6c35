-- ===== src/Samples/Serving.antt =====
-- Runs of the database: reads, queries and transactions.
use dalgo2http.Prelude.{
  among, ◌||◌, ◌&&◌, String, ◌≡◌, refl, true, false, [], ◌∷◌, some, Dict, lookup, insert, has_key,
}
use dalgo2http.Errors.{sentinel, not_found, ok, err}
use dalgo2http.Value.{str}
use dalgo2http.Dal.{structured}
use dalgo2http.Descriptor.{Collection}
use dalgo2http.Provenance.{Provenance, provenance_of, snapshot}
use dalgo2http.Filter.{is_absent}
use dalgo2http.Query.{
  stringify_param, find_collection, refuse_unsupported, column_field_names, collect_equalities,
  plan_query, rows_to_records, Record,
}
use dalgo2http.JsonPath.{extract_rows, segments, navigate, rows_of}
use dalgo2http.Decoder.{decode_rows}
use dalgo2http.Snapshot.{read_snapshot}
use dalgo2http.Database.{observe, fetch_rows}
use dalgo2http.Database.Fetch.{Told}
use dalgo2http.Database.Sources.{fetch_rows-Told}
use dalgo2http.Database.Origins.{ComesFrom, fetch_rows-ComesFrom}
use dalgo2http.Reads.{
  Target, limit_records, shape_rows, find_row, execute_query_to_records_reader, get, exists,
}
use dalgo2http.Reads.Queries.{
  IsAnswerOf, execute_query_to_records_reader-IsAnswerOf, Requested,
  execute_query_to_records_reader-Requested,
}
use dalgo2http.Reads.Gets.{get-exists}
use dalgo2http.Capabilities.{Capabilities, capabilities}
use dalgo2http.Database.{Database}
use dalgo2http.Snapshot.{sort_strings, keys}
use dalgo2http.Dal.{equal}
use dalgo2http.Query.Single.{is_ok, IsComparison}
use dalgo2http.Capabilities.Queries.{capabilities-plan_query}
use dalgo2http.Samples.{
  sample_go, sample_row, sample_value, sample_collection, sample_env, sample_world, sample_context,
  offline, online, sample_query, sample_target,
}

abbrev asked : Dict String
asked = ("base", "EUR") ∷ []

abbrev served : Provenance
served = provenance_of "rates" snapshot 200 7

fetches_offline :
    (fetch_rows sample_go sample_env offline sample_context sample_collection asked sample_world).0
    ≡ ok (sample_row ∷ [], served)
unfolding fetch_rows read_snapshot observe decode_rows extract_rows segments navigate rows_of
fetches_offline = refl

fetch_rows-ComesFrom_example :
    ComesFrom sample_go sample_env offline sample_context sample_collection asked sample_world
      (sample_row ∷ [])
      served
fetch_rows-ComesFrom_example =
    fetch_rows-ComesFrom sample_go sample_env offline sample_context sample_collection asked
      sample_world (sample_row ∷ []) served fetches_offline

fetch_rows-Told_example :
    Told sample_context sample_world
      (fetch_rows sample_go sample_env online sample_context sample_collection asked sample_world)
fetch_rows-Told_example =
    fetch_rows-Told sample_go sample_env online sample_context sample_collection asked sample_world

execute_query_to_records_reader-Requested_example :
    Requested sample_go sample_env online sample_context sample_query sample_world
      (execute_query_to_records_reader sample_go sample_env online sample_context
        (structured sample_query)
        sample_world).1
execute_query_to_records_reader-Requested_example =
    execute_query_to_records_reader-Requested sample_go sample_env online sample_context
      sample_query sample_world

abbrev sample_record : Record
sample_record = record { collection = "rates"; id = "EUR"; value = sample_value }

answers :
    (execute_query_to_records_reader sample_go sample_env offline sample_context
      (structured sample_query)
      sample_world).0
    ≡ ok (sample_record ∷ [])
unfolding execute_query_to_records_reader plan_query find_collection refuse_unsupported
    column_field_names collect_equalities lookup insert has_key is_absent fetch_rows read_snapshot
    observe decode_rows extract_rows segments navigate rows_of shape_rows rows_to_records
    limit_records
answers = refl

execute_query_to_records_reader-IsAnswerOf_example :
    IsAnswerOf sample_go sample_env offline sample_context sample_query sample_world
      (sample_record ∷ [])
execute_query_to_records_reader-IsAnswerOf_example =
    execute_query_to_records_reader-IsAnswerOf sample_go sample_env offline sample_context
      sample_query sample_world (sample_record ∷ []) answers

-- the endpoint answers with another row
abbrev other_target : Target
other_target = record sample_target { id = str "USD" }

exists_not :
    exists sample_go sample_env offline sample_context "rates" (str "USD") sample_world
    ≡ (ok false, record { requests = []; observed = (0, served) ∷ [] })
unfolding exists find_collection lookup has_key fetch_rows read_snapshot observe decode_rows
    extract_rows segments navigate rows_of find_row
exists_not = refl

get-exists_example : get sample_go sample_env offline sample_context other_target sample_world ≡ (
  (err (sentinel not_found), record { requests = []; observed = (0, served) ∷ [] }),
  record other_target { error = some (sentinel not_found) },
)
get-exists_example =
    get-exists sample_go sample_env offline sample_context other_target sample_world
      (record { requests = []; observed = (0, served) ∷ [] }) exists_not

abbrev undeclared : Collection
undeclared = record sample_collection { key_field = "id" }

abbrev closed : Database
closed = record online { collections = ("rates", undeclared) ∷ [] }

abbrev closed_capabilities : Capabilities
closed_capabilities = record {
  collection = "rates";
  fields = "base" ∷ [];
  operators = equal ∷ [];
  supports_get = false;
  client_side_filter = false;
}

tells : capabilities closed "rates" ≡ ok closed_capabilities
unfolding capabilities find_collection lookup has_key sort_strings keys
tells = refl

compares : IsComparison sample_go sample_query "base" equal (str "EUR")
unfolding stringify_param is_absent
compares = record {
  plain = record {
    joins = refl;
    group_by = refl;
    having = refl;
    order_by = refl;
    offset = refl;
    start_from = refl;
    start_after = refl;
  };
  columns = refl;
  condition = refl;
  text = "EUR";
  stringified = refl;
}

capabilities-plan_query_example :
    is_ok (plan_query sample_go closed.collections sample_query)
    ≡ (false || (true && among "base" ("base" ∷ [])))
capabilities-plan_query_example =
    capabilities-plan_query sample_go closed sample_query "base" equal (str "EUR")
      closed_capabilities tells compares
