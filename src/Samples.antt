-- ===== src/Samples.antt =====
-- Concrete surroundings, on which the operations are run.
mod Reading
mod Asking
mod Configuring
mod Serving
mod Failing
mod Replaying
mod Working
mod Composing
mod Publishing
mod Filtering
use dalgo2http.Prelude.{
  ℕ, String, Bool, true, false, List, [], ◌∷◌, Option, none, some, nat_eq, ltb, leb, if◌then◌else◌,
  ◌==◌,
}
use dalgo2http.Context.{Context}
use dalgo2http.Errors.{Error, foreign, Result, ok, err}
use dalgo2http.Value.{ℤ, pos, negsuc, Any, nil, str, slice, object, end, field, stop, item, Row}
use dalgo2http.EcbXml.{gesmes_namespace, ecb_namespace}
use dalgo2http.Runtime.{
  Name, Attr, Token, start_element, end_element, Go, Bytes, Url, SnapshotEnvelope,
}
use dalgo2http.Dal.{
  StructuredQuery, Condition, group, comparison, both, none_left, and, equal, absent, field_ref,
  constant,
}
use dalgo2http.Descriptor.{Decoder, Method, ParamLocation, Param, Collection}
use dalgo2http.Request.{Env, World, HttpResponse}
use dalgo2http.Database.{Mode, snapshot_only, live_then_snapshot, Database}
use dalgo2http.Security.{Network, new_default_client}
use dalgo2http.Reads.{Target}

abbrev pub sample_url : Url
sample_url = record {
  scheme = "https";
  has_user = false;
  hostname = "api.example";
  force_query = false;
  raw_query = "";
  fragment = "";
  rest = "/rates";
}

-- `{"base": "EUR", "rate": "1.1"}`
abbrev pub sample_row : Row
sample_row = ("base", str "EUR") ∷ ("rate", str "1.1") ∷ []

abbrev pub sample_value : Any
sample_value = object (field "base" (str "EUR") (field "rate" (str "1.1") end))

-- a daily document of one quote
abbrev pub gesmes_name : String → Name
gesmes_name local = record { space = gesmes_namespace; local = local }

abbrev pub cube_name : Name
cube_name = record { space = ecb_namespace; local = "Cube" }

abbrev pub plain_attr : String → String → Attr
plain_attr local value = record { name = record { space = ""; local = local }; value = value }

abbrev pub sample_tokens : List (Result Token)
sample_tokens =
    ok (start_element (gesmes_name "Envelope") [])
    ∷ ok (start_element cube_name [])
    ∷ ok (start_element cube_name (plain_attr "time" "2024-05-17" ∷ []))
    ∷ ok (start_element cube_name (plain_attr "currency" "USD" ∷ plain_attr "rate" "1.0844" ∷ []))
    ∷ ok end_element
    ∷ ok end_element
    ∷ ok end_element
    ∷ ok end_element
    ∷ []

abbrev pub sample_go : Go
sample_go = record {
  float_eq = nat_eq;
  float_lt = ltb;
  float_le = leb;
  float_of_int = λ z. elim z [ pos n ↦ n | negsuc n ↦ 0 ];
  widen = λ n. n;
  sprint = λ v. elim v [ str s ↦ s | _ ↦ "%!v" ];
  is_null_value = λ v. false;
  format_rfc3339 = λ n. "1970-01-01T00:00:00Z";
  url_parse = λ s. ok (record sample_url { rest = s });
  url_query = λ u. [];
  url_encode = λ q. "";
  url_string = λ u. u.rest;
  path_escape = λ s. s;
  query_escape = λ s. s;
  to_lower = λ s. s;
  equal_fold = λ s t. s == t;
  parse_ip = λ s. if s == "127.0.0.1" then some (127 ∷ 0 ∷ 0 ∷ 1 ∷ []) else none;
  ip_string = λ ip. "127.0.0.1";
  split_host_port =
      λ s. if s == "127.0.0.1:80" then ok ("127.0.0.1", "80") else ok ("api.example", "443");
  join_host_port = λ host port. host;
  parse_duration = λ s. ok (pos 1);
  is_date = λ s. true;
  json_unmarshal = λ b. ok (slice (item sample_value stop));
  csv_reader = λ n b.
      ok ("Value" ∷ "Description" ∷ "Reference" ∷ []) ∷ ok ("AED" ∷ "Dirham" ∷ "4217" ∷ []) ∷ [];
  xml_tokens = λ b. sample_tokens;
  utf8_valid = λ b. true;
  sha256_hex = λ b. "e3b0";
  map_to_data = λ factory row. ok nil;
  new_request = λ s. ok tt;
  canonical_header = λ s. s;
  unmarshal_envelope = λ b. ok (record { fetched_at = 7; status_code = 200; body = b });
  marshal_envelope = λ e. ok e.body;
}

abbrev pub sample_collection : Collection
sample_collection = record {
  name = "rates";
  decoder = Decoder.unset;
  url_template = "https://api.example/rates/{base}";
  method = Method.unset;
  params = ("base", record { location = ParamLocation.path }) ∷ [];
  rows_path = "";
  key_field = "base";
  headers = [];
  timeout = pos 0;
  client_side_filter = false;
  insecure_allow_loopback = false;
}

-- every request is answered by one object; the clock counts the requests
abbrev pub sample_response : HttpResponse
sample_response = record {
  status_code = 200;
  header = λ name. "";
  body = 123 ∷ 125 ∷ [];
  body_error = none;
}

abbrev pub sample_env : Env
sample_env = record {
  getenv = λ name. "";
  client_do = λ before req. ok sample_response;
  now = λ before. 1;
}

abbrev pub sample_world : World
sample_world = record { requests = []; observed = [] }

abbrev pub sample_context : Context
sample_context = record { insecure_loopback = false; observer = some 0 }

-- a database that serves snapshots only, and one that asks the network
abbrev pub offline : Database
offline = record {
  collections = ("rates", sample_collection) ∷ [];
  client = some new_default_client;
  snapshots = some (λ key. ok (123 ∷ 125 ∷ []));
  mode = snapshot_only;
}

abbrev pub online : Database
online = record offline { mode = live_then_snapshot }

-- `SELECT * FROM rates WHERE base = 'EUR' LIMIT 1`
abbrev pub sample_condition : Condition
sample_condition = comparison (field_ref "base") equal (constant (str "EUR"))

abbrev pub sample_query : StructuredQuery
sample_query = record {
  from = "rates";
  joins = [];
  group_by = [];
  having = absent;
  order_by = [];
  offset = pos 0;
  start_from = "";
  start_after = "";
  columns = [];
  condition = sample_condition;
  limit = pos 1;
  into_record = none;
}

abbrev pub sample_target : Target
sample_target = record {
  collection = "rates";
  id = str "EUR";
  factory = 0;
  error = none;
  value = none;
}

-- no name resolves, and every dial succeeds
abbrev pub sample_network : Network
sample_network = record {
  lookup_ip_addr = λ asked host. ok [];
  dial_context = λ asked network addr. ok 1;
}
