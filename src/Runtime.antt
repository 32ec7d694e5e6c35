-- ===== src/Runtime.antt =====
-- What the program takes from Go's standard library and from the dalgo and record packages, none of
-- which is in the repository: a record of functions, which every definition that needs one takes
-- as its first argument. Texts are valid UTF-8, bodies are lists of bytes.
use dalgo2http.Prelude.{ℕ, Bool, String, List, Option, Dict}
use dalgo2http.Errors.{Result}
use dalgo2http.Value.{ℤ, Any, Row}

abbrev pub Bytes : Type 0
Bytes = List ℕ

-- the fields of `url.URL` that the program reads or sets; `rest` stands for the others
pub record Url : Type 0 where
  pub scheme : String
  pub has_user : Bool
  pub hostname : String
  pub force_query : Bool
  pub raw_query : String
  pub fragment : String
  pub rest : String

-- `xml.Name` and `xml.Attr`
pub record Name : Type 0 where
  pub space : String
  pub local : String

pub record Attr : Type 0 where
  pub name : Name
  pub value : String

-- `xml.Token`
pub data Token : Type 0 where
  start_element : Name → List Attr → Token
  end_element : Token
  char_data : String → Token
  directive comment : Token
  proc_inst : String → Token

-- snapshot.go: `snapshotEnvelope`
pub record SnapshotEnvelope : Type 0 where
  pub fetched_at : ℕ
  pub status_code : ℕ
  pub body : Bytes

pub record Go : Type 0 where
  -- float64 comparison and conversion, on bit patterns
  pub float_eq : ℕ → ℕ → Bool
  pub float_lt : ℕ → ℕ → Bool
  pub float_le : ℕ → ℕ → Bool
  pub float_of_int : ℤ → ℕ
  pub widen : ℕ → ℕ
  -- fmt.Sprintf("%v", v), dal.IsNullValue, time.Time.Format(time.RFC3339)
  pub sprint : Any → String
  pub is_null_value : Any → Bool
  pub format_rfc3339 : ℕ → String
  -- net/url: Parse, Query, Values.Encode, URL.String, PathEscape, QueryEscape
  pub url_parse : String → Result Url
  pub url_query : Url → Dict (List String)
  pub url_encode : Dict (List String) → String
  pub url_string : Url → String
  pub path_escape : String → String
  pub query_escape : String → String
  -- strings.ToLower and strings.EqualFold
  pub to_lower : String → String
  pub equal_fold : String → String → Bool
  -- net.ParseIP, net.IP.String, net.SplitHostPort, net.JoinHostPort; an address is its bytes
  pub parse_ip : String → Option Bytes
  pub ip_string : Bytes → String
  pub split_host_port : String → Result (String × String)
  pub join_host_port : String → String → String
  -- time.ParseDuration, in nanoseconds, and whether time.Parse accepts a date
  pub parse_duration : String → Result ℤ
  pub is_date : String → Bool
  -- json.Unmarshal into `any`
  pub json_unmarshal : Bytes → Result Any
  -- csv.Reader.Read with FieldsPerRecord set, call after call until io.EOF
  pub csv_reader : ℕ → Bytes → List (Result (List String))
  -- xml.Decoder.Token, call after call until io.EOF
  pub xml_tokens : Bytes → List (Result Token)
  pub utf8_valid : Bytes → Bool
  -- a SHA-256 sum in hexadecimal digits
  pub sha256_hex : Bytes → String
  -- record.MapToData into the data of a record factory, named by a number
  pub map_to_data : ℕ → Row → Result Any
  -- whether http.NewRequestWithContext accepts a URL; the spelling that http.Header gives a name
  pub new_request : String → Result (Unit {0})
  pub canonical_header : String → String
  -- json.Unmarshal into, and json.MarshalIndent of, a snapshot envelope
  pub unmarshal_envelope : Bytes → Result SnapshotEnvelope
  pub marshal_envelope : SnapshotEnvelope → Result Bytes
