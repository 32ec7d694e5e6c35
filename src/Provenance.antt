-- ===== src/Provenance.antt =====
-- provenance.go: where rows come from, and the recorder of the last observation.
use dalgo2http.Prelude.{ℕ, String, Bool, true, false, some}
use dalgo2http.Context.{Context, context_with_provenance_observer}
use dalgo2http.Descriptor.{Decoder, unset}

pub data Source : Type 0 where
  live snapshot : Source

-- the zero instant is 0
pub record Provenance : Type 0 where
  pub collection : String
  pub source : Source
  pub status_code : ℕ
  pub fetched_at : ℕ
  pub decoder : Decoder
  pub base_currency : String
  pub reference_date : String
  pub upstream_url : String
  pub content_type : String
  pub last_modified : String
  pub etag : String
  pub sha256 : String
  pub bytes : ℕ

-- `Provenance{Collection: …, Source: …, StatusCode: …, FetchedAt: …}`
abbrev pub provenance_of : String → Source → ℕ → ℕ → Provenance
provenance_of name source status at = record {
  collection = name;
  source = source;
  status_code = status;
  fetched_at = at;
  decoder = unset;
  base_currency = "";
  reference_date = "";
  upstream_url = "";
  content_type = "";
  last_modified = "";
  etag = "";
  sha256 = "";
  bytes = 0;
}

-- `Recorder`, whose mutex makes each method one step
pub record Recorder : Type 0 where
  pub last : Provenance
  pub seen : Bool

unfoldable pub new_recorder : Recorder
new_recorder = record { last = provenance_of "" live 0 0; seen = false }

unfoldable pub observe : Recorder → Provenance → Recorder
observe r p = record r { last = p; seen = true }

unfoldable pub last_observed : Recorder → Provenance × Bool
last_observed r = (r.last, r.seen)

-- the context wired so that the recorder at the address observes
unfoldable pub with_context : ℕ → Context → Context
unfolding context_with_provenance_observer
with_context r ctx = context_with_provenance_observer ctx (some r)
