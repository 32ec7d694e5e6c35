-- ===== src/Database/Observed.antt =====
-- What fetchRows of database.go reports as the provenance of a live answer.
use dalgo2http.Prelude.{
  ℕ, lookup, All, ◌≤◌, String, ◌≡◌, refl, ◌∙◌, ap, true, false, List, [], ◌∷◌, length, arith, sym,
}
use dalgo2http.Errors.{ok}
use dalgo2http.Value.{Row}
use dalgo2http.Runtime.{Go}
use dalgo2http.Descriptor.{
  Decoder, unset, json, ecb_euro_fx_ref, strict_csv3, Collection, live_only_decoder,
}
use dalgo2http.Provenance.{Provenance, provenance_of, live}
use dalgo2http.Request.{HttpResponse, observation_of}
use dalgo2http.Request.Classes.{observed}
use dalgo2http.EcbXml.Rows.{IsQuote}
use dalgo2http.Decoder.Total.{HasDate}
use dalgo2http.Database.Total.{lookup-quote_row}
use dalgo2http.Database.{reference_date, complete}

-- What an observation of a live-only profile says: where the body came from, and what it was.
pub record IsObservation (g : Go) (coll : Collection) (url : String) (resp : HttpResponse)
    (p : Provenance) : Type 0 where
  pub decoder : p.decoder ≡ coll.decoder
  pub upstream_url : p.upstream_url ≡ url
  pub content_type : p.content_type ≡ resp.header "Content-Type"
  pub last_modified : p.last_modified ≡ resp.header "Last-Modified"
  pub etag : p.etag ≡ resp.header "ETag"
  pub sha256 : p.sha256 ≡ g.sha256_hex resp.body
  pub bytes : p.bytes ≡ length resp.body

-- The provenance of the rows of a response: live, of the collection, with the status and the time; for a
-- live-only profile the observation, for the one of the ECB also the base currency and the rows' date,
-- and otherwise nothing more.
pub record IsLive (g : Go) (coll : Collection) (url : String) (resp : HttpResponse) (time : ℕ)
    (rows : List Row) (p : Provenance) : Type 0 where
  pub source : p.source ≡ live
  pub collection : p.collection ≡ coll.name
  pub status_code : p.status_code ≡ resp.status_code
  pub fetched_at : p.fetched_at ≡ time
  pub profile : live_only_decoder coll.decoder ≡ true → IsObservation g coll url resp p
  pub dated :
      coll.decoder ≡ ecb_euro_fx_ref
      → (p.base_currency ≡ "EUR") × (reference_date rows ≡ ok p.reference_date)
  pub plain :
      live_only_decoder coll.decoder ≡ false
      → p ≡ provenance_of coll.name live resp.status_code time

reference_date-there :
    (rows : List Row)
    → All IsQuote rows
    → 1 ≤ length rows
    → (date : String) × (reference_date rows ≡ ok date)
unfolding reference_date
reference_date-there [] h k = absurd (omega arith)
reference_date-there (row ∷ rows) (q, h) k = (
  q.date,
  rw (ap (lookup "time") q.shape ∙ lookup-quote_row q.date q.currency q.rate, reference_date) refl,
)

-- what the fetch has left in the provenance, before the decoder completes it
abbrev pub fetched_provenance : Go → Collection → String → HttpResponse → ℕ → Provenance
fetched_provenance g coll url resp time =
    record (observed g coll url resp (provenance_of coll.name live 0 0)) {
      status_code = resp.status_code;
      fetched_at = time;
    }

-- where the decoder is not of a live-only profile, nothing completes the provenance
plain_IsLive :
    (g : Go) (coll : Collection) (url : String) (resp : HttpResponse) (time : ℕ) (rows : List Row)
    → live_only_decoder coll.decoder ≡ false
    → IsLive g coll url resp time rows (fetched_provenance g coll url resp time)
unfolding live_only_decoder
plain_IsLive g coll url resp time rows plain = record {
  source = rw plain refl;
  collection = rw plain refl;
  status_code = refl;
  fetched_at = refl;
  profile = λ h. absurd (cc (plain, h));
  dated = λ h. absurd (cc (rw h at plain));
  plain = λ h. rw plain refl;
}

pub complete-IsLive :
    (g : Go) (coll : Collection) (url : String) (resp : HttpResponse) (time : ℕ) (decoder : Decoder)
    (rows : List Row)
    → coll.decoder ≡ decoder
    → HasDate decoder rows
    → (p : Provenance) × (complete decoder rows (fetched_provenance g coll url resp time) ≡ ok p)
      × IsLive g coll url resp time rows p
unfolding complete observation_of live_only_decoder
complete-IsLive g coll url resp time ecb_euro_fx_ref rows e (quotes, there) =
    let (date, found) = reference_date-there rows quotes there in
    (
      record (fetched_provenance g coll url resp time) {
        decoder = ecb_euro_fx_ref;
        base_currency = "EUR";
        reference_date = date;
      },
      rw found refl,
      record {
        source = rw e refl;
        collection = rw e refl;
        status_code = refl;
        fetched_at = refl;
        profile = λ h. record {
          decoder = sym e;
          upstream_url = rw e refl;
          content_type = rw e refl;
          last_modified = rw e refl;
          etag = rw e refl;
          sha256 = rw e refl;
          bytes = rw e refl;
        };
        dated = λ h. (refl, found);
        plain = λ h. absurd (cc (rw e at h));
      },
    )
complete-IsLive g coll url resp time strict_csv3 rows e h = (
  record (fetched_provenance g coll url resp time) { decoder = strict_csv3 },
  refl,
  record {
    source = rw e refl;
    collection = rw e refl;
    status_code = refl;
    fetched_at = refl;
    profile = λ h. record {
      decoder = sym e;
      upstream_url = rw e refl;
      content_type = rw e refl;
      last_modified = rw e refl;
      etag = rw e refl;
      sha256 = rw e refl;
      bytes = rw e refl;
    };
    dated = λ h. absurd (cc (rw e at h));
    plain = λ h. absurd (cc (rw e at h));
  },
)
complete-IsLive g coll url resp time unset rows e h = (
  fetched_provenance g coll url resp time,
  refl,
  plain_IsLive g coll url resp time rows (rw e refl),
)
complete-IsLive g coll url resp time json rows e h = (
  fetched_provenance g coll url resp time,
  refl,
  plain_IsLive g coll url resp time rows (rw e refl),
)
complete-IsLive g coll url resp time (Decoder.other name) rows e h = (
  fetched_provenance g coll url resp time,
  refl,
  plain_IsLive g coll url resp time rows (rw e refl),
)
