-- ===== src/Config/Profiles.antt =====
-- What the decoder of a collection asks of it: `validateDecoder` of decoder.go and `validateStrictCSV3`
-- of strict_csv.go.
use dalgo2http.Prelude.{◌≡◌, refl, ◌↔◌, true, false, arith, ◌==◌, is_empty}
use dalgo2http.Errors.{ok}
use dalgo2http.Runtime.{Go, Url}
use dalgo2http.Descriptor.{Decoder, unset, json, ecb_euro_fx_ref, strict_csv3, Collection}
use dalgo2http.Query.{is_positive}
use dalgo2http.Config.Decoders.{
  exceeds, max_strict_csv3_time, validate_ecb, validate_strict_csv3, validate_decoder,
}

-- a fixed URL of a named host, without credentials, query or fragment
pub record IsFixed (url : Url) : Type 0 where
  pub named : (url.hostname == "") ≡ false
  pub no_user : url.has_user ≡ false
  pub no_query : (url.raw_query == "") ≡ true
  pub no_fragment : (url.fragment == "") ≡ true

pub record IsEcbProfile (coll : Collection) (url : Url) : Type 0 where
  pub rows_path : (coll.rows_path == "") ≡ true
  pub key_field : (coll.key_field == "currency") ≡ true
  pub params : is_empty coll.params ≡ true
  pub headers : is_empty coll.headers ≡ true
  pub timed : is_positive coll.timeout ≡ true
  pub fixed : IsFixed url

pub record IsCsvProfile (coll : Collection) (url : Url) : Type 0 where
  pub rows_path : (coll.rows_path == "") ≡ true
  pub key_field : (coll.key_field == "Value") ≡ true
  pub params : is_empty coll.params ≡ true
  pub headers : is_empty coll.headers ≡ true
  pub filters : coll.client_side_filter ≡ true
  pub timed : is_positive coll.timeout ≡ true
  pub bounded : exceeds coll.timeout max_strict_csv3_time ≡ false
  pub fixed : IsFixed url
  pub unforced : url.force_query ≡ false

-- the profile of a decoder, for the URL that the template parses as
abbrev pub IsProfiled : Decoder → Collection → Url → Type 0
IsProfiled unset coll url = Unit
IsProfiled json coll url = Unit
IsProfiled ecb_euro_fx_ref coll url = IsEcbProfile coll url
IsProfiled strict_csv3 coll url = IsCsvProfile coll url
IsProfiled (Decoder.other name) coll url = ⊥

module _ (g : Go) (coll : Collection) (url : Url)
    (parses : g.url_parse coll.url_template ≡ ok url) where
  validate_ecb-IsEcbProfile : validate_ecb g coll ≡ ok tt → IsEcbProfile coll url
  unfolding validate_ecb
  validate_ecb-IsEcbProfile e = record {
    rows_path = ground (arith, parses, e);
    key_field = ground (arith, parses, e);
    params = ground (arith, parses, e);
    headers = ground (arith, parses, e);
    timed = ground (arith, parses, e);
    fixed = record {
      named = ground (arith, parses, e);
      no_user = ground (arith, parses, e);
      no_query = ground (arith, parses, e);
      no_fragment = ground (arith, parses, e);
    };
  }

  IsEcbProfile-validate_ecb : IsEcbProfile coll url → validate_ecb g coll ≡ ok tt
  unfolding validate_ecb
  IsEcbProfile-validate_ecb p =
      let u = p.fixed in
      rw
        (
          p.rows_path, p.key_field, p.params, p.timed, parses, u.named, u.no_user, u.no_query,
          u.no_fragment, p.headers,
        )
        refl

  validate_strict_csv3-IsCsvProfile : validate_strict_csv3 g coll ≡ ok tt → IsCsvProfile coll url
  unfolding validate_strict_csv3
  validate_strict_csv3-IsCsvProfile e = record {
    rows_path = ground (arith, parses, e);
    key_field = ground (arith, parses, e);
    params = ground (arith, parses, e);
    headers = ground (arith, parses, e);
    filters = ground (arith, parses, e);
    timed = ground (arith, parses, e);
    bounded = ground (arith, parses, e);
    fixed = record {
      named = ground (arith, parses, e);
      no_user = ground (arith, parses, e);
      no_query = ground (arith, parses, e);
      no_fragment = ground (arith, parses, e);
    };
    unforced = ground (arith, parses, e);
  }

  IsCsvProfile-validate_strict_csv3 : IsCsvProfile coll url → validate_strict_csv3 g coll ≡ ok tt
  unfolding validate_strict_csv3
  IsCsvProfile-validate_strict_csv3 p =
      let u = p.fixed in
      rw
        (
          p.rows_path, p.key_field, p.params, p.headers, p.filters, p.timed, p.bounded, parses,
          u.named, u.no_query, p.unforced, u.no_fragment, u.no_user,
        )
        refl

  -- Where the template parses, the decoder's validation passes exactly for its profile.
  pub validate_decoder_iff :
      (decoder : Decoder) → (validate_decoder g decoder coll ≡ ok tt) ↔ IsProfiled decoder coll url
  unfolding validate_decoder
  validate_decoder_iff unset = (λ e. tt, λ p. refl)
  validate_decoder_iff json = (λ e. tt, λ p. refl)
  validate_decoder_iff ecb_euro_fx_ref = (validate_ecb-IsEcbProfile, IsEcbProfile-validate_ecb)
  validate_decoder_iff strict_csv3 =
      (validate_strict_csv3-IsCsvProfile, IsCsvProfile-validate_strict_csv3)
  validate_decoder_iff (Decoder.other name) = (λ e. cc, λ p. elim p [ ])
