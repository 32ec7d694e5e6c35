-- ===== src/Request/Classes.antt =====
-- Which outcomes of a request are successes, and which error class a failure has.
use dalgo2http.Prelude.{
  ℕ, zero, suc, ◌+◌, ◌∙◌, ◌≤◌, ◌<◌, String, ◌≡◌, refl, sym, ap, subst, inl, inr, true, false, not,
  ◌||◌, [], ◌∷◌, Option, none, some, Bool-cases, if◌then◌else◌, ltb, leb, nat_eq, length, take,
  arith,
}
use dalgo2http.Errors.{
  Error, error_is, upstream, upstream_client, redirect_not_allowed, address_blocked, ok, err,
  >>=-eq-ok, fail_if-eq-ok, ok_inj,
}
use dalgo2http.Runtime.{Go, Bytes}
use dalgo2http.Descriptor.{Collection, live_only_decoder}
use dalgo2http.Provenance.{Provenance}
use dalgo2http.Request.{
  HttpResponse, Live, receive, read_limited, check_status, observe_response, response_byte_limit,
  transport_error, has_long_header, observation_of,
}

-- A transport error is of the client's class exactly when it is a refused redirect or a blocked
-- address, and it is of the client's class or the upstream's.
pub transport_error-class :
    (e : Error)
    → (error_is (transport_error e) upstream_client
        ≡ (error_is e redirect_not_allowed || error_is e address_blocked))
      × ((error_is (transport_error e) upstream_client || error_is (transport_error e) upstream)
          ≡ true)
unfolding transport_error
transport_error-class e = ground arith

length-take_le : (n : ℕ) (b : Bytes) → n ≤ length b → length (take n b) ≡ n
length-take_le zero b h = refl
length-take_le (suc n) [] h = absurd (omega arith)
length-take_le (suc n) (x ∷ b) h = ap suc (length-take_le n b (omega arith))

read_limited-ok :
    (n : ℕ) (resp : HttpResponse) (b : Bytes)
    → read_limited n resp ≡ ok b
    → length b < n
    → (b ≡ resp.body) × (resp.body_error ≡ none)
unfolding read_limited
read_limited-ok n resp b e h = ground (arith, length-take_le n resp.body)

check_status-ok : (status : ℕ) {u : Unit {0}} → check_status status ≡ ok u → status < 400
unfolding check_status
check_status-ok status e = ground arith

-- A response is taken only if its status is below 400, its body ended without an error, and the body
-- is within the decoder's limit; the body is then handed on whole.
pub receive-ok :
    (g : Go) (coll : Collection) (raw_url : String) (o : Option Provenance) (resp : HttpResponse)
    (fetched : Live)
    → receive g coll raw_url o resp ≡ ok fetched
    → (fetched.body ≡ resp.body)
      × (length resp.body ≤ response_byte_limit coll.decoder)
      × (resp.body_error ≡ none)
      × (resp.status_code < 400)
      × (fetched.status_code ≡ resp.status_code)
unfolding receive
receive-ok g coll raw_url o resp fetched e =
    let (b, read, e₁) = >>=-eq-ok (read_limited _ resp) _ e in
    let (small, e₂) = fail_if-eq-ok (ltb (response_byte_limit coll.decoder) (length b)) _ _ e₁ in
    let (_, accepted, e₃) = >>=-eq-ok (check_status resp.status_code) _ e₂ in
    let (seen, _, shape) =
      >>=-eq-ok
        (if live_only_decoder coll.decoder then observe_response g raw_url resp b o else ok o) _
        e₃ in
    let (whole, ended) = read_limited-ok _ resp b read (ground arith) in
    let same = ok_inj _ fetched shape in
    (
      ap (λ (l : Live). l.body) (sym same) ∙ whole,
      subst (λ (c : Bytes). length c ≤ response_byte_limit coll.decoder) whole (ground arith),
      ended,
      check_status-ok resp.status_code accepted,
      ap (λ (l : Live). l.status_code) (sym same),
    )

check_status_class :
    (status : ℕ)
    → 400 ≤ status
    → (e : Error) × (check_status status ≡ err e)
      × (error_is e upstream ≡ (leb 500 status || nat_eq status 429))
      × (error_is e upstream_client ≡ not (leb 500 status || nat_eq status 429))
unfolding check_status
check_status_class status h = elim (Bool-cases (leb 500 status || nat_eq status 429)) [
  | inl transient ↦ rw transient (_, refl, refl, refl)
  | inr lasting ↦ rw (lasting, high) (_, refl, refl, refl)
]
  where
    high : leb 400 status ≡ true
    high = ground arith

read_limited_whole :
    (limit : ℕ) (resp : HttpResponse)
    → length resp.body ≤ limit
    → resp.body_error ≡ none
    → read_limited (limit + 1) resp ≡ ok resp.body
unfolding read_limited
read_limited_whole limit resp small ended = ground arith

-- A whole response within the limit whose status is 400 or more fails: in the upstream's class, which
-- a snapshot may stand in for, if the status is 429 or at least 500, and in the client's class if not.
pub receive_class :
    (g : Go) (coll : Collection) (raw_url : String) (o : Option Provenance) (resp : HttpResponse)
    → length resp.body ≤ response_byte_limit coll.decoder
    → resp.body_error ≡ none
    → 400 ≤ resp.status_code
    → (e : Error) × (receive g coll raw_url o resp ≡ err e)
      × (error_is e upstream ≡ (leb 500 resp.status_code || nat_eq resp.status_code 429))
      × (error_is e upstream_client ≡ not (leb 500 resp.status_code || nat_eq resp.status_code 429))
unfolding receive
receive_class g coll raw_url o resp small ended high =
    let (e, failed, transient, lasting) = check_status_class resp.status_code high in
    let fits : ltb (response_byte_limit coll.decoder) (length resp.body) ≡ false = ground arith in
    (
      e,
      rw (
        read_limited_whole (response_byte_limit coll.decoder) resp small ended,
        fits,
        failed,
        receive,
      ),
      transient,
      lasting,
    )

check_status_taken : (status : ℕ) → status < 400 → check_status status ≡ ok tt
unfolding check_status
check_status_taken status h = ground arith

-- what a live fetch leaves of the provenance that it is given
abbrev pub observed : Go → Collection → String → HttpResponse → Provenance → Provenance
observed g coll raw_url resp p =
    if live_only_decoder coll.decoder then observation_of g raw_url resp resp.body p else p

-- A whole response within the limit whose status is below 400 is taken, with its body and its status;
-- for a live-only profile its observed headers are at most 1024 bytes long, and the observation is
-- made on the provenance.
pub receive_taken :
    (g : Go) (coll : Collection) (raw_url : String) (p : Provenance) (resp : HttpResponse)
    → length resp.body ≤ response_byte_limit coll.decoder
    → resp.body_error ≡ none
    → resp.status_code < 400
    → (live_only_decoder coll.decoder ≡ true → has_long_header resp ≡ false)
    → receive g coll raw_url (some p) resp
      ≡ ok (record {
        body = resp.body;
        status_code = resp.status_code;
        observation = some (observed g coll raw_url resp p);
      })
unfolding receive observe_response
receive_taken g coll raw_url p resp small ended taken short =
    let fits : ltb (response_byte_limit coll.decoder) (length resp.body) ≡ false = ground arith in
    let whole = read_limited_whole (response_byte_limit coll.decoder) resp small ended in
    let accepted = check_status_taken resp.status_code taken in
    elim (Bool-cases (live_only_decoder coll.decoder)) [
      | inl profile ↦ rw (whole, fits, accepted, profile, short profile, receive) refl
      | inr plain ↦ rw (whole, fits, accepted, plain, receive) refl
    ]
