-- ===== src/Request.antt =====
-- request.go: the live fetch.
pub mod Build
pub mod Classes
pub mod Clients
pub mod Issued
pub mod Total
pub mod Parameters
pub mod Loops
pub mod Urls
pub mod Missing
use Prim.Native.String
use dalgo2http.Prelude.{
  ℕ, ◌+◌, String, Bool, true, false, not, ◌&&◌, ◌||◌, List, [], ◌∷◌, ◌++◌, Option, none, some, leb,
  ltb, nat_eq, if◌then◌else◌, ◌==◌, Dict, lookup, insert, flag, length, take,
}
use dalgo2http.Context.{Context, context_with_insecure_loopback}
use dalgo2http.Errors.{
  Error, sentinel, errorf, errorf_both, error_is, invalid_config, missing_param, upstream,
  upstream_client, redirect_not_allowed, address_blocked, response_too_large, Result, ok, err,
  panic, ◌>>=◌, ◌>>◌, fail_if, wrap_error,
}
use dalgo2http.Value.{ℤ}
use dalgo2http.Runtime.{Go, Bytes, Url}
use dalgo2http.Descriptor.{
  ParamLocation, path, query, Decoder, strict_csv3, Param, Collection, live_only_decoder,
  max_body_bytes, Piece, plain, placeholder, pieces,
}
use dalgo2http.StrictCsv.{max_strict_csv3_bytes}
use dalgo2http.Query.{is_positive}
use dalgo2http.Security.{HttpClient, denied, client_or_default}
use dalgo2http.Provenance.{Provenance}

unfoldable pub response_byte_limit : Decoder → ℕ
response_byte_limit strict_csv3 = max_strict_csv3_bytes
response_byte_limit _ = max_body_bytes

-- One request as the client gets it: its URL and headers, the timeout if there is one, whether the
-- context lets the guarded dialer use loopback, and the client that it is given to.
pub record HttpRequest : Type 0 where
  pub url : String
  pub header : Dict String
  pub timeout : Option ℤ
  pub loopback : Bool
  pub client : HttpClient

-- The bytes of a body that arrive, and the error that ends them in place of io.EOF.
pub record HttpResponse : Type 0 where
  pub status_code : ℕ
  pub header : String → String
  pub body : Bytes
  pub body_error : Option Error

-- The surroundings: the environment's variables, the client's `Do` after the requests made so far,
-- and the clock after as many.
pub record Env : Type 0 where
  pub getenv : String → String
  pub client_do : List HttpRequest → HttpRequest → Result HttpResponse
  pub now : List HttpRequest → ℕ

-- What a run leaves behind: the requests issued, and which observer was told what, in order.
pub record World : Type 0 where
  pub requests : List HttpRequest
  pub observed : List (ℕ × Provenance)

-- the loop over `coll.Headers`
set_headers : Go → Env → Dict String → Dict String → Dict String
set_headers g env [] header = header
set_headers g env ((name, env_var) ∷ rest) header = set_headers g env rest (
    if env.getenv env_var == ""
    then header
    else insert (g.canonical_header name) (env.getenv env_var) header)

no_cache : Bool → Dict String → Dict String
no_cache true header =
    insert "Pragma" "no-cache" (insert "Cache-Control" "no-store, no-cache" header)
no_cache false header = header

-- the client that issues a request: a live-only profile refuses redirects on a copy of it
effective_client : Bool → HttpClient → HttpClient
effective_client true client = record client { check_redirect = denied }
effective_client false client = client

unfoldable pub make_request :
    Go → Env → Context → Option HttpClient → Collection → String → HttpRequest
unfolding set_headers no_cache context_with_insecure_loopback effective_client
make_request g env ctx client coll raw_url = record {
  url = raw_url;
  header = no_cache (live_only_decoder coll.decoder) (set_headers g env coll.headers []);
  timeout = if is_positive coll.timeout then some coll.timeout else none;
  loopback = (context_with_insecure_loopback ctx coll.insecure_allow_loopback).insecure_loopback;
  client = effective_client (live_only_decoder coll.decoder) (client_or_default client);
}

-- `io.ReadAll(io.LimitReader(body, n))`, and the error that its failure becomes
read_limited : ℕ → HttpResponse → Result Bytes
read_limited n resp =
    if leb n (length resp.body) then ok (take n resp.body) else elim resp.body_error [
      | none ↦ ok resp.body
      | some e ↦ err (errorf "%w: collection %q: read response body: %v" (sentinel upstream))
    ]

-- What a live fetch hands back if it succeeds; on an error the callers drop the rest.
pub record Live : Type 0 where
  pub body : Bytes
  pub status_code : ℕ
  pub observation : Option Provenance

-- the error of a failed `Do`
pub transport_error : Error → Error
transport_error e =
    if error_is e redirect_not_allowed || error_is e address_blocked
    then errorf_both "%w: collection %q: %w" (sentinel upstream_client) e
    else errorf "%w: collection %q: %v" (sentinel upstream)

-- the switch over the status
check_status : ℕ → Result (Unit {0})
check_status status =
    if leb 500 status || nat_eq status 429
    then err (errorf "%w: collection %q: status %d" (sentinel upstream))
    else if leb 400 status
    then err (errorf "%w: collection %q: status %d" (sentinel upstream_client))
    else ok tt

too_long : String → Bool
too_long s = ltb 1024 (Prim.Native.String.len s)

unfoldable pub has_long_header : HttpResponse → Bool
unfolding too_long
has_long_header resp =
    too_long (resp.header "Content-Type")
    || too_long (resp.header "Last-Modified")
    || too_long (resp.header "ETag")

-- the observation of a live-only profile; `none` where the caller passed no provenance
unfoldable pub observation_of : Go → String → HttpResponse → Bytes → Provenance → Provenance
observation_of g raw_url resp b p = record p {
  upstream_url = raw_url;
  content_type = resp.header "Content-Type";
  last_modified = resp.header "Last-Modified";
  etag = resp.header "ETag";
  sha256 = g.sha256_hex b;
  bytes = length b;
}

observe_response :
    Go → String → HttpResponse → Bytes → Option Provenance → Result (Option Provenance)
unfolding has_long_header observation_of
observe_response g raw_url resp b none = ok none
observe_response g raw_url resp b (some p) = do
  fail_if (has_long_header resp)
      (errorf "%w: collection %q: observation header exceeds 1024 bytes" (sentinel upstream_client))
  ok (some (observation_of g raw_url resp b p))

-- what is done with a response
unfoldable pub receive : Go → Collection → String → Option Provenance → HttpResponse → Result Live
unfolding read_limited check_status observe_response response_byte_limit
receive g coll raw_url observation resp =
    let limit = response_byte_limit coll.decoder in
    do
      b ← read_limited (limit + 1) resp
      fail_if (ltb limit (length b))
          (errorf "%w: collection %q: response exceeds %d bytes" (sentinel response_too_large))
      check_status resp.status_code
      seen ←
          if live_only_decoder coll.decoder
          then observe_response g raw_url resp b observation
          else ok observation
      ok (record { body = b; status_code = resp.status_code; observation = seen })

receive_reply : Go → Collection → String → Option Provenance → Result HttpResponse → Result Live
unfolding transport_error
receive_reply g coll raw_url observation (ok resp) = receive g coll raw_url observation resp
receive_reply g coll raw_url observation (err e) = err (transport_error e)
receive_reply g coll raw_url observation panic = panic

-- a request that was built is issued
issue : Go → Env → HttpRequest → Collection → Option Provenance → World → Result Live × World
unfolding receive_reply
issue g env req coll observation w = (
  receive_reply g coll req.url observation (env.client_do w.requests req),
  record w { requests = w.requests ++ req ∷ [] },
)

issue_if_built :
    Go
    → Env
    → HttpRequest
    → Collection
    → Option Provenance
    → Result (Unit {0})
    → World
    → Result Live × World
unfolding issue
issue_if_built g env req coll observation (ok _) w = issue g env req coll observation w
issue_if_built g env req coll observation (err e) w =
    (err (errorf "dalgo2http: collection %q: build request: %w" e), w)
issue_if_built g env req coll observation panic w = (panic, w)

unfoldable pub do_live_fetch :
    Go
    → Env
    → Context
    → Option HttpClient
    → Collection
    → String
    → Option Provenance
    → World
    → Result Live × World
unfolding issue_if_built make_request
do_live_fetch g env ctx client coll raw_url observation w =
    issue_if_built g env (make_request g env ctx client coll raw_url) coll observation
      (g.new_request raw_url) w
