-- ===== src/Request/Total.antt =====
-- Panics of building a URL and fetching it.
use dalgo2http.Prelude.{
  ℕ, ◌+◌, String, Bool, true, false, List, Option, none, some, Option-cases, inl, inr, arith, Dict,
  ltb, length, if◌then◌else◌,
}
use dalgo2http.Context.{Context}
use dalgo2http.Errors.{
  Result, ok, err, panic, wrap_error, Raises-bind, Raises-fail_if, Raises-wrap_error, Returns,
}
use dalgo2http.Security.{HttpClient}
use dalgo2http.Runtime.{Go, Bytes}
use dalgo2http.Descriptor.{Collection, live_only_decoder}
use dalgo2http.Provenance.{Provenance}
use dalgo2http.Request.Build.{Rendering, finish_url, build_url}
use dalgo2http.Request.{
  Env, World, HttpRequest, HttpResponse, make_request, observe_response, check_status, read_limited,
  response_byte_limit, receive, receive_reply, issue, issue_if_built, do_live_fetch,
}

-- What requests rely on: the parser of URLs, the constructor of requests and the client return.
pub record IsSound (g : Go) (env : Env) : Type 0 where
  pub url_returns : (s : String) → Returns (g.url_parse s)
  pub request_returns : (s : String) → Returns (g.new_request s)
  pub client_returns :
      (before : List HttpRequest) (req : HttpRequest) → Returns (env.client_do before req)

finish_url-Returns :
    (g : Go) (coll : Collection) (params : Dict String) (r : Rendering)
    → Returns (g.url_parse r.out)
    → Returns (finish_url g coll params r)
unfolding finish_url
finish_url-Returns g coll params r h = elim (Option-cases r.build_err) [
  | inl fine ↦ rw fine (
      Raises-bind _ (wrap_error _ (g.url_parse r.out)) _
        (Raises-wrap_error _ _ _ (g.url_parse r.out) (λ e x. tt) h) (λ u. tt))
  | inr (e, bad) ↦ rw bad tt
]

pub build_url-Returns :
    (g : Go) (env : Env) (coll : Collection) (params : Dict String)
    → IsSound g env
    → Returns (build_url g coll params)
unfolding build_url
build_url-Returns g env coll params h = finish_url-Returns g coll params _ (h.url_returns _)

read_limited-Returns : (n : ℕ) (resp : HttpResponse) → Returns (read_limited n resp)
unfolding read_limited
read_limited-Returns n resp = ground arith

check_status-Returns : (status : ℕ) → Returns (check_status status)
unfolding check_status
check_status-Returns status = ground arith

observe_response-Returns :
    (g : Go) (raw_url : String) (resp : HttpResponse) (b : Bytes) (o : Option Provenance)
    → Returns (observe_response g raw_url resp b o)
unfolding observe_response
observe_response-Returns g raw_url resp b none = tt
observe_response-Returns g raw_url resp b (some p) = ground arith

maybe_observe-Returns :
    (observes : Bool) (r : Result (Option Provenance)) (o : Option Provenance)
    → Returns r
    → Returns (if observes then r else ok o)
maybe_observe-Returns true r o h = h
maybe_observe-Returns false r o h = tt

receive-Returns :
    (g : Go) (coll : Collection) (raw_url : String) (o : Option Provenance) (resp : HttpResponse)
    → Returns (receive g coll raw_url o resp)
unfolding receive
receive-Returns g coll raw_url o resp =
    let limit = response_byte_limit coll.decoder in
    Raises-bind _ (read_limited (limit + 1) resp) _ (read_limited-Returns (limit + 1) resp) λ b.
      Raises-fail_if _ (ltb limit (length b)) _ _ tt λ _.
        Raises-bind _ (check_status resp.status_code) _ (check_status-Returns resp.status_code) λ _.
          Raises-bind _
            (if live_only_decoder coll.decoder then observe_response g raw_url resp b o else ok o) _
            (maybe_observe-Returns (live_only_decoder coll.decoder) _ o
              (observe_response-Returns g raw_url resp b o))
            (λ seen. tt)

receive_reply-Returns :
    (g : Go) (coll : Collection) (raw_url : String) (o : Option Provenance)
    (r : Result HttpResponse)
    → Returns r
    → Returns (receive_reply g coll raw_url o r)
unfolding receive_reply
receive_reply-Returns g coll raw_url o (ok resp) h = receive-Returns g coll raw_url o resp
receive_reply-Returns g coll raw_url o (err e) h = tt
receive_reply-Returns g coll raw_url o panic h = h

issue_if_built-Returns :
    (g : Go) (env : Env) (req : HttpRequest) (coll : Collection) (o : Option Provenance)
    (built : Result (Unit {0})) (w : World)
    → Returns built
    → Returns (env.client_do w.requests req)
    → Returns (issue_if_built g env req coll o built w).0
unfolding issue_if_built issue
issue_if_built-Returns g env req coll o (ok u) w h k = receive_reply-Returns g coll req.url o _ k
issue_if_built-Returns g env req coll o (err e) w h k = tt
issue_if_built-Returns g env req coll o panic w h k = h

pub do_live_fetch-Returns :
    (g : Go) (env : Env) (ctx : Context) (client : Option HttpClient) (coll : Collection)
    (raw_url : String) (o : Option Provenance) (w : World)
    → IsSound g env
    → Returns (do_live_fetch g env ctx client coll raw_url o w).0
unfolding do_live_fetch
do_live_fetch-Returns g env ctx client coll raw_url o w h =
    issue_if_built-Returns g env (make_request g env ctx client coll raw_url) coll o
      (g.new_request raw_url) w (h.request_returns raw_url) (h.client_returns w.requests _)
