-- ===== src/Request/Issued.antt =====
-- What a live fetch asks of the network, and what it keeps of the provenance.
use dalgo2http.Prelude.{
  ℕ, String, ◌≡◌, refl, subst, ◌⊎◌, inl, inr, Bool, true, false, List, [], ◌∷◌, ◌++◌, Option, none,
  some, if◌then◌else◌, ltb, length,
}
use dalgo2http.Context.{Context}
use dalgo2http.Errors.{Error, Result, ok, err, panic, >>=-eq-ok, fail_if-eq-ok, ok_inj}
use dalgo2http.Security.{HttpClient}
use dalgo2http.Runtime.{Go}
use dalgo2http.Descriptor.{Collection, live_only_decoder}
use dalgo2http.Provenance.{Provenance}
use dalgo2http.Request.{
  Env, World, HttpRequest, HttpResponse, Live, make_request, has_long_header, observation_of,
  transport_error, issue_if_built, issue, do_live_fetch, receive, receive_reply, read_limited,
  check_status, observe_response, response_byte_limit,
}

-- At most one request is issued, and it is this one.
abbrev pub IsSingle {ℓ} : {A : Type ℓ} → HttpRequest → World → A × World → Type 0
IsSingle req w (r, w') =
    ((w'.requests ≡ w.requests) ⊎ (w'.requests ≡ w.requests ++ req ∷ []))
    × (w'.observed ≡ w.observed)

issue_if_built-IsSingle :
    (g : Go) (env : Env) (req : HttpRequest) (coll : Collection) (observation : Option Provenance)
    (built : Result (Unit {0})) (w : World)
    → IsSingle req w (issue_if_built g env req coll observation built w)
unfolding issue_if_built
issue_if_built-IsSingle g env req coll observation (ok u) w = (inr refl, refl)
issue_if_built-IsSingle g env req coll observation (err e) w = (inl refl, refl)
issue_if_built-IsSingle g env req coll observation panic w = (inl refl, refl)

-- A live fetch issues at most one request, the one built from the collection and the URL, and tells
-- the observer nothing.
pub do_live_fetch-IsSingle :
    (g : Go) (env : Env) (ctx : Context) (client : Option HttpClient) (coll : Collection)
    (raw_url : String) (observation : Option Provenance) (w : World)
    → IsSingle
        (make_request g env ctx client coll raw_url)
        w
        (do_live_fetch g env ctx client coll raw_url observation w)
unfolding do_live_fetch
do_live_fetch-IsSingle g env ctx client coll raw_url observation w =
    issue_if_built-IsSingle g env (make_request g env ctx client coll raw_url) coll observation
      (g.new_request raw_url) w

-- what an observation leaves as it was
abbrev pub SameOrigin : Option Provenance → Option Provenance → Type 0
SameOrigin none none = Unit
SameOrigin (some p) (some q) = (q.source ≡ p.source) × (q.collection ≡ p.collection)
SameOrigin _ _ = ⊥

SameOrigin-refl : (o : Option Provenance) → SameOrigin o o
SameOrigin-refl none = tt
SameOrigin-refl (some p) = (refl, refl)

observe_response-SameOrigin :
    (g : Go) (raw_url : String) (resp : HttpResponse) (b : List ℕ) (o seen : Option Provenance)
    → observe_response g raw_url resp b o ≡ ok seen
    → SameOrigin o seen
unfolding observe_response
observe_response-SameOrigin g raw_url resp b none seen e =
    subst (SameOrigin none) (ok_inj none seen e) tt
observe_response-SameOrigin g raw_url resp b (some p) seen e =
    let (_, shape) =
      fail_if-eq-ok (has_long_header resp) _ (ok (some (observation_of g raw_url resp b p))) e in
    subst (SameOrigin (some p)) {x = some (observation_of g raw_url resp b p)} (ok_inj _ seen shape)
      (refl, refl)

maybe_observe-SameOrigin :
    (g : Go) (raw_url : String) (resp : HttpResponse) (b : List ℕ) (o seen : Option Provenance)
    (observes : Bool)
    → (if observes then observe_response g raw_url resp b o else ok o) ≡ ok seen
    → SameOrigin o seen
maybe_observe-SameOrigin g raw_url resp b o seen true e =
    observe_response-SameOrigin g raw_url resp b o seen e
maybe_observe-SameOrigin g raw_url resp b o seen false e =
    subst (SameOrigin o) (ok_inj o seen e) (SameOrigin-refl o)

receive-SameOrigin :
    (g : Go) (coll : Collection) (raw_url : String) (o : Option Provenance) (resp : HttpResponse)
    (fetched : Live)
    → receive g coll raw_url o resp ≡ ok fetched
    → SameOrigin o fetched.observation
unfolding receive
receive-SameOrigin g coll raw_url o resp fetched e =
    let (b, _, e₁) = >>=-eq-ok (read_limited _ resp) _ e in
    let (_, e₂) = fail_if-eq-ok (ltb (response_byte_limit coll.decoder) (length b)) _ _ e₁ in
    let (_, _, e₃) = >>=-eq-ok (check_status resp.status_code) _ e₂ in
    let (seen, observed, shape) =
      >>=-eq-ok
        (if live_only_decoder coll.decoder then observe_response g raw_url resp b o else ok o) _
        e₃ in
    subst (λ (l : Live). SameOrigin o l.observation) (ok_inj _ fetched shape)
      (maybe_observe-SameOrigin g raw_url resp b o seen (live_only_decoder coll.decoder) observed)

issue_if_built-SameOrigin :
    (g : Go) (env : Env) (req : HttpRequest) (coll : Collection) (o : Option Provenance)
    (built : Result (Unit {0})) (w : World) (fetched : Live)
    → (issue_if_built g env req coll o built w).0 ≡ ok fetched
    → SameOrigin o fetched.observation
unfolding issue_if_built receive_reply
issue_if_built-SameOrigin g env req coll o (ok u) w fetched e =
    by_reply (env.client_do w.requests req) e
  where
    by_reply :
        (r : Result HttpResponse)
        → receive_reply g coll req.url o r ≡ ok fetched
        → SameOrigin o fetched.observation
    by_reply (ok resp) h = receive-SameOrigin g coll req.url o resp fetched h
    by_reply (err x) h = cc
    by_reply panic h = cc
issue_if_built-SameOrigin g env req coll o (err x) w fetched e = cc
issue_if_built-SameOrigin g env req coll o panic w fetched e = cc

-- A live fetch that succeeds leaves the source and the collection of the provenance that it was given
-- as they were.
pub do_live_fetch-SameOrigin :
    (g : Go) (env : Env) (ctx : Context) (client : Option HttpClient) (coll : Collection)
    (raw_url : String) (o : Option Provenance) (w : World) (fetched : Live)
    → (do_live_fetch g env ctx client coll raw_url o w).0 ≡ ok fetched
    → SameOrigin o fetched.observation
unfolding do_live_fetch
do_live_fetch-SameOrigin g env ctx client coll raw_url o w fetched e =
    issue_if_built-SameOrigin g env (make_request g env ctx client coll raw_url) coll o
      (g.new_request raw_url) w fetched e

-- a request that is built and answered
pub do_live_fetch-answered :
    (g : Go) (env : Env) (ctx : Context) (client : Option HttpClient) (coll : Collection)
    (raw_url : String) (o : Option Provenance) (w : World) (resp : HttpResponse)
    → g.new_request raw_url ≡ ok tt
    → env.client_do w.requests (make_request g env ctx client coll raw_url) ≡ ok resp
    → do_live_fetch g env ctx client coll raw_url o w ≡ (
      receive g coll raw_url o resp,
      record w { requests = w.requests ++ make_request g env ctx client coll raw_url ∷ [] },
    )
unfolding do_live_fetch
do_live_fetch-answered g env ctx client coll raw_url o w resp accepted answered =
    rw (accepted, issue_if_built, issue, answered, receive_reply) refl

-- a request that is built and fails
pub do_live_fetch-failed :
    (g : Go) (env : Env) (ctx : Context) (client : Option HttpClient) (coll : Collection)
    (raw_url : String) (o : Option Provenance) (w : World) (e : Error)
    → g.new_request raw_url ≡ ok tt
    → env.client_do w.requests (make_request g env ctx client coll raw_url) ≡ err e
    → do_live_fetch g env ctx client coll raw_url o w ≡ (
      err (transport_error e),
      record w { requests = w.requests ++ make_request g env ctx client coll raw_url ∷ [] },
    )
unfolding do_live_fetch
do_live_fetch-failed g env ctx client coll raw_url o w e accepted failed =
    rw (accepted, issue_if_built, issue, failed, receive_reply) refl
