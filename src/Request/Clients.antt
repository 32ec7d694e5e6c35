-- ===== src/Request/Clients.antt =====
-- Which client of security.go a request of request.go is given to, and the error of a refused request.
use dalgo2http.Prelude.{String, ◌≡◌, refl, Bool, true, false, ◌||◌, ◌⊎◌, inl, inr, arith, Option}
use dalgo2http.Context.{Context}
use dalgo2http.Errors.{Error, error_is, upstream_client, redirect_not_allowed, address_blocked}
use dalgo2http.Runtime.{Go}
use dalgo2http.Descriptor.{Collection, live_only_decoder}
use dalgo2http.Security.{HttpClient, denied, client_or_default}
use dalgo2http.Request.{Env, make_request, effective_client, transport_error}

effective_client-transport :
    (b : Bool) (client : HttpClient) → (effective_client b client).transport ≡ client.transport
unfolding effective_client
effective_client-transport true client = refl
effective_client-transport false client = refl

effective_client-denied :
    (b : Bool) (client : HttpClient)
    → (b ≡ true) ⊎ (client.check_redirect ≡ denied)
    → (effective_client b client).check_redirect ≡ denied
unfolding effective_client
effective_client-denied true client h = refl
effective_client-denied false client (inl h) = cc
effective_client-denied false client (inr h) = h

module _ (g : Go) (env : Env) (ctx : Context) (client : Option HttpClient) (coll : Collection)
    (url : String) where
  -- a request is dialled as the configured client, or the default one, dials
  pub make_request-transport :
      (make_request g env ctx client coll url).client.transport
      ≡ (client_or_default client).transport
  unfolding make_request
  make_request-transport =
      effective_client-transport (live_only_decoder coll.decoder) (client_or_default client)

  -- redirects are denied for a live-only profile, and where the client denies them
  pub make_request-denied :
      (live_only_decoder coll.decoder ≡ true) ⊎ ((client_or_default client).check_redirect ≡ denied)
      → (make_request g env ctx client coll url).client.check_redirect ≡ denied
  unfolding make_request
  make_request-denied =
      effective_client-denied (live_only_decoder coll.decoder) (client_or_default client)

-- the error of a request that was refused: of the client's class, and still the cause
abbrev pub IsDenial : Error → Type 0
IsDenial e =
    (error_is e upstream_client ≡ true)
    × ((error_is e address_blocked || error_is e redirect_not_allowed) ≡ true)

pub transport_error-IsDenial :
    (e : Error)
    → (error_is e address_blocked ≡ true) ⊎ (error_is e redirect_not_allowed ≡ true)
    → IsDenial (transport_error e)
unfolding transport_error
transport_error-IsDenial e (inl h) = ground arith
transport_error-IsDenial e (inr h) = ground arith
