-- ===== src/Database/Guarded.antt =====
-- How the guarded client of security.go, the live fetch of request.go and the fallback of database.go
-- act together. The client's `Do` and the connections below it are net/http's.
use dalgo2http.Prelude.{
  Option, ℕ, String, ◌≡◌, refl, ◌∙◌, ap, Bool, true, List, [], Dict, ◌⊎◌, inl, inr, some,
}
use dalgo2http.Context.{Context, context_with_insecure_loopback}
use dalgo2http.Errors.{
  Error, Sentinel, error_is, redirect_not_allowed, address_blocked, Result, ok, err,
}
use dalgo2http.Value.{Row}
use dalgo2http.Runtime.{Go, Bytes}
use dalgo2http.Descriptor.{Collection, live_only_decoder}
use dalgo2http.Provenance.{Provenance, provenance_of, live}
use dalgo2http.Security.{
  Network, is_blocked_ip, guarded_dial_context, deny_redirect, guarded_transport, denied,
  client_or_default,
}
use dalgo2http.Security.Dialer.{IsCandidate, guarded_dial_context-IsRefused}
use dalgo2http.Request.Build.{build_url}
use dalgo2http.Request.{Env, World, HttpRequest, HttpResponse, make_request, transport_error}
use dalgo2http.Request.Issued.{do_live_fetch-failed}
use dalgo2http.Request.Clients.{
  IsDenial, transport_error-IsDenial, make_request-transport, make_request-denied,
}
use dalgo2http.Database.Online.{is_online, fetch_rows-client}
use dalgo2http.Database.{Read, Database, fetch_rows}

-- `Do` fails with an error that wraps everything that this one does, as `url.Error` does.
abbrev pub Wraps : Error → Result HttpResponse → Type 0
Wraps e r =
    (e' : Error) × (r ≡ err e') × ((s : Sentinel) → error_is e s ≡ true → error_is e' s ≡ true)

-- What net/http documents of `Do`, where a request opens a connection to the address of its URL: an
-- error of `Transport.DialContext`, which is called with the request's context, ends the request, and
-- so does an error of `CheckRedirect`, which is called when the answer is a redirect.
pub record HttpLaws (g : Go) (net : Network) (env : Env) (observer : Option ℕ)
    (address : String → String) (redirects : String → Type 0) (w : World) : Type 0 where
  pub dials :
      (req : HttpRequest) (e : Error)
      → req.client.transport ≡ guarded_transport
      → (guarded_dial_context g net
          (record { insecure_loopback = req.loopback; observer = observer })
          "tcp"
          (address req.url)).0
        ≡ err e
      → Wraps e (env.client_do w.requests req)
  pub checks :
      (req : HttpRequest) (e : Error)
      → req.client.check_redirect ≡ denied
      → deny_redirect ≡ err e
      → redirects req.url
      → Wraps e (env.client_do w.requests req)

-- does the context of a collection's requests let the dialer use loopback?
abbrev pub allows_loopback : Context → Collection → Bool
allows_loopback ctx coll =
    (context_with_insecure_loopback ctx coll.insecure_allow_loopback).insecure_loopback

-- A URL that must not be fetched: every address of its host is blocked, and the client dials by the
-- guarded dialer; or it redirects, and the client denies redirects or the decoder is of a live-only
-- profile.
pub data IsDenied (g : Go) (net : Network) (d : Database) (ctx : Context) (coll : Collection)
    (address : String → String) (redirects : String → Type 0) (url : String) : Type 0 where
  blocked :
      (host port : String) (addrs : List Bytes)
      → (client_or_default d.client).transport ≡ guarded_transport
      → g.split_host_port (address url) ≡ ok (host, port)
      → net.lookup_ip_addr [] host ≡ ok addrs
      → ((ip : Bytes)
          → IsCandidate g net host ip
          → is_blocked_ip ip (allows_loopback ctx coll) ≡ true)
      → IsDenied g net d ctx coll address redirects url
  redirected :
      (live_only_decoder coll.decoder ≡ true)
        ⊎ ((client_or_default d.client).check_redirect ≡ denied)
      → redirects url
      → IsDenied g net d ctx coll address redirects url

module _ (g : Go) (net : Network) (env : Env) (d : Database) (ctx : Context) (coll : Collection)
    (address : String → String) (redirects : String → Type 0) (w : World) (url : String) where
  abbrev request : HttpRequest
  request = make_request g env ctx d.client coll url

  refused :
      HttpLaws g net env ctx.observer address redirects w
      → IsDenied g net d ctx coll address redirects url
      → (e : Error) × (env.client_do w.requests request ≡ err e)
        × ((error_is e address_blocked ≡ true) ⊎ (error_is e redirect_not_allowed ≡ true))
  unfolding make_request deny_redirect
  refused laws (blocked host port addrs transport split looked_up all_blocked) =
      let (cause, same, is_blocked, _) =
        guarded_dial_context-IsRefused g net
          (record { insecure_loopback = allows_loopback ctx coll; observer = ctx.observer }) "tcp"
          (address url) host port addrs split looked_up all_blocked in
      let (e, failed, wraps) =
        laws.dials request cause (make_request-transport g env ctx d.client coll url ∙ transport)
          same in
      (e, failed, inl (wraps address_blocked is_blocked))
  refused laws (redirected denies here) =
      let (e, failed, wraps) =
        laws.checks request _ (make_request-denied g env ctx d.client coll url denies) refl here in
      (e, failed, inr (wraps redirect_not_allowed refl))

  -- In every mode that asks the network: a URL whose host has only blocked addresses, behind the
  -- guarded client, and a URL that redirects, behind a client that denies redirects or for a
  -- live-only profile, make the read fail with an error of the client's class that still wraps the
  -- cause, whatever snapshots there are; the observer is told nothing.
  pub fetch_rows-IsDenial :
      (params : Dict String)
      → is_online d.mode ≡ true
      → build_url g coll params ≡ ok url
      → g.new_request url ≡ ok tt
      → HttpLaws g net env ctx.observer address redirects w
      → IsDenied g net d ctx coll address redirects url
      → (e : Error) × ((fetch_rows g env d ctx coll params w).0 ≡ err e)
        × IsDenial e
        × ((fetch_rows g env d ctx coll params w).1.observed ≡ w.observed)
  fetch_rows-IsDenial params online built accepted laws denies =
      let (e, failed, cause) = refused laws denies in
      let denial = transport_error-IsDenial e cause in
      let same =
        fetch_rows-client g env d ctx coll params w url built (transport_error e) _ online
          (do_live_fetch-failed g env ctx d.client coll url
            (some (provenance_of coll.name live 0 0)) w e accepted failed)
          denial.0 in
      (
        transport_error e,
        ap (λ (r : Read (List Row × Provenance)). r.0) same,
        denial,
        ap (λ (r : Read (List Row × Provenance)). r.1.observed) same,
      )
