-- ===== src/Database/Sources.antt =====
-- The contract of `fetchRows`.
use dalgo2http.Prelude.{
  String, ◌≡◌, refl, ◌∙◌, subst, ◌⊎◌, inl, inr, List, [], ◌∷◌, ◌++◌, some, Dict,
}
use dalgo2http.Context.{Context}
use dalgo2http.Errors.{Result, ok, err, panic, ok_inj}
use dalgo2http.Value.{Row}
use dalgo2http.Runtime.{Go, SnapshotEnvelope}
use dalgo2http.Descriptor.{Collection}
use dalgo2http.Provenance.{Provenance, provenance_of, live, snapshot}
use dalgo2http.Request.Build.{build_url}
use dalgo2http.Request.{Env, World, Live, do_live_fetch, HttpRequest, make_request}
use dalgo2http.Request.Issued.{do_live_fetch-IsSingle, do_live_fetch-SameOrigin}
use dalgo2http.Snapshot.{snapshot_key, read_snapshot}
use dalgo2http.Database.Fetch.{
  Fetched, told_by, Told, Serves, serve_snapshot-Serves, FromLive, after_live-Serves,
}
use dalgo2http.Database.{
  Mode, unset, live_only, snapshot_only, live_then_snapshot, other, Database, after_live,
  fetch_live, fetch_snapshot, fetch_by_mode, fetch_rows,
}

-- What one read does: the requests are those before, or one more with `Q`; the observer is told what
-- `Told` says; and rows come with a provenance that satisfies `P`.
abbrev Account : Context → World → (HttpRequest → Type 0) → (Provenance → Type 0) → Fetched → Type 0
Account ctx w Q P (r, w') =
    ((w'.requests ≡ w.requests)
      ⊎ ((req : HttpRequest) × (w'.requests ≡ w.requests ++ req ∷ []) × Q req))
    × Told ctx w (r, w')
    × ((rows : List Row) (p : Provenance) → r ≡ ok (rows, p) → P p)

-- the requests of a step that follows one with the same requests
requests-step :
    (w w₁ w' : World) (Q : HttpRequest → Type 0)
    → (w₁.requests ≡ w.requests)
      ⊎ ((req : HttpRequest) × (w₁.requests ≡ w.requests ++ req ∷ []) × Q req)
    → w'.requests ≡ w₁.requests
    → (w'.requests ≡ w.requests)
      ⊎ ((req : HttpRequest) × (w'.requests ≡ w.requests ++ req ∷ []) × Q req)
requests-step w w₁ w' Q (inl h) e = inl (e ∙ h)
requests-step w w₁ w' Q (inr (req, h, q)) e = inr (req, e ∙ h, q)

-- from a step behind the request to the whole read
Serves-Account :
    (ctx : Context) (w w₁ : World) (Q : HttpRequest → Type 0) (P : Provenance → Type 0)
    (f : Fetched)
    → w₁.observed ≡ w.observed
    → (w₁.requests ≡ w.requests)
      ⊎ ((req : HttpRequest) × (w₁.requests ≡ w.requests ++ req ∷ []) × Q req)
    → Serves ctx w₁ P f
    → Account ctx w Q P f
Serves-Account ctx w w₁ Q P (ok (rows, p), w') quiet single (same, h, told) = (
  requests-step w w₁ w' Q single same,
  subst (λ seen. w'.observed ≡ told_by ctx.observer p seen) quiet told,
  λ rows' p' e. subst (λ (q : List Row × Provenance). P q.1) (ok_inj (rows, p) (rows', p') e) h,
)
Serves-Account ctx w w₁ Q P (err x, w') quiet single (same, told) = (
  requests-step w w₁ w' Q single same,
  subst
      (λ seen.
        (w'.observed ≡ seen) ⊎ ((p : Provenance) × (w'.observed ≡ told_by ctx.observer p seen)))
      quiet told,
  λ rows' p' e. cc,
)
Serves-Account ctx w w₁ Q P (panic, w') quiet single (same, told) = (
  requests-step w w₁ w' Q single same,
  subst
      (λ seen.
        (w'.observed ≡ seen) ⊎ ((p : Provenance) × (w'.observed ≡ told_by ctx.observer p seen)))
      quiet told,
  λ rows' p' e. cc,
)

Serves-mono :
    (ctx : Context) (w : World) (P Q : Provenance → Type 0) (f : Fetched)
    → ((p : Provenance) → P p → Q p)
    → Serves ctx w P f
    → Serves ctx w Q f
Serves-mono ctx w P Q (ok (rows, p), w') h (same, here, told) = (same, h p here, told)
Serves-mono ctx w P Q (err e, w') h served = served
Serves-mono ctx w P Q (panic, w') h served = served

module _ (g : Go) (env : Env) (d : Database) (ctx : Context) (coll : Collection) where
  -- The request is the one that the collection and the URL built from the parameters make.
  abbrev pub IsRequest : Dict String → HttpRequest → Type 0
  IsRequest params req =
      (url : String) × (build_url g coll params ≡ ok url)
      × (req ≡ make_request g env ctx d.client coll url)

  -- the live fetch that the read makes, behind a URL
  abbrev live_fetch : String → World → Result Live × World
  live_fetch url w =
      do_live_fetch g env ctx d.client coll url (some (provenance_of coll.name live 0 0)) w

  -- Where returned rows come from: a snapshot, in the mode for it; or the URL is built, and the rows
  -- are live, or a snapshot after a live failure that allows one.
  abbrev pub Origin : Dict String → World → Provenance → Type 0
  Origin params w p =
      ((d.mode ≡ snapshot_only) × (p.source ≡ snapshot))
      ⊎ ((url : String) × (build_url g coll params ≡ ok url)
          × FromLive d.mode (live_fetch url w).0 p)

  single-IsRequest :
      (params : Dict String) (url : String) (w : World)
      → build_url g coll params ≡ ok url
      → ((live_fetch url w).1.requests ≡ w.requests)
        ⊎ ((req : HttpRequest) × ((live_fetch url w).1.requests ≡ w.requests ++ req ∷ [])
            × IsRequest params req)
  single-IsRequest params url w built =
      elim (do_live_fetch-IsSingle g env ctx d.client coll url
        (some (provenance_of coll.name live 0 0)) w).0 [
          | inl h ↦ inl h
          | inr h ↦ inr (make_request g env ctx d.client coll url, h, (url, built, refl))
        ]

  fetch_live-Account :
      (key : String) (params : Dict String) (r : Result String) (w : World)
      → build_url g coll params ≡ r
      → Account ctx w (IsRequest params) (Origin params w) (fetch_live g env d ctx coll key r w)
  unfolding fetch_live
  fetch_live-Account key params (ok url) w built =
      Serves-Account ctx w (live_fetch url w).1 (IsRequest params) (Origin params w) _
        (do_live_fetch-IsSingle g env ctx d.client coll url
          (some (provenance_of coll.name live 0 0)) w).1
        (single-IsRequest params url w built)
        (Serves-mono ctx (live_fetch url w).1 (FromLive d.mode (live_fetch url w).0)
          (Origin params w)
          (after_live g env d ctx coll key (provenance_of coll.name live 0 0) (live_fetch url w))
          (λ p from. inr (url, built, from))
          (after_live-Serves g env d ctx coll key (provenance_of coll.name live 0 0)
            (live_fetch url w).0 (live_fetch url w).1 refl
            (do_live_fetch-SameOrigin g env ctx d.client coll url
              (some (provenance_of coll.name live 0 0)) w)))
  fetch_live-Account key params (err e) w built = (inl refl, inl refl, λ rows p h. cc)
  fetch_live-Account key params panic w built = (inl refl, inl refl, λ rows p h. cc)

  fetch_snapshot-Account :
      (params : Dict String) (r : Result SnapshotEnvelope) (w : World)
      → d.mode ≡ snapshot_only
      → Account ctx w (λ req. ⊥) (Origin params w) (fetch_snapshot g env d ctx coll r w)
  unfolding fetch_snapshot
  fetch_snapshot-Account params (ok snap) w mode =
      Serves-Account ctx w w (λ req. ⊥) (Origin params w) _ refl (inl refl)
        (serve_snapshot-Serves g ctx coll snap w (Origin params w) (inl (mode, refl)))
  fetch_snapshot-Account params (err e) w mode = (inl refl, inl refl, λ rows p h. cc)
  fetch_snapshot-Account params panic w mode = (inl refl, inl refl, λ rows p h. cc)

  Account-mono :
      (w : World) (Q Q' : HttpRequest → Type 0) (P : Provenance → Type 0) (f : Fetched)
      → ((req : HttpRequest) → Q req → Q' req)
      → Account ctx w Q P f
      → Account ctx w Q' P f
  Account-mono w Q Q' P (r, w') h (inl same, told, from) = (inl same, told, from)
  Account-mono w Q Q' P (r, w') h (inr (req, one, q), told, from) =
      (inr (req, one, h req q), told, from)

  fetch_by_mode-Account :
      (mode : Mode) (params : Dict String) (w : World)
      → d.mode ≡ mode
      → Account ctx w
          (IsRequest params)
          (Origin params w)
          (fetch_by_mode g env d ctx mode coll params w)
  unfolding fetch_by_mode
  fetch_by_mode-Account snapshot_only params w is_mode =
      Account-mono w (λ req. ⊥) (IsRequest params) (Origin params w) _
        (λ req absurd. elim absurd [ ])
        (fetch_snapshot-Account params
          (read_snapshot g d.snapshots (snapshot_key g coll.name params)) w is_mode)
  fetch_by_mode-Account unset params w is_mode = fetch_live-Account _ params _ w refl
  fetch_by_mode-Account live_only params w is_mode = fetch_live-Account _ params _ w refl
  fetch_by_mode-Account live_then_snapshot params w is_mode = fetch_live-Account _ params _ w refl
  fetch_by_mode-Account (other name) params w is_mode = fetch_live-Account _ params _ w refl

  fetch_rows-Account :
      (params : Dict String) (w : World)
      → Account ctx w (IsRequest params) (Origin params w) (fetch_rows g env d ctx coll params w)
  unfolding fetch_rows
  fetch_rows-Account params w = fetch_by_mode-Account d.mode params w refl

  -- A read issues no request, or one: the one that the collection makes of the URL built from the
  -- parameters.
  pub fetch_rows-IsRequest :
      (params : Dict String) (w : World)
      → ((fetch_rows g env d ctx coll params w).1.requests ≡ w.requests)
        ⊎ ((req : HttpRequest) × ((fetch_rows g env d ctx coll params w).1.requests
              ≡ w.requests ++ req ∷ [])
            × IsRequest params req)
  fetch_rows-IsRequest params w = (fetch_rows-Account params w).0

  -- In the mode that is for snapshots only, a read issues no request.
  pub fetch_rows-snapshot_only :
      (params : Dict String) (w : World)
      → d.mode ≡ snapshot_only
      → (fetch_rows g env d ctx coll params w).1.requests ≡ w.requests
  unfolding fetch_rows fetch_by_mode
  fetch_rows-snapshot_only params w h =
      rw (h, fetch_by_mode)
        (elim (fetch_snapshot-Account params
          (read_snapshot g d.snapshots (snapshot_key g coll.name params)) w h).0 [
            | inl same ↦ same
            | inr (req, one, absurd) ↦ elim absurd [ ]
          ])

  -- The observer is told of a read exactly the provenance that is returned, once and behind all that
  -- it was told before, if it is attached; of a read that fails, it is told of one provenance at most.
  pub fetch_rows-Told :
      (params : Dict String) (w : World) → Told ctx w (fetch_rows g env d ctx coll params w)
  fetch_rows-Told params w = (fetch_rows-Account params w).1

  -- The provenance of rows that a read returns says that they are of a snapshot, and the mode is for
  -- snapshots only; or the URL was built, and it says that they are live; or it says that they are of a
  -- snapshot, the mode is live, then snapshot, and the live fetch failed with an error that does not
  -- wrap `ErrUpstreamClient`.
  pub fetch_rows-Origin :
      (params : Dict String) (w : World) (rows : List Row) (p : Provenance)
      → (fetch_rows g env d ctx coll params w).0 ≡ ok (rows, p)
      → Origin params w p
  fetch_rows-Origin params w rows p h = (fetch_rows-Account params w).2 rows p h
