-- ===== src/Database/Fetch.antt =====
-- Where rows come from, by mode and by the outcome of the live fetch, and what is asked and told on
-- the way.
use dalgo2http.Prelude.{
  ℕ, Option-cases, String, ◌≡◌, refl, ◌∙◌, ◌⊎◌, inl, inr, true, false, List, [], ◌∷◌, ◌++◌, Option,
  none, some, arith, Bool-cases,
}
use dalgo2http.Context.{Context}
use dalgo2http.Errors.{Error, error_is, upstream_client, Result, ok, err, panic}
use dalgo2http.Value.{Row}
use dalgo2http.Runtime.{Go, SnapshotEnvelope}
use dalgo2http.Descriptor.{Collection}
use dalgo2http.Provenance.{Provenance, provenance_of, live, snapshot}
use dalgo2http.Decoder.{decode_rows}
use dalgo2http.Request.{Env, World, Live}
use dalgo2http.Request.Issued.{SameOrigin}
use dalgo2http.Snapshot.{read_snapshot}
use dalgo2http.Database.{
  Mode, unset, live_only, snapshot_only, live_then_snapshot, other, Database, Read, observe,
  with_provenance, serve_snapshot, complete, completed, live_rows, observation_or, serve_live,
  falls_back, snapshot_or_error, fallback, after_live,
}

abbrev pub Fetched : Type 0
Fetched = Read (List Row × Provenance)

-- what was told, and behind it a provenance to the observer, if there is one
abbrev pub told_by : Option ℕ → Provenance → List (ℕ × Provenance) → List (ℕ × Provenance)
told_by none p seen = seen
told_by (some obs) p seen = seen ++ (obs, p) ∷ []

-- What the observer is told: the provenance that is returned, once, where there is an observer; and
-- with an error, one provenance at most.
abbrev pub Told : Context → World → Fetched → Type 0
Told ctx w (ok (rows, p), w') = w'.observed ≡ told_by ctx.observer p w.observed
Told ctx w (_, w') =
    (w'.observed ≡ w.observed)
    ⊎ ((p : Provenance) × (w'.observed ≡ told_by ctx.observer p w.observed))

-- A step that does not use the network, tells the observer what it returns, and gives rows of the
-- stated source.
abbrev pub Serves : Context → World → (Provenance → Type 0) → Fetched → Type 0
Serves ctx w P (ok (rows, p), w') = (w'.requests ≡ w.requests) × P p × Told ctx w (ok (rows, p), w')
Serves ctx w P (r, w') = (w'.requests ≡ w.requests) × Told ctx w (r, w')

observe-requests :
    (ctx : Context) (p : Provenance) (w : World) → (observe ctx p w).requests ≡ w.requests
unfolding observe
observe-requests ctx p w = elim (Option-cases ctx.observer) [
  | inl alone ↦ rw alone refl
  | inr (obs, watched) ↦ rw watched refl
]

observe-observed :
    (ctx : Context) (p : Provenance) (w : World)
    → (observe ctx p w).observed ≡ told_by ctx.observer p w.observed
unfolding observe
observe-observed ctx p w = elim (Option-cases ctx.observer) [
  | inl alone ↦ rw alone refl
  | inr (obs, watched) ↦ rw watched refl
]

observe-Told_err :
    (ctx : Context) (p : Provenance) (w : World)
    → ((observe ctx p w).observed ≡ w.observed)
      ⊎ ((q : Provenance) × ((observe ctx p w).observed ≡ told_by ctx.observer q w.observed))
observe-Told_err ctx p w = inr (p, observe-observed ctx p w)

served :
    (ctx : Context) (w : World) (P : Provenance → Type 0) (p : Provenance) (r : Result (List Row))
    → P p
    → Serves ctx w P (with_provenance p r, observe ctx p w)
unfolding with_provenance
served ctx w P p (ok rows) h = (observe-requests ctx p w, h, observe-observed ctx p w)
served ctx w P p (err e) h = (observe-requests ctx p w, observe-Told_err ctx p w)
served ctx w P p panic h = (observe-requests ctx p w, observe-Told_err ctx p w)

pub serve_snapshot-Serves :
    (g : Go) (ctx : Context) (coll : Collection) (snap : SnapshotEnvelope) (w : World)
    (P : Provenance → Type 0)
    → P (provenance_of coll.name snapshot snap.status_code snap.fetched_at)
    → Serves ctx w P (serve_snapshot g ctx coll snap w)
unfolding serve_snapshot
serve_snapshot-Serves g ctx coll snap w P h =
    served ctx w P (provenance_of coll.name snapshot snap.status_code snap.fetched_at)
      (decode_rows g snap.body coll) h

complete-source :
    (coll : Collection) (rows : List Row) (p q : Provenance)
    → complete coll.decoder rows p ≡ ok q
    → q.source ≡ p.source
unfolding complete
complete-source coll rows p q e = ground arith

live_rows-Serves :
    (ctx : Context) (coll : Collection) (r : Result (List Row)) (p : Provenance) (w : World)
    (P : Provenance → Type 0)
    → ((q : Provenance) → q.source ≡ p.source → P q)
    → Serves ctx w P (live_rows ctx coll r p w)
unfolding live_rows completed
live_rows-Serves ctx coll (ok rows) p w P h = by_completion (complete coll.decoder rows p) refl
  where
    by_completion :
        (c : Result Provenance)
        → complete coll.decoder rows p ≡ c
        → Serves ctx w P (completed ctx rows c w)
    by_completion (ok q) e =
        (observe-requests ctx q w, h q (complete-source coll rows p q e), observe-observed ctx q w)
    by_completion (err x) e = (refl, inl refl)
    by_completion panic e = (refl, inl refl)
live_rows-Serves ctx coll (err e) p w P h = (observe-requests ctx p w, observe-Told_err ctx p w)
live_rows-Serves ctx coll panic p w P h = (refl, inl refl)

-- The provenance is that of a live answer; or the live fetch failed, the mode is live, then snapshot,
-- the error is not of the client's class, and the provenance is that of a snapshot.
abbrev pub FromLive : Mode → Result Live → Provenance → Type 0
FromLive mode r p =
    (p.source ≡ live)
    ⊎ ((e : Error) × (r ≡ err e)
        × (mode ≡ live_then_snapshot)
        × (error_is e upstream_client ≡ false)
        × (p.source ≡ snapshot))

pub falls_back-eq-true :
    (mode : Mode) (e : Error)
    → falls_back mode e ≡ true
    → (mode ≡ live_then_snapshot) × (error_is e upstream_client ≡ false)
falls_back-eq-true live_then_snapshot e h = (refl, ground arith)
falls_back-eq-true unset e h = cc
falls_back-eq-true live_only e h = cc
falls_back-eq-true snapshot_only e h = cc
falls_back-eq-true (other name) e h = cc

module _ (g : Go) (env : Env) (d : Database) (ctx : Context) (coll : Collection)
    (key : String) where
  snapshot_or_error-Serves :
      (e : Error) (r : Result SnapshotEnvelope) (w : World)
      → falls_back d.mode e ≡ true
      → Serves ctx w (FromLive d.mode (err e)) (snapshot_or_error g env d ctx coll e r w)
  unfolding snapshot_or_error
  snapshot_or_error-Serves e (ok snap) w h =
      let (mode, lasting) = falls_back-eq-true d.mode e h in
      serve_snapshot-Serves g ctx coll snap w (FromLive d.mode (err e))
        (inr (e, refl, mode, lasting, refl))
  snapshot_or_error-Serves e (err x) w h = (refl, inl refl)
  snapshot_or_error-Serves e panic w h = (refl, inl refl)

  fallback-Serves :
      (e : Error) (w : World)
      → Serves ctx w (FromLive d.mode (err e)) (fallback g env d ctx coll key e w)
  unfolding fallback
  fallback-Serves e w = elim (Bool-cases (falls_back d.mode e)) [
    | inl goes ↦ rw goes (snapshot_or_error-Serves e (read_snapshot g d.snapshots key) w goes)
    | inr stays ↦ rw stays (refl, inl refl)
  ]

  serve_live-Serves :
      (prov : Provenance) (fetched : Live) (w : World)
      → prov.source ≡ live
      → SameOrigin (some prov) fetched.observation
      → Serves ctx w (FromLive d.mode (ok fetched)) (serve_live g env ctx coll prov fetched w)
  unfolding serve_live
  serve_live-Serves prov fetched w is_live origin =
      live_rows-Serves ctx coll (decode_rows g fetched.body coll) _ w (FromLive d.mode (ok fetched))
        (λ q same. inl (same ∙ origin_live fetched.observation origin))
    where
      origin_live :
          (o : Option Provenance) → SameOrigin (some prov) o → (observation_or prov o).source ≡ live
      origin_live none h = elim h [ ]
      origin_live (some q) h = h.0 ∙ is_live

  pub after_live-Serves :
      (prov : Provenance) (r : Result Live) (w : World)
      → prov.source ≡ live
      → ((fetched : Live) → r ≡ ok fetched → SameOrigin (some prov) fetched.observation)
      → Serves ctx w (FromLive d.mode r) (after_live g env d ctx coll key prov (r, w))
  unfolding after_live
  after_live-Serves prov (ok fetched) w is_live origin =
      serve_live-Serves prov fetched w is_live (origin fetched refl)
  after_live-Serves prov (err e) w is_live origin = fallback-Serves e w
  after_live-Serves prov panic w is_live origin = (refl, inl refl)
