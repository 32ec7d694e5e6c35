-- ===== src/Database/Dates.antt =====
-- What the provenance of the ECB's live rates says of their date.
use dalgo2http.Prelude.{
  String, ◌≡◌, refl, subst, List, [], ◌∷◌, All, Bool-cases, inl, inr, Dict, lookup,
}
use dalgo2http.Context.{Context}
use dalgo2http.Errors.{Error, Result, ok, err, panic}
use dalgo2http.Value.{Row}
use dalgo2http.Runtime.{Go, SnapshotEnvelope}
use dalgo2http.Descriptor.{ecb_euro_fx_ref, Collection}
use dalgo2http.Provenance.{Provenance, provenance_of, live, snapshot}
use dalgo2http.EcbXml.Dates.{Bears}
use dalgo2http.Decoder.{decode_rows}
use dalgo2http.Decoder.Dates.{decode_rows-Bears}
use dalgo2http.Request.{Env, World, Live}
use dalgo2http.Snapshot.{read_snapshot}
use dalgo2http.Database.{
  Mode, unset, live_only, snapshot_only, live_then_snapshot, other, Database, Read, with_provenance,
  serve_snapshot, reference_date, complete, completed, live_rows, serve_live, falls_back,
  snapshot_or_error, fallback, after_live, fetch_live, fetch_snapshot, fetch_by_mode, fetch_rows,
}

-- If these are live rows, they bear the reference date of their provenance, and its currency is EUR.
abbrev AreDated : List Row × Provenance → Type 0
AreDated (rows, p) = p.source ≡ live → All (Bears p.reference_date) rows × (p.base_currency ≡ "EUR")

abbrev AnswersDated : Result (List Row × Provenance) → Type 0
AnswersDated (ok x) = AreDated x
AnswersDated (err e) = Unit
AnswersDated panic = Unit

reference_date-Bears :
    (date : String) (row : Row) (rows : List Row)
    → Bears date row
    → reference_date (row ∷ rows) ≡ ok date
unfolding reference_date lookup
reference_date-Bears date row rows (currency, rate, same) = rw (same, reference_date) refl

completed_ecb :
    (ctx : Context) (rows : List Row) (p : Provenance) (w : World) (date : String)
    → All (Bears date) rows
    → AnswersDated (completed ctx rows (complete ecb_euro_fx_ref rows p) w).0
unfolding complete completed reference_date
completed_ecb ctx [] p w date h = tt
completed_ecb ctx (row ∷ rows) p w date h =
    rw (reference_date-Bears date row rows h.0, complete, completed) (λ is_live. (h, refl))

module _ (g : Go) (env : Env) (d : Database) (ctx : Context) (coll : Collection)
    (ecb : coll.decoder ≡ ecb_euro_fx_ref) where
  live_rows-dated :
      (r : Result (List Row)) (p : Provenance) (w : World)
      → ((rows : List Row) → r ≡ ok rows → (date : String) × All (Bears date) rows)
      → AnswersDated (live_rows ctx coll r p w).0
  unfolding live_rows
  live_rows-dated (ok rows) p w h =
      let (date, all) = h rows refl in rw ecb (completed_ecb ctx rows p w date all)
  live_rows-dated (err e) p w h = tt
  live_rows-dated panic p w h = tt

  serve_live-dated :
      (p : Provenance) (fetched : Live) (w : World)
      → AnswersDated (serve_live g env ctx coll p fetched w).0
  unfolding serve_live
  serve_live-dated p fetched w =
      live_rows-dated (decode_rows g fetched.body coll) _ w
        (λ rows e. decode_rows-Bears g coll fetched.body rows ecb e)

  serve_snapshot-dated :
      (snap : SnapshotEnvelope) (w : World) → AnswersDated (serve_snapshot g ctx coll snap w).0
  unfolding serve_snapshot with_provenance
  serve_snapshot-dated snap w = by_rows (decode_rows g snap.body coll)
    where
      by_rows :
          (r : Result (List Row))
          → AnswersDated (
              with_provenance (provenance_of coll.name snapshot snap.status_code snap.fetched_at) r)
      by_rows (ok rows) = λ is_live. cc
      by_rows (err e) = tt
      by_rows panic = tt

  snapshot_or_error-dated :
      (e : Error) (r : Result SnapshotEnvelope) (w : World)
      → AnswersDated (snapshot_or_error g env d ctx coll e r w).0
  unfolding snapshot_or_error
  snapshot_or_error-dated e (ok snap) w = serve_snapshot-dated snap w
  snapshot_or_error-dated e (err x) w = tt
  snapshot_or_error-dated e panic w = tt

  fallback-dated :
      (key : String) (e : Error) (w : World) → AnswersDated (fallback g env d ctx coll key e w).0
  unfolding fallback
  fallback-dated key e w = elim (Bool-cases (falls_back d.mode e)) [
    | inl goes ↦ rw goes (snapshot_or_error-dated e (read_snapshot g d.snapshots key) w)
    | inr stays ↦ rw stays tt
  ]

  after_live-dated :
      (key : String) (p : Provenance) (r : Read Live)
      → AnswersDated (after_live g env d ctx coll key p r).0
  unfolding after_live
  after_live-dated key p (ok fetched, w) = serve_live-dated p fetched w
  after_live-dated key p (err e, w) = fallback-dated key e w
  after_live-dated key p (panic, w) = tt

  fetch_live-dated :
      (key : String) (r : Result String) (w : World)
      → AnswersDated (fetch_live g env d ctx coll key r w).0
  unfolding fetch_live
  fetch_live-dated key (ok url) w = after_live-dated key _ _
  fetch_live-dated key (err e) w = tt
  fetch_live-dated key panic w = tt

  fetch_snapshot-dated :
      (r : Result SnapshotEnvelope) (w : World)
      → AnswersDated (fetch_snapshot g env d ctx coll r w).0
  unfolding fetch_snapshot
  fetch_snapshot-dated (ok snap) w = serve_snapshot-dated snap w
  fetch_snapshot-dated (err e) w = tt
  fetch_snapshot-dated panic w = tt

  fetch_by_mode-dated :
      (m : Mode) (params : Dict String) (w : World)
      → AnswersDated (fetch_by_mode g env d ctx m coll params w).0
  unfolding fetch_by_mode
  fetch_by_mode-dated snapshot_only params w = fetch_snapshot-dated _ w
  fetch_by_mode-dated unset params w = fetch_live-dated _ _ w
  fetch_by_mode-dated live_only params w = fetch_live-dated _ _ w
  fetch_by_mode-dated live_then_snapshot params w = fetch_live-dated _ _ w
  fetch_by_mode-dated (other name) params w = fetch_live-dated _ _ w

  -- When a read of a collection with the ECB's decoder returns live rows, they all bear the reference
  -- date that their provenance tells, and its base currency is EUR.
  pub fetch_rows-Bears :
      (params : Dict String) (w : World) (rows : List Row) (p : Provenance)
      → (fetch_rows g env d ctx coll params w).0 ≡ ok (rows, p)
      → p.source ≡ live
      → All (Bears p.reference_date) rows × (p.base_currency ≡ "EUR")
  unfolding fetch_rows
  fetch_rows-Bears params w rows p e is_live =
      let dated : AreDated (rows, p) = subst AnswersDated e (fetch_by_mode-dated d.mode params w) in
      dated is_live
