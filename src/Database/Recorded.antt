-- ===== src/Database/Recorded.antt =====
-- What a recorder that is attached to a read's context holds behind it.
use dalgo2http.Prelude.{
  ℕ, String, ◌≡◌, refl, ap, ◌∙◌, true, List, [], ◌∷◌, ◌++◌, Dict, some, nat_eq, if◌then◌else◌,
  nat_eq_iff, Bool-cases, ◌⊎◌, inl, inr,
}
use dalgo2http.Context.{Context}
use dalgo2http.Errors.{ok, err, panic, ok_inj}
use dalgo2http.Value.{Row}
use dalgo2http.Runtime.{Go}
use dalgo2http.Descriptor.{Collection}
use dalgo2http.Provenance.{Provenance, Recorder, with_context, observe, last_observed}
use dalgo2http.Request.{Env, World}
use dalgo2http.Database.{Database, fetch_rows}
use dalgo2http.Database.Fetch.{Fetched, Told}
use dalgo2http.Database.Sources.{fetch_rows-Told}

-- the recorders, by their addresses
abbrev pub Recorders : Type 0
Recorders = ℕ → Recorder

-- An observer that is a recorder's method changes the recorder at its address, and no other.
abbrev deliver : ℕ × Provenance → Recorders → Recorders
deliver (obs, p) rs = λ a. if nat_eq a obs then observe (rs a) p else rs a

-- the recorders, once all that was told has been delivered in order
pub delivered : List (ℕ × Provenance) → Recorders → Recorders
delivered [] rs = rs
delivered (event ∷ events) rs = delivered events (deliver event rs)

delivered-append :
    (events : List (ℕ × Provenance)) (event : ℕ × Provenance) (rs : Recorders)
    → delivered (events ++ event ∷ []) rs ≡ deliver event (delivered events rs)
unfolding delivered
delivered-append [] event rs = refl
delivered-append (e ∷ events) event rs = delivered-append events event (deliver e rs)

Told-last :
    (ctx : Context) (w : World) (f : Fetched) (rows : List Row) (p : Provenance) (a : ℕ)
    → ctx.observer ≡ some a
    → f.0 ≡ ok (rows, p)
    → Told ctx w f
    → f.1.observed ≡ w.observed ++ (a, p) ∷ []
Told-last ctx w (ok (rows', q), w') rows p a attached e told =
    let same = ap (λ (x : List Row × Provenance). x.1) (ok_inj (rows', q) (rows, p) e) in
    rw attached at told ∙ ap (λ x. w.observed ++ (a, x) ∷ []) same
Told-last ctx w (err x, w') rows p a attached e told = cc
Told-last ctx w (panic, w') rows p a attached e told = cc

-- Behind a read that returns rows, with a recorder attached to its context, the last observation of
-- this recorder is the provenance of the rows that were returned, whatever it was told before; and
-- any other recorder holds what it held before the read.
pub fetch_rows-last_observed :
    (g : Go) (env : Env) (d : Database) (ctx : Context) (coll : Collection) (params : Dict String)
    (w : World) (rows : List Row) (p : Provenance) (rs : Recorders) (a b : ℕ)
    → (fetch_rows g env d (with_context a ctx) coll params w).0 ≡ ok (rows, p)
    → (last_observed
          (delivered (fetch_rows g env d (with_context a ctx) coll params w).1.observed rs a)
        ≡ (p, true))
      × ((b ≡ a)
          ⊎ (delivered (fetch_rows g env d (with_context a ctx) coll params w).1.observed rs b
              ≡ delivered w.observed rs b))
unfolding with_context last_observed observe
fetch_rows-last_observed g env d ctx coll params w rows p rs a b e =
    let watched = with_context a ctx in
    let told =
      Told-last watched w (fetch_rows g env d watched coll params w) rows p a refl e
        (fetch_rows-Told g env d watched coll params w) in
    let now = ap (λ events. delivered events rs) told ∙ delivered-append w.observed (a, p) rs in
    (
      ap (λ (rs' : Recorders). last_observed (rs' a)) now ∙ rw ((nat_eq_iff a a).1 refl) refl,
      elim (Bool-cases (nat_eq b a)) [
        | inl same ↦ inl ((nat_eq_iff b a).0 same)
        | inr other ↦ inr (ap (λ (rs' : Recorders). rs' b) now ∙ rw other refl)
      ],
    )
