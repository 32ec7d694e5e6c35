-- ===== src/Database/Completed.antt =====
-- The rows and the provenance that fetchRows of database.go puts together once a body is there.
use dalgo2http.Prelude.{◌≡◌, refl, sym, ap, subst, List, arith}
use dalgo2http.Context.{Context}
use dalgo2http.Errors.{Result, ok, err, panic, ok_inj}
use dalgo2http.Value.{Row}
use dalgo2http.Descriptor.{Collection}
use dalgo2http.Provenance.{Provenance}
use dalgo2http.Request.{World}
use dalgo2http.Database.{with_provenance, complete, completed, live_rows}

pub with_provenance-eq-ok :
    (p : Provenance) (r : Result (List Row)) (rows : List Row) (q : Provenance)
    → with_provenance p r ≡ ok (rows, q)
    → (r ≡ ok rows) × (q ≡ p)
unfolding with_provenance
with_provenance-eq-ok p (ok rows') rows q e =
    let same = ok_inj (rows', p) (rows, q) e in
    (
      ap (λ (x : List Row × Provenance). ok x.0) same,
      sym (ap (λ (x : List Row × Provenance). x.1) same),
    )
with_provenance-eq-ok p (err x) rows q e = cc
with_provenance-eq-ok p panic rows q e = cc

-- What completing the provenance of live rows leaves as it was.
abbrev pub IsLiveAt : Provenance → Provenance → Type 0
IsLiveAt p q =
    (q.source ≡ p.source)
    × (q.collection ≡ p.collection)
    × (q.status_code ≡ p.status_code)
    × (q.fetched_at ≡ p.fetched_at)

complete-IsLiveAt :
    (coll : Collection) (rows : List Row) (p q : Provenance)
    → complete coll.decoder rows p ≡ ok q
    → IsLiveAt p q
unfolding complete
complete-IsLiveAt coll rows p q e = ground arith

pub live_rows-eq-ok :
    (ctx : Context) (coll : Collection) (r : Result (List Row)) (p : Provenance) (w : World)
    (rows : List Row) (q : Provenance)
    → (live_rows ctx coll r p w).0 ≡ ok (rows, q)
    → (r ≡ ok rows) × IsLiveAt p q
unfolding live_rows completed
live_rows-eq-ok ctx coll (ok rows') p w rows q e =
    by_completion (complete coll.decoder rows' p) refl e
  where
    by_completion :
        (c : Result Provenance)
        → complete coll.decoder rows' p ≡ c
        → (completed ctx rows' c w).0 ≡ ok (rows, q)
        → (ok rows' ≡ ok rows) × IsLiveAt p q
    by_completion (ok q') done h =
        let same = ok_inj (rows', q') (rows, q) h in
        (
          ap (λ (x : List Row × Provenance). ok x.0) same,
          subst (λ (x : List Row × Provenance). IsLiveAt p x.1) same
              (complete-IsLiveAt coll rows' p q' done),
        )
    by_completion (err x) done h = cc
    by_completion panic done h = cc
live_rows-eq-ok ctx coll (err x) p w rows q e = cc
live_rows-eq-ok ctx coll panic p w rows q e = cc
