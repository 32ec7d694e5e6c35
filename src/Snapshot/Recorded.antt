-- ===== src/Snapshot/Recorded.antt =====
-- What `Record` has done when it succeeds.
use dalgo2http.Prelude.{
  ℕ, String, ◌≡◌, refl, sym, ap, ◌∙◌, false, Option, none, inl, inr, Bool-cases, Dict,
}
use dalgo2http.Context.{Context}
use dalgo2http.Errors.{Result, ok, err, panic, wrap_error, >>=-eq-ok, wrap_error-eq-ok, ok_inj}
use dalgo2http.Security.{HttpClient}
use dalgo2http.Runtime.{Go, Bytes, SnapshotEnvelope}
use dalgo2http.Descriptor.{Collection, live_only_decoder}
use dalgo2http.Request.Build.{build_url}
use dalgo2http.Request.{Env, World, Live, do_live_fetch}
use dalgo2http.Snapshot.{
  snapshot_key, Disk, record_live, record_fetched, record_url, record_snapshot,
}

-- the envelope of a response that was fetched
abbrev pub envelope_of : ℕ → Live → SnapshotEnvelope
envelope_of at fetched = record {
  fetched_at = at;
  status_code = fetched.status_code;
  body = fetched.body;
}

-- The collection may be recorded; the URL was built and fetched, and the envelope of the answer is
-- the content, at the path of the snapshot's key.
pub record IsRecorded (g : Go) (env : Env) (disk : Disk) (ctx : Context)
    (client : Option HttpClient) (coll : Collection) (params : Dict String) (dir : String)
    (w : World) (path : String) (content : Bytes) : Type 0 where
  pub allowed : live_only_decoder coll.decoder ≡ false
  pub url : String
  pub fetched : Live
  pub behind : World
  pub built : build_url g coll params ≡ ok url
  pub answered : do_live_fetch g env ctx client coll url none w ≡ (ok fetched, behind)
  pub encoded : g.marshal_envelope (envelope_of (env.now behind.requests) fetched) ≡ ok content
  pub placed : path ≡ disk.join dir (snapshot_key g coll.name params)

module _ (g : Go) (env : Env) (disk : Disk) (ctx : Context) (client : Option HttpClient)
    (coll : Collection) (params : Dict String) (dir : String) (w : World) (path : String)
    (content : Bytes) where
  record_fetched-IsRecorded :
      (url : String) (r : Result Live × World)
      → live_only_decoder coll.decoder ≡ false
      → build_url g coll params ≡ ok url
      → do_live_fetch g env ctx client coll url none w ≡ r
      → (record_fetched g env disk coll params dir r).0 ≡ ok (path, content)
      → IsRecorded g env disk ctx client coll params dir w path content
  unfolding record_fetched record_live
  record_fetched-IsRecorded url (ok fetched, behind) allowed built answered e =
      let (encoded, marshalled, e₁) = >>=-eq-ok (wrap_error _ (g.marshal_envelope _)) _ e in
      let (_, _, e₂) = >>=-eq-ok (wrap_error _ (disk.mkdir_all dir)) _ e₁ in
      let (_, _, e₃) =
        >>=-eq-ok
          (wrap_error _ (disk.write_file (disk.join dir (snapshot_key g coll.name params)) encoded))
          _ e₂ in
      let same = ok_inj _ (path, content) e₃ in
      record {
        allowed = allowed;
        url = url;
        fetched = fetched;
        behind = behind;
        built = built;
        answered = answered;
        encoded = wrap_error-eq-ok _ _ marshalled ∙ ap (λ (x : String × Bytes). ok x.1) same;
        placed = sym (ap (λ (x : String × Bytes). x.0) same);
      }
  record_fetched-IsRecorded url (err x, behind) allowed built answered e = cc
  record_fetched-IsRecorded url (panic, behind) allowed built answered e = cc

  record_url-IsRecorded :
      (r : Result String)
      → live_only_decoder coll.decoder ≡ false
      → build_url g coll params ≡ r
      → (record_url g env disk ctx client coll params dir r w).0 ≡ ok (path, content)
      → IsRecorded g env disk ctx client coll params dir w path content
  unfolding record_url
  record_url-IsRecorded (ok url) allowed built e =
      record_fetched-IsRecorded url _ allowed built refl e
  record_url-IsRecorded (err x) allowed built e = cc
  record_url-IsRecorded panic allowed built e = cc

  -- Recording succeeds only for a collection whose decoder is not live only, and what it writes is the
  -- envelope of the live answer, at the path of the snapshot's key.
  pub record_snapshot-IsRecorded :
      (record_snapshot g env disk ctx client coll params dir w).0 ≡ ok (path, content)
      → IsRecorded g env disk ctx client coll params dir w path content
  unfolding record_snapshot
  record_snapshot-IsRecorded e = elim (Bool-cases (live_only_decoder coll.decoder)) [
    | inl refused ↦ absurd (cc (rw (refused, record_snapshot) at e))
    | inr allowed ↦
        record_url-IsRecorded (build_url g coll params) allowed refl
          (rw (allowed, record_snapshot) at e)
  ]
