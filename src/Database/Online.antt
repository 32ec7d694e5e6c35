-- ===== src/Database/Online.antt =====
-- A read of database.go in a mode that asks the network, behind the URL that it has built.
use dalgo2http.Prelude.{String, ◌≡◌, refl, ◌∙◌, ap, Bool, true, false, Dict, some}
use dalgo2http.Context.{Context}
use dalgo2http.Errors.{Error, error_is, upstream_client, Result, ok, err}
use dalgo2http.Runtime.{Go}
use dalgo2http.Descriptor.{Collection}
use dalgo2http.Provenance.{provenance_of, live}
use dalgo2http.Request.Build.{build_url}
use dalgo2http.Request.{Env, World, Live, do_live_fetch}
use dalgo2http.Snapshot.{snapshot_key}
use dalgo2http.Database.{
  Mode, unset, other, snapshot_only, live_only, live_then_snapshot, Database, falls_back, fallback,
  after_live, fetch_live, fetch_by_mode, fetch_rows,
}

abbrev pub is_online : Mode → Bool
is_online snapshot_only = false
is_online _ = true

falls_back-client :
    (m : Mode) (e : Error) → error_is e upstream_client ≡ true → falls_back m e ≡ false
falls_back-client live_then_snapshot e h = rw h refl
falls_back-client unset e h = refl
falls_back-client live_only e h = refl
falls_back-client snapshot_only e h = refl
falls_back-client (other name) e h = refl

module _ (g : Go) (env : Env) (d : Database) (ctx : Context) (coll : Collection)
    (params : Dict String) (w : World) (url : String)
    (built : build_url g coll params ≡ ok url) where
  -- the live fetch that the read makes
  abbrev pub live_answer : Result Live × World
  live_answer =
      do_live_fetch g env ctx d.client coll url (some (provenance_of coll.name live 0 0)) w

  fetch_by_mode-after_live :
      (m : Mode)
      → is_online m ≡ true
      → fetch_by_mode g env d ctx m coll params w
        ≡ after_live g env d ctx coll
            (snapshot_key g coll.name params)
            (provenance_of coll.name live 0 0)
            live_answer
  unfolding fetch_by_mode fetch_live
  fetch_by_mode-after_live snapshot_only online = cc
  fetch_by_mode-after_live unset online = rw (built, fetch_live) refl
  fetch_by_mode-after_live live_only online = rw (built, fetch_live) refl
  fetch_by_mode-after_live live_then_snapshot online = rw (built, fetch_live) refl
  fetch_by_mode-after_live (other name) online = rw (built, fetch_live) refl

  -- the read is what follows the live fetch
  pub fetch_rows-after_live :
      is_online d.mode ≡ true
      → fetch_rows g env d ctx coll params w
        ≡ after_live g env d ctx coll
            (snapshot_key g coll.name params)
            (provenance_of coll.name live 0 0)
            live_answer
  unfolding fetch_rows
  fetch_rows-after_live online = fetch_by_mode-after_live d.mode online

  -- after a live failure the read is the fallback
  pub fetch_rows-fallback :
      (e : Error) (w₁ : World)
      → is_online d.mode ≡ true
      → live_answer ≡ (err e, w₁)
      → fetch_rows g env d ctx coll params w
        ≡ fallback g env d ctx coll (snapshot_key g coll.name params) e w₁
  unfolding after_live
  fetch_rows-fallback e w₁ online failed =
      fetch_rows-after_live online
      ∙ ap
          (after_live g env d ctx coll (snapshot_key g coll.name params)
            (provenance_of coll.name live 0 0))
          failed

  -- after a live failure of the client's class the read fails with it
  pub fetch_rows-client :
      (e : Error) (w₁ : World)
      → is_online d.mode ≡ true
      → live_answer ≡ (err e, w₁)
      → error_is e upstream_client ≡ true
      → fetch_rows g env d ctx coll params w ≡ (err e, w₁)
  unfolding fallback
  fetch_rows-client e w₁ online failed client =
      fetch_rows-fallback e w₁ online failed ∙ rw (falls_back-client d.mode e client, fallback) refl
