-- ===== src/Config/LiveOnly.antt =====
-- What a configuration that was accepted makes sure of for the decoders that are live only.
use dalgo2http.Prelude.{
  String, ◌≡◌, refl, ap, sym, ◌∙◌, inl, inr, true, List, some, Dict, lookup, arith,
}
use dalgo2http.Context.{Context}
use dalgo2http.Errors.{ok, >>=-eq-ok, ok_inj}
use dalgo2http.Value.{Row}
use dalgo2http.Runtime.{Go}
use dalgo2http.Descriptor.{Collection, live_only_decoder}
use dalgo2http.Provenance.{Provenance, live}
use dalgo2http.Request.{Env, World}
use dalgo2http.Database.{
  Mode, unset, live_only, snapshot_only, live_then_snapshot, other, Database, fetch_rows,
}
use dalgo2http.Database.Sources.{fetch_rows-Origin}
use dalgo2http.Config.{Config, is_live, validate_config, default_mode, new_db}
use dalgo2http.Config.Index.{validate_config-AllAllowed}

live_only_mode : (m : Mode) → is_live m ≡ true → default_mode m ≡ live_only
unfolding default_mode
live_only_mode live_only h = refl
live_only_mode unset h = cc
live_only_mode snapshot_only h = cc
live_only_mode live_then_snapshot h = cc
live_only_mode (other name) h = cc

new_db-mode :
    (g : Go) (cfg : Config) (d : Database) (name : String) (coll : Collection)
    → new_db g cfg ≡ ok d
    → lookup name d.collections ≡ some coll
    → live_only_decoder coll.decoder ≡ true
    → d.mode ≡ live_only
unfolding new_db
new_db-mode g cfg d name coll e found h =
    let (index, valid, shape) = >>=-eq-ok (validate_config g cfg) _ e in
    let (_, _, all, _) = validate_config-AllAllowed g cfg index valid in
    let same = ok_inj _ d shape in
    let (_, _, allowed) =
      all name coll (ap (λ (x : Database). lookup name x.collections) same ∙ found) in
    ap (λ (x : Database). x.mode) (sym same) ∙ live_only_mode cfg.mode (ground arith)

-- In a database that `NewDB` has made, a collection whose decoder is live only is never served from a
-- snapshot: rows that a read of it returns come from the live answer.
pub new_db-live :
    (g : Go) (env : Env) (cfg : Config) (d : Database) (name : String) (coll : Collection)
    (ctx : Context) (params : Dict String) (w : World) (rows : List Row) (p : Provenance)
    → new_db g cfg ≡ ok d
    → lookup name d.collections ≡ some coll
    → live_only_decoder coll.decoder ≡ true
    → (fetch_rows g env d ctx coll params w).0 ≡ ok (rows, p)
    → p.source ≡ live
new_db-live g env cfg d name coll ctx params w rows p e found h fetched =
    let mode = new_db-mode g cfg d name coll e found h in
    elim (fetch_rows-Origin g env d ctx coll params w rows p fetched) [
      | inl (stored, _) ↦ absurd (cc)
      | inr (url, _, from) ↦ elim from [
        | inl is_live ↦ is_live
        | inr (x, _, fallback, _, _) ↦ absurd (cc)
      ]
    ]
