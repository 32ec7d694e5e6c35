-- ===== src/Config/Databases.antt =====
-- Which configurations `validateConfig` of config.go and `NewDB` of database.go accept.
use dalgo2http.Prelude.{
  String, ◌≡◌, refl, ◌↔◌, true, false, not, ◌&&◌, ◌||◌, List, [], ◌∷◌, arith, All, ◌==◌, Dict,
  lookup, insert, has_key, lookup-insert, is_empty,
}
use dalgo2http.Errors.{ok, >>=-eq-ok, fail_if-eq-ok}
use dalgo2http.Runtime.{Go}
use dalgo2http.Descriptor.{Collection, live_only_decoder}
use dalgo2http.Database.{Database}
use dalgo2http.Config.Valid.{IsValid}
use dalgo2http.Config.Accepts.{validate_iff}
use dalgo2http.Config.Loading.{new_db-accepts}
use dalgo2http.Config.{
  Config, is_known, is_live, has_store, validate, index_loop, validate_config, new_db,
}

-- the names of the collections differ
abbrev pub AreNamed : List Collection → Type 0
AreNamed [] = Unit
AreNamed (c ∷ colls) =
    All (λ (other : Collection). (c.name == other.name) ≡ false) colls × AreNamed colls

-- a valid collection that may be used in the mode of the configuration
abbrev pub IsUsable : Go → Config → Collection → Type 0
IsUsable g cfg coll =
    IsValid g coll
    × ((live_only_decoder coll.decoder && (not (is_live cfg.mode) || has_store cfg.snapshots))
        ≡ false)

-- There are collections, the mode is known, and the collections are usable and differ in their names.
pub record IsAccepted (g : Go) (cfg : Config) : Type 0 where
  pub some_there : is_empty cfg.collections ≡ false
  pub known : is_known cfg.mode ≡ true
  pub usable : All (IsUsable g cfg) cfg.collections
  pub named : AreNamed cfg.collections

abbrev AreFresh : Dict Collection → List Collection → Type 0
AreFresh index colls = All (λ (c : Collection). has_key c.name index ≡ false) colls

has_key-insert :
    (name k : String) (c : Collection) (index : Dict Collection)
    → has_key k (insert name c index) ≡ (name == k || has_key k index)
unfolding has_key
has_key-insert name k c index = ground (arith, lookup-insert name k c index)

-- names that are fresh behind an insertion differ from the inserted one, and were fresh before
AreFresh-insert :
    (c : Collection) (index : Dict Collection) (colls : List Collection)
    → AreFresh (insert c.name c index) colls
      ↔ (All (λ (other : Collection). (c.name == other.name) ≡ false) colls × AreFresh index colls)
AreFresh-insert c index [] = (λ h. (tt, tt), λ h. tt)
AreFresh-insert c index (x ∷ colls) =
    let same = has_key-insert c.name x.name c index in
    let (there, back) = AreFresh-insert c index colls in
    (
      λ (here, h).
          let (others, fresh) = there h in
          ((ground (arith, same, here), others), (ground (arith, same, here), fresh)),
      λ ((other, others), (here, fresh)). (ground (arith, same, other, here), back (others, fresh)),
    )

index_loop-accepted :
    (g : Go) (cfg : Config) (colls : List Collection) (index index' : Dict Collection)
    → index_loop g cfg colls index ≡ ok index'
    → All (IsUsable g cfg) colls × AreNamed colls × AreFresh index colls
unfolding index_loop
index_loop-accepted g cfg [] index index' e = (tt, tt, tt)
index_loop-accepted g cfg (coll ∷ rest) index index' e =
    let (allowed, e₁) =
      fail_if-eq-ok
        (live_only_decoder coll.decoder && (not (is_live cfg.mode) || has_store cfg.snapshots)) _ _
        e in
    let (_, valid, e₂) = >>=-eq-ok (validate g coll) _ e₁ in
    let (new, e₃) = fail_if-eq-ok (has_key coll.name index) _ _ e₂ in
    let (usable, named, fresh) =
      index_loop-accepted g cfg rest (insert coll.name coll index) index' e₃ in
    let (others, fresh_before) = (AreFresh-insert coll index rest).0 fresh in
    ((((validate_iff g coll).0 valid, allowed), usable), (others, named), (new, fresh_before))

accepted-index_loop :
    (g : Go) (cfg : Config) (colls : List Collection) (index : Dict Collection)
    → All (IsUsable g cfg) colls
    → AreNamed colls
    → AreFresh index colls
    → (index' : Dict Collection) × (index_loop g cfg colls index ≡ ok index')
unfolding index_loop
accepted-index_loop g cfg [] index usable named fresh = (index, refl)
accepted-index_loop g cfg (coll ∷ rest) index ((valid, allowed), usable) (others, named)
      (new, fresh) =
    let (index', e) =
      accepted-index_loop g cfg rest (insert coll.name coll index) usable named
        ((AreFresh-insert coll index rest).1 (others, fresh)) in
    (index', rw (allowed, (validate_iff g coll).1 valid, new) e)

nothing-AreFresh : (colls : List Collection) → AreFresh [] colls
unfolding has_key lookup
nothing-AreFresh [] = tt
nothing-AreFresh (coll ∷ colls) = (refl, nothing-AreFresh colls)

validate_config-IsAccepted :
    (g : Go) (cfg : Config) (index : Dict Collection)
    → validate_config g cfg ≡ ok index
    → IsAccepted g cfg
unfolding validate_config
validate_config-IsAccepted g cfg index e =
    let (some_there, e₁) = fail_if-eq-ok (is_empty cfg.collections) _ _ e in
    let (known, e₂) = fail_if-eq-ok (not (is_known cfg.mode)) _ _ e₁ in
    let (usable, named, _) = index_loop-accepted g cfg cfg.collections [] index e₂ in
    record {
      some_there = some_there;
      known = ground (arith, known);
      usable = usable;
      named = named;
    }

IsAccepted-validate_config :
    (g : Go) (cfg : Config)
    → IsAccepted g cfg
    → (index : Dict Collection) × (validate_config g cfg ≡ ok index)
unfolding validate_config
IsAccepted-validate_config g cfg a =
    let (index, e) =
      accepted-index_loop g cfg cfg.collections [] a.usable a.named
        (nothing-AreFresh cfg.collections) in
    (index, rw (a.some_there, a.known, e) refl)

-- `NewDB` returns a database exactly if the configuration has collections and a known mode, its
-- collections are valid and differ in their names, and those with a live-only decoder are there only
-- in live mode without a snapshot store.
pub new_db_iff :
    (g : Go) (cfg : Config) → ((d : Database) × (new_db g cfg ≡ ok d)) ↔ IsAccepted g cfg
unfolding new_db
new_db_iff g cfg = (
  λ (d, e).
      let (index, valid, _) = >>=-eq-ok (validate_config g cfg) _ e in
      validate_config-IsAccepted g cfg index valid,
  λ a.
      let (index, valid) = IsAccepted-validate_config g cfg a in
      let (d, made, _) = new_db-accepts g cfg index valid in (d, made),
)
