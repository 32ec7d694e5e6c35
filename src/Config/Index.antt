-- ===== src/Config/Index.antt =====
-- The index of collections that a validated configuration gives a database.
use dalgo2http.Prelude.{
  String, ◌≡◌, refl, ap, subst, inl, inr, true, false, not, ◌&&◌, ◌||◌, List, [], ◌∷◌, some, arith,
  Bool-cases, All, ◌==◌, eq_iff, eq_refl, Dict, lookup, insert, has_key, lookup-insert, is_empty,
}
use dalgo2http.Errors.{ok, >>=-eq-ok, fail_if-eq-ok, ok_inj}
use dalgo2http.Runtime.{Go}
use dalgo2http.Descriptor.{Collection, live_only_decoder}
use dalgo2http.Config.{Config, validate, is_live, has_store, index_loop, is_known, validate_config}
use dalgo2http.Config.Valid.{IsValid, validate-IsValid}

module _ (g : Go) (cfg : Config) where
  -- the collection stands under its name, is valid, and may be used in the mode
  abbrev pub IsAllowed : String → Collection → Type 0
  IsAllowed k coll =
      (coll.name ≡ k)
      × IsValid g coll
      × ((live_only_decoder coll.decoder && (not (is_live cfg.mode) || has_store cfg.snapshots))
          ≡ false)

  abbrev pub AllAllowed : Dict Collection → Type 0
  AllAllowed index =
      (k : String) (coll : Collection) → lookup k index ≡ some coll → IsAllowed k coll

  insert-AllAllowed :
      (coll : Collection) (index : Dict Collection)
      → IsAllowed coll.name coll
      → AllAllowed index
      → AllAllowed (insert coll.name coll index)
  insert-AllAllowed coll index here all k c e = elim (Bool-cases (coll.name == k)) [
    | inl same ↦
        let found : some coll ≡ some c = rw (lookup-insert coll.name k coll index, same) at e in
        let it : coll ≡ c = cc in
        subst (IsAllowed k) it (subst (λ n. IsAllowed n coll) ((eq_iff coll.name k).0 same) here)
    | inr other ↦ all k c (rw (lookup-insert coll.name k coll index, other) at e)
  ]

  insert-lookup :
      (k : String) (c coll : Collection) (index : Dict Collection)
      → has_key coll.name index ≡ false
      → lookup k index ≡ some c
      → lookup k (insert coll.name coll index) ≡ some c
  unfolding has_key
  insert-lookup k c coll index fresh e = elim (Bool-cases (coll.name == k)) [
    | inl same ↦
        absurd (cc (rw (ap (λ n. lookup n index) ((eq_iff coll.name k).0 same), e) at fresh))
    | inr other ↦ rw (lookup-insert coll.name k coll index, other) e
  ]

  index_loop-index :
      (colls : List Collection) (index index' : Dict Collection)
      → index_loop g cfg colls index ≡ ok index'
      → AllAllowed index
      → AllAllowed index'
        × ((k : String) (c : Collection) → lookup k index ≡ some c → lookup k index' ≡ some c)
        × All (λ (coll : Collection). lookup coll.name index' ≡ some coll) colls
  unfolding index_loop
  index_loop-index [] index index' e all =
      let same : index ≡ index' = ok_inj index index' e in
      (subst AllAllowed same all, λ k c h. subst (λ m. lookup k m ≡ some c) same h, tt)
  index_loop-index (coll ∷ rest) index index' e all =
      let (allowed, e₁) =
        fail_if-eq-ok
          (live_only_decoder coll.decoder && (not (is_live cfg.mode) || has_store cfg.snapshots)) _
          _ e in
      let (_, valid, e₂) = >>=-eq-ok (validate g coll) _ e₁ in
      let (fresh, e₃) = fail_if-eq-ok (has_key coll.name index) _ _ e₂ in
      let (all', keeps, placed) =
        index_loop-index rest (insert coll.name coll index) index' e₃
          (insert-AllAllowed coll index (refl, validate-IsValid g coll valid, allowed) all) in
      (
        all',
        λ k c h. keeps k c (insert-lookup k c coll index fresh h),
        (
          keeps coll.name coll
              (rw (lookup-insert coll.name coll.name coll index, eq_refl coll.name) refl),
          placed,
        ),
      )

  nothing-AllAllowed : AllAllowed []
  unfolding lookup
  nothing-AllAllowed k coll e = cc

  -- A configuration that is validated has collections and a known mode, and its index holds each of
  -- its collections under its name, and nothing but valid collections under their names. A
  -- collection with a live-only decoder is there only in live mode without a snapshot store.
  pub validate_config-AllAllowed :
      (index : Dict Collection)
      → validate_config g cfg ≡ ok index
      → (is_empty cfg.collections ≡ false)
        × (is_known cfg.mode ≡ true)
        × AllAllowed index
        × All (λ (coll : Collection). lookup coll.name index ≡ some coll) cfg.collections
  unfolding validate_config
  validate_config-AllAllowed index e =
      let (some_there, e₁) = fail_if-eq-ok (is_empty cfg.collections) _ _ e in
      let (known, e₂) = fail_if-eq-ok (not (is_known cfg.mode)) _ _ e₁ in
      let (all, _, placed) = index_loop-index cfg.collections [] index e₂ nothing-AllAllowed in
      (some_there, ground arith, all, placed)
