-- ===== src/Snapshot/Names.antt =====
-- The name of a snapshot, as a function of a request's parameters.
use dalgo2http.Prelude.{
  among, has_key, ◌==◌, ◌||◌, String, ◌≡◌, refl, ◌∙◌, ap, List, [], ◌∷◌, arith, Dict, lookup,
}
use mathlib.Core.List.{Permᴰ}
use Prim.Native.String
use dalgo2http.Runtime.{Go}
use dalgo2http.Snapshot.Order.{le_total, le_antisym, le_trans}
use dalgo2http.Snapshot.{insert_sorted, sort_strings, keys, param_value, key_parts, snapshot_key}

insert_sorted_comm :
    (s t : String) (l : List String)
    → insert_sorted s (insert_sorted t l) ≡ insert_sorted t (insert_sorted s l)
unfolding insert_sorted
insert_sorted_comm s t [] = ground (arith, le_total s t, le_total t s, le_antisym s t)
insert_sorted_comm s t (u ∷ l) = ground (
  arith,
  insert_sorted_comm s t l,
  le_total s t,
  le_total t s,
  le_antisym s t,
  le_trans s t u,
  le_trans t s u,
  le_total s u,
  le_total t u,
)

sort_strings-Permᴰ : {l l' : List String} → Permᴰ l l' → sort_strings l ≡ sort_strings l'
unfolding sort_strings
sort_strings-Permᴰ Permᴰ.nil = refl
sort_strings-Permᴰ (Permᴰ.cons e d) = λ i. insert_sorted (e i) (sort_strings-Permᴰ d i)
sort_strings-Permᴰ (Permᴰ.swap {a = a} {b = b} {l = l} e f) =
    insert_sorted_comm a b (sort_strings l) ∙ λ i.
    insert_sorted (f i) (insert_sorted (e i) (sort_strings l))
sort_strings-Permᴰ (Permᴰ.trans d d') = sort_strings-Permᴰ d ∙ sort_strings-Permᴰ d'

-- Two lists stand for one Go map, iterated in two orders: they have the same keys, and the same value
-- under each key.
pub record SameMap (m m' : Dict String) : Type 0 where
  pub same_keys : Permᴰ (keys m) (keys m')
  pub same_values : (k : String) → lookup k m ≡ lookup k m'

param_value-same :
    (k : String) (m m' : Dict String)
    → lookup k m ≡ lookup k m'
    → param_value k m ≡ param_value k m'
unfolding param_value
param_value-same k m m' e = rw (e, param_value) refl

key_parts-same :
    (g : Go) (m m' : Dict String) (names : List String)
    → ((k : String) → lookup k m ≡ lookup k m')
    → key_parts g m names ≡ key_parts g m' names
unfolding key_parts
key_parts-same g m m' [] same = refl
key_parts-same g m m' (k ∷ ks) same =
    rw (param_value-same k m m' (same k), key_parts-same g m m' ks same) refl

-- The name of a snapshot does not depend on the order in which the map of parameters is iterated.
pub snapshot_key-SameMap :
    (g : Go) (collection : String) (m m' : Dict String)
    → SameMap m m'
    → snapshot_key g collection m ≡ snapshot_key g collection m'
unfolding snapshot_key
snapshot_key-SameMap g collection m m' h =
    ap (λ parts. String.◌++◌ (g.path_escape collection) parts)
      (key_parts-same g m m' (sort_strings (keys m)) h.same_values
        ∙ ap (key_parts g m') (sort_strings-Permᴰ h.same_keys))

among-insert_sorted :
    (k s : String) (l : List String) → among k (insert_sorted s l) ≡ (s == k || among k l)
unfolding insert_sorted
among-insert_sorted k s [] = refl
among-insert_sorted k s (t ∷ l) = ground (arith, among-insert_sorted k s l)

-- sorting keeps the names
among-sort_strings : (k : String) (l : List String) → among k (sort_strings l) ≡ among k l
unfolding sort_strings
among-sort_strings k [] = refl
among-sort_strings k (s ∷ l) =
    among-insert_sorted k s (sort_strings l) ∙ ap (λ b. s == k || b) (among-sort_strings k l)

among-keys {ℓ} : {V : Type ℓ} (k : String) (m : Dict V) → among k (keys m) ≡ has_key k m
unfolding keys has_key lookup
among-keys k [] = refl
among-keys k ((j, v) ∷ m) = ground (arith, among-keys k m)

-- a name is among the sorted keys of a map if it is a key
pub among-sorted_keys {ℓ} :
    {V : Type ℓ} (k : String) (m : Dict V) → among k (sort_strings (keys m)) ≡ has_key k m
among-sorted_keys k m = among-sort_strings k (keys m) ∙ among-keys k m
