-- ===== src/Snapshot/Collisions.antt =====
-- Which requests the name of a snapshot tells apart.
use Prim.Native.String
use text.Mathlib.TextLemmas.{append_assoc}
use text.Mathlib.TextPositions.{eq_refl}
use dalgo2http.Prelude.{String, ◌≡◌, refl, sym, ap, ◌∙◌, [], ◌∷◌, Dict, lookup, true, false, ◌==◌}
use dalgo2http.Runtime.{Go}
use dalgo2http.Snapshot.{insert_sorted, sort_strings, keys, param_value, key_parts, snapshot_key}
use dalgo2http.Snapshot.Order.{le}

-- a text, an underscore, and another text
abbrev pub joined : String → String → String
joined s t = String.◌++◌ s (String.◌++◌ "_" t)

-- Escaping leaves an underscore as it is.
abbrev pub KeepsUnderscores : Go → Type 0
KeepsUnderscores g =
    (s t : String) → g.query_escape (joined s t) ≡ joined (g.query_escape s) (g.query_escape t)

-- two parameters, of which the first has the lesser name
abbrev pub pair : String → String → String → String → Dict String
pair n₁ v₁ n₂ v₂ = (n₁, v₁) ∷ (n₂, v₂) ∷ []

sort_pair : (s t : String) → le s t ≡ true → sort_strings (s ∷ t ∷ []) ≡ s ∷ t ∷ []
unfolding sort_strings insert_sorted
sort_pair s t h = rw h refl

-- what stands in a name for one parameter, in front of the rest
part : Go → String → String → String → String
part g n v rest =
    String.◌++◌ "_"
      (String.◌++◌ (g.query_escape n) (String.◌++◌ "=" (String.◌++◌ (g.query_escape v) rest)))

param_value-first : (n v : String) (rest : Dict String) → param_value n ((n, v) ∷ rest) ≡ v
unfolding param_value lookup
param_value-first n v rest = rw (param_value, lookup, eq_refl n) refl

param_value-second :
    (n₁ v₁ n₂ v₂ : String) → (n₁ == n₂) ≡ false → param_value n₂ (pair n₁ v₁ n₂ v₂) ≡ v₂
unfolding param_value lookup
param_value-second n₁ v₁ n₂ v₂ h = rw (param_value, lookup, h, eq_refl n₂) refl

key_parts-pair :
    (g : Go) (n₁ v₁ n₂ v₂ : String)
    → (n₁ == n₂) ≡ false
    → key_parts g (pair n₁ v₁ n₂ v₂) (n₁ ∷ n₂ ∷ []) ≡ part g n₁ v₁ (part g n₂ v₂ ".json")
unfolding key_parts part
key_parts-pair g n₁ v₁ n₂ v₂ h =
    rw (param_value-first n₁ v₁ ((n₂, v₂) ∷ []), param_value-second n₁ v₁ n₂ v₂ h) refl

snapshot_key-pair :
    (g : Go) (collection n₁ v₁ n₂ v₂ : String)
    → le n₁ n₂ ≡ true
    → (n₁ == n₂) ≡ false
    → snapshot_key g collection (pair n₁ v₁ n₂ v₂)
      ≡ String.◌++◌ (g.path_escape collection) (part g n₁ v₁ (part g n₂ v₂ ".json"))
unfolding snapshot_key keys
snapshot_key-pair g collection n₁ v₁ n₂ v₂ sorted distinct =
    ap (λ parts. String.◌++◌ (g.path_escape collection) parts)
      (ap (key_parts g (pair n₁ v₁ n₂ v₂)) (sort_pair n₁ n₂ sorted)
        ∙ key_parts-pair g n₁ v₁ n₂ v₂ distinct)

-- an underscore in a name, moved to the value in front
part_moves :
    (g : Go) (n₁ v₁ m n₂ v₂ : String)
    → KeepsUnderscores g
    → part g n₁ v₁ (part g (joined m n₂) v₂ ".json")
      ≡ part g n₁ (joined v₁ m) (part g n₂ v₂ ".json")
unfolding part
part_moves g n₁ v₁ m n₂ v₂ keeps = simp (keeps m n₂, keeps v₁ m, append_assoc) refl

-- The name of a snapshot does not tell these requests apart: where the name of the second parameter
-- has an underscore, what stands in front of it can as well end the value of the first.
pub snapshot_key-collides :
    (g : Go) (collection n₁ v₁ m n₂ v₂ : String)
    → KeepsUnderscores g
    → le n₁ (joined m n₂) ≡ true
    → (n₁ == joined m n₂) ≡ false
    → le n₁ n₂ ≡ true
    → (n₁ == n₂) ≡ false
    → snapshot_key g collection (pair n₁ v₁ (joined m n₂) v₂)
      ≡ snapshot_key g collection (pair n₁ (joined v₁ m) n₂ v₂)
snapshot_key-collides g collection n₁ v₁ m n₂ v₂ keeps sorted distinct sorted' distinct' =
    snapshot_key-pair g collection n₁ v₁ (joined m n₂) v₂ sorted distinct
    ∙ ap (λ parts. String.◌++◌ (g.path_escape collection) parts) (part_moves g n₁ v₁ m n₂ v₂ keeps)
    ∙ sym (snapshot_key-pair g collection n₁ (joined v₁ m) n₂ v₂ sorted' distinct')
