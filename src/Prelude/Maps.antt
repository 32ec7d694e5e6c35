-- ===== src/Prelude/Maps.antt =====
-- Go's `map` with text keys, as an association list in which a key is looked up from the front.
-- An iteration goes through the entries in the order of the list, which stands for the order that
-- the runtime happens to choose.
use Prim.Native.String.{String}
use mathlib.Core.Path.{◌≡◌, refl}
use mathlib.Core.Logic.{inl, inr}
use mathlib.Core.Bool.{Bool, true, false, ◌||◌}
use mathlib.Core.Option.{Option, none, some}
use mathlib.Core.List.{List, [], ◌∷◌}
use native.Mathlib.Omega.{arith}
use text.Mathlib.Text.{◌==◌}
use text.Mathlib.TextEquality.{eq_iff}
use dalgo2http.Prelude.Tests.{if◌then◌else◌, Bool-cases}
use dalgo2http.Prelude.Lists.{any, All}

abbrev pub Dict {ℓ} : Type ℓ → Type ℓ
Dict V = List (String × V)

module _ {ℓ} {V : Type ℓ} where
  unfoldable pub lookup : String → Dict V → Option V
  lookup name [] = none
  lookup name ((key, value) ∷ rest) = if key == name then some value else lookup name rest

  unfoldable pub insert : String → V → Dict V → Dict V
  insert name value [] = (name, value) ∷ []
  insert name value ((key, old) ∷ rest) =
      if key == name then (name, value) ∷ rest else (key, old) ∷ insert name value rest

  abbrev pub is_some : Option V → Bool
  is_some none = false
  is_some (some v) = true

  -- `_, ok := m[k]`
  unfoldable pub has_key : String → Dict V → Bool
  has_key k m = is_some (lookup k m)

  -- a lookup behind an insertion: the new value under its key, and what was there under any other
  pub lookup-insert :
      (name asked : String) (value : V) (m : Dict V)
      → lookup asked (insert name value m) ≡ (if name == asked then some value else lookup asked m)
  unfolding lookup insert
  lookup-insert name asked value [] = refl
  lookup-insert name asked value ((key, old) ∷ rest) = ground (
    arith,
    lookup-insert name asked value rest,
    eq_iff key name,
    eq_iff key asked,
    eq_iff name asked,
  )

-- what holds of the entries holds behind an insertion of an entry for which it holds
pub All-insert {ℓ κ} :
    {V : Type ℓ} (P : String × V → Type κ) (name : String) (value : V) (m : Dict V)
    → P (name, value)
    → All P m
    → All P (insert name value m)
unfolding insert
All-insert P name value [] here h = (here, tt)
All-insert P name value ((key, old) ∷ rest) here (p, h) = elim (Bool-cases (key == name)) [
  | inl same ↦ rw same (here, h)
  | inr other ↦ rw other (p, All-insert P name value rest here h)
]

-- `m[k]` where a missing key reads as false
unfoldable pub flag : String → Dict Bool → Bool
unfolding lookup
flag k m = elim (lookup k m) [ none ↦ false | some b ↦ b ]

pub flag-insert : (k j : String) (m : Dict Bool) → flag j (insert k true m) ≡ (k == j || flag j m)
unfolding flag
flag-insert k j m = ground (arith, lookup-insert k j true m)

pub flag-nil : (k : String) → flag k [] ≡ false
unfolding flag lookup
flag-nil k = refl

-- is the name among these?
abbrev pub among : String → List String → Bool
among k names = any (λ f. f == k) names
