-- ===== src/EcbXml/Stack.antt =====
-- Which elements are open while the ECB's document is read.
use dalgo2http.Prelude.{
  ℕ, zero, suc, ◌≡◌, refl, sym, ap, subst, ◌⊎◌, inl, inr, Bool, true, false, ◌&&◌, List, [], ◌∷◌,
  ◌++◌, none, Bool-cases, arith, eq_iff, length, nat_eq, get_elem?, if◌then◌else◌, ◌==◌,
}
use dalgo2http.Errors.{ok, >>=-eq-ok, ok_inj}
use dalgo2http.Runtime.{Name}
use dalgo2http.EcbXml.{
  name_eq, gesmes, cube, stack_has, Case, envelope, subject, sender, sender_name, outer_cube,
  date_cube, quote, unexpected, element_case, drop_last,
}

-- an element of the date's name is open
abbrev pub in_date : List Name → Bool
in_date stack = stack_has 2 cube stack

-- the cases that open another element
abbrev pub opens_other : Case → Bool
opens_other date_cube = false
opens_other unexpected = false
opens_other _ = true

not_both : (n : Name) → name_eq n cube ≡ true → name_eq n (gesmes "name") ≡ false
not_both n h =
    let here : (n.local == "Cube") ≡ true = ground arith in
    let other : (n.local == "name") ≡ false =
      ap (λ s. s == "name") ((eq_iff n.local "Cube").0 here) in
    ground arith

second_level :
    (n a b : Name) (c : Case)
    → element_case (a ∷ b ∷ []) n ≡ c
    → opens_other c ≡ true
    → name_eq n cube ≡ false
unfolding element_case stack_has
second_level n a b c e h = elim (Bool-cases (name_eq n cube)) [
  | inl is_cube ↦ let other = not_both n is_cube in ground arith
  | inr other ↦ other
]

pub push-in_date :
    (n : Name) (stack : List Name) (c : Case)
    → element_case stack n ≡ c
    → opens_other c ≡ true
    → in_date stack ≡ false
    → in_date (stack ++ n ∷ []) ≡ false
unfolding stack_has
push-in_date n [] c e h out = refl
push-in_date n (a ∷ []) c e h out = refl
push-in_date n (a ∷ b ∷ []) c e h out = second_level n a b c e h
push-in_date n (a ∷ b ∷ d ∷ stack) c e h out = out

-- what is left of a stack when its last name is dropped
drop_last-get_elem? :
    (stack rest : List Name) (i : ℕ)
    → drop_last stack ≡ ok rest
    → (get_elem? rest i ≡ none) ⊎ (get_elem? rest i ≡ get_elem? stack i)
unfolding drop_last
drop_last-get_elem? [] rest i e = cc
drop_last-get_elem? (a ∷ []) rest i e = inl (sym (ap (λ st. get_elem? st i) (ok_inj [] rest e)))
drop_last-get_elem? (a ∷ b ∷ stack) rest i e =
    let (behind, dropped, same) = >>=-eq-ok (drop_last (b ∷ stack)) _ e in
    subst (λ st. (get_elem? st i ≡ none) ⊎ (get_elem? st i ≡ get_elem? (a ∷ b ∷ stack) i))
      (ok_inj (a ∷ behind) rest same)
      (by_index i behind (λ k. drop_last-get_elem? (b ∷ stack) behind k dropped))
  where
    by_index :
        (i : ℕ) (behind : List Name)
        → ((k : ℕ) → (get_elem? behind k ≡ none) ⊎ (get_elem? behind k ≡ get_elem? (b ∷ stack) k))
        → (get_elem? (a ∷ behind) i ≡ none)
          ⊎ (get_elem? (a ∷ behind) i ≡ get_elem? (a ∷ b ∷ stack) i)
    by_index zero behind h = inr refl
    by_index (suc i) behind h = h i

-- closing an element opens none
pub drop_last-in_date :
    (stack rest : List Name)
    → drop_last stack ≡ ok rest
    → in_date stack ≡ false
    → in_date rest ≡ false
unfolding stack_has
drop_last-in_date stack rest e out = elim (drop_last-get_elem? stack rest 2 e) [
  | inl gone ↦ rw (gone, stack_has) refl
  | inr same ↦ rw (same, stack_has) out
]

last_case :
    (a b c d e f x y z : Bool)
    → (if a
        then envelope
        else if b
        then subject
        else if c
        then sender
        else if d
        then sender_name
        else if e
        then outer_cube
        else if f
        then date_cube
        else if x && y && z
        then quote
        else unexpected)
      ≡ quote
    → z ≡ true
last_case a b c d e f x y z h = ground arith

-- a quote stands within the date
pub quote-in_date :
    (stack : List Name) (n : Name) → element_case stack n ≡ quote → in_date stack ≡ true
unfolding element_case
quote-in_date stack n e =
    let depth = length stack in
    last_case (nat_eq depth 0 && name_eq n (gesmes "Envelope"))
      (nat_eq depth 1 && name_eq n (gesmes "subject"))
      (nat_eq depth 1 && name_eq n (gesmes "Sender"))
      (nat_eq depth 2 && stack_has 1 (gesmes "Sender") stack && name_eq n (gesmes "name"))
      (name_eq n cube && nat_eq depth 1)
      (name_eq n cube && nat_eq depth 2 && stack_has 1 cube stack) (name_eq n cube) (nat_eq depth 3)
      (in_date stack) e
