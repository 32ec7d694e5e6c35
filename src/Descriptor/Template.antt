-- ===== src/Descriptor/Template.antt =====
-- The scan of a URL template for placeholders.
use Prim.Native.String
use text.Mathlib.TextEquality.{Char-path}
use text.Mathlib.TextLemmas.{append_assoc, nil-append, cons-append}
use dalgo2http.Prelude.{
  Char, code, String, ◌≡◌, refl, ap, ◌∙◌, List, [], ◌∷◌, ◌++◌, true, ◌&&◌, not, arith, nat_eq_iff,
  Bool-cases, nat_eq, inl, inr, ◌==◌,
}
use dalgo2http.Descriptor.{
  Piece, plain, placeholder, Scan, outside, inside, is_word, next, finish, pieces_from, pieces,
}

-- the text of pieces
unfoldable pub unparse : List Piece → String
unparse [] = ""
unparse (plain t ∷ ps) = String.◌++◌ t (unparse ps)
unparse (placeholder n ∷ ps) = String.◌++◌ "{" (String.◌++◌ n (String.◌++◌ "}" (unparse ps)))

-- the text that a scan has read and not yet passed on
abbrev pending : Scan → String
pending outside = ""
pending (inside n) = String.◌++◌ "{" n

char_text : (c d : Char) → code c ≡ code d → String.◌∷◌ c "" ≡ String.◌∷◌ d ""
char_text c d h = ap (λ x. String.◌∷◌ x "") (Char-path c d h)

-- `{` is read back as the character that was passed over
brace : (c : Char) → nat_eq (code c) b'{' ≡ true → String.◌∷◌ c "" ≡ "{"
brace c h = char_text c _ ((nat_eq_iff (code c) b'{').0 h)

closing : (c : Char) → nat_eq (code c) b'}' ≡ true → String.◌∷◌ c "" ≡ "}"
closing c h = char_text c _ ((nat_eq_iff (code c) b'}').0 h)

ruleset text_laws = (append_assoc, nil-append, cons-append)

next-pending :
    (s : Scan) (c : Char) (rest : List Piece) (t : String)
    → unparse rest ≡ String.◌++◌ (pending (next s c).1) t
    → unparse ((next s c).0 ++ rest) ≡ String.◌++◌ (pending s) (String.◌∷◌ c t)
unfolding next unparse
next-pending outside c rest t h = elim (Bool-cases (nat_eq (code c) b'{')) [
  | inl e ↦
      let k : unparse rest ≡ String.◌++◌ "{" t = simp e at h in simp (e, k, ← brace c e, text_laws)
  | inr e ↦ let k : unparse rest ≡ t = simp (e, nil-append) at h in simp (e, k, text_laws)
]
next-pending (inside n) c rest t h = elim (Bool-cases (is_word (code c))) [
  | inl w ↦
      let k : unparse rest ≡ String.◌++◌ "{" (String.◌++◌ n (String.◌∷◌ c t)) =
        simp (w, text_laws) at h in
      simp (w, k, text_laws)
  | inr w ↦ elim (Bool-cases (nat_eq (code c) b'}' && not (n == ""))) [
    | inl e ↦
        let k : unparse rest ≡ t = simp (w, e, nil-append) at h in
        let d : nat_eq (code c) b'}' ≡ true = ground arith in
        simp (w, e, k, ← closing c d, text_laws)
    | inr e ↦ elim (Bool-cases (nat_eq (code c) b'{')) [
      | inl o ↦
          let k : unparse rest ≡ String.◌++◌ "{" t = simp (w, e, o) at h in
          simp (w, e, o, k, ← brace c o, text_laws)
      | inr o ↦
          let k : unparse rest ≡ t = simp (w, e, o, nil-append) at h in simp (w, e, o, k, text_laws)
    ]
  ]
]

finish-pending : (s : Scan) → unparse (finish s) ≡ String.◌++◌ (pending s) ""
unfolding finish unparse
finish-pending outside = refl
finish-pending (inside n) = refl

pieces_from-pending :
    (s : Scan) (t : String) → unparse (pieces_from s t) ≡ String.◌++◌ (pending s) t
unfolding pieces_from
pieces_from-pending s String.[] = finish-pending s
pieces_from-pending s (String.◌∷◌ c t) =
    next-pending s c (pieces_from (next s c).1 t) t (pieces_from-pending (next s c).1 t)

-- Splitting a URL template into plain text and placeholders loses nothing: the pieces, with the
-- braces put back round each name, spell the template.
pub pieces-unparse : (template : String) → unparse (pieces template) ≡ template
unfolding pieces
pieces-unparse template = pieces_from-pending outside template ∙ nil-append template
