-- ===== src/EcbXml/Failures.antt =====
-- How the decoder of the ECB's document fails.
use dalgo2http.Prelude.{
  ℕ, zero, suc, ◌+◌, String, ◌≡◌, refl, ap, subst, Bool, true, false, not, ◌||◌, ◌&&◌, List, [],
  ◌∷◌, ◌++◌, arith, length, length-append, any, ltb, leb, nat_eq, is_empty, insert, Dict,
  if◌then◌else◌, ◌==◌,
}
use Prim.Native.String.{len}
use dalgo2http.Errors.{
  Error, error_is, invalid_xml, response_too_large, Result, ok, err, panic, ◌>>=◌, ◌>>◌, fail_if,
  Raises, Raises-bind, Raises-fail_if,
}
use dalgo2http.Runtime.{
  Go, Bytes, Token, Name, Attr, start_element, end_element, char_data, directive, comment,
  proc_inst,
}
use dalgo2http.Descriptor.{max_body_bytes}
use dalgo2http.EcbXml.Lexical.{is_blank}
use dalgo2http.EcbXml.{
  name_eq, Decoding, start, attr_value, is_xmlns, attr_loop, Case, envelope, subject, sender,
  sender_name, outer_cube, date_cube, quote, unexpected, element_case, date_step, quote_step, once,
  case_step, start_step, drop_last, last_local, may_hold_text, token_step, token_loop,
  decode_ecb_daily,
}

-- the ways in which decoding fails
abbrev pub IsXmlError : Error → Type 0
IsXmlError e = (error_is e invalid_xml || error_is e response_too_large) ≡ true

-- What the XML decoder enforces: with so many elements open, no end stands without its start.
abbrev pub AreNested : ℕ → List (Result Token) → Type 0
AreNested depth [] = Unit
AreNested depth (err e ∷ reads) = Unit
AreNested depth (panic ∷ reads) = ⊥
AreNested depth (ok (start_element n attributes) ∷ reads) = AreNested (suc depth) reads
AreNested zero (ok end_element ∷ reads) = ⊥
AreNested (suc depth) (ok end_element ∷ reads) = AreNested depth reads
AreNested depth (ok (char_data t) ∷ reads) = AreNested depth reads
AreNested depth (ok directive ∷ reads) = AreNested depth reads
AreNested depth (ok comment ∷ reads) = AreNested depth reads
AreNested depth (ok (proc_inst target) ∷ reads) = AreNested depth reads

Raises-if :
    {A : Type 0} (b : Bool) (r s : Result A)
    → Raises IsXmlError r
    → Raises IsXmlError s
    → Raises IsXmlError (if b then r else s)
Raises-if true r s h k = h
Raises-if false r s h k = k

attr_loop-Raises :
    (attributes : List Attr) (met : List Name) (attrs : Dict String)
    → Raises IsXmlError (attr_loop attributes met attrs)
unfolding attr_loop
attr_loop-Raises [] met attrs = tt
attr_loop-Raises (a ∷ rest) met attrs =
    let skip = attr_loop-Raises rest (a.name ∷ met) attrs in
    let keep = attr_loop-Raises rest (a.name ∷ met) (insert a.name.local a.value attrs) in
    Raises-fail_if IsXmlError (any (name_eq a.name) met) _ _ refl λ _.
      Raises-if (is_xmlns a.name) _ _ skip
        (Raises-fail_if IsXmlError (not (a.name.space == "")) _ _ refl (λ _. keep))

-- a step that keeps the stack, if it succeeds
abbrev Stays : Decoding → Result Decoding → Type 0
Stays s (ok s') = s'.stack ≡ s.stack
Stays s (err e) = IsXmlError e
Stays s panic = ⊥

Stays-fail_if :
    (s : Decoding) (b : Bool) (e : Error) (rest : Result Decoding)
    → IsXmlError e
    → Stays s rest
    → Stays s (fail_if b e >> rest)
Stays-fail_if s true e rest h k = h
Stays-fail_if s false e rest h k = k

once-Stays :
    (count : ℕ) (attrs : Dict String) (reason : String) (s s' : Decoding)
    → s'.stack ≡ s.stack
    → Stays s (once count attrs reason s')
unfolding once
once-Stays count attrs reason s s' h =
    Stays-fail_if s (not (nat_eq count 1) || not (is_empty attrs)) _ (ok s') refl h

date_step-Stays : (g : Go) (attrs : Dict String) (s : Decoding) → Stays s (date_step g attrs s)
unfolding date_step
date_step-Stays g attrs s =
    let date = attr_value "time" attrs in
    Stays-fail_if s
      (not (nat_eq (s.dates + 1) 1) || not (nat_eq (length attrs) 1) || not (nat_eq (len date) 10))
      _ _ refl
      (Stays-fail_if s (not (g.is_date date)) _ (ok (record s { dates = s.dates + 1; date = date }))
        refl refl)

quote_step-Stays : (attrs : Dict String) (s : Decoding) → Stays s (quote_step attrs s)
unfolding quote_step
quote_step-Stays attrs s = ground arith

case_step-Stays :
    (g : Go) (c : Case) (attrs : Dict String) (s : Decoding) → Stays s (case_step g c attrs s)
unfolding case_step
case_step-Stays g envelope attrs s = once-Stays _ attrs _ s _ refl
case_step-Stays g subject attrs s = once-Stays _ attrs _ s _ refl
case_step-Stays g sender attrs s = once-Stays _ attrs _ s _ refl
case_step-Stays g sender_name attrs s = once-Stays _ attrs _ s _ refl
case_step-Stays g outer_cube attrs s = once-Stays _ attrs _ s _ refl
case_step-Stays g date_cube attrs s = date_step-Stays g attrs s
case_step-Stays g quote attrs s = quote_step-Stays attrs s
case_step-Stays g unexpected attrs s = refl

-- A step behind which so many elements are open, if it succeeds.
abbrev Opens : ℕ → Result Decoding → Type 0
Opens depth (ok s) = length s.stack ≡ depth
Opens depth (err e) = IsXmlError e
Opens depth panic = ⊥

Opens-bind :
    {A : Type 0} (depth : ℕ) (m : Result A) (f : A → Result Decoding)
    → Raises IsXmlError m
    → ((a : A) → m ≡ ok a → Opens depth (f a))
    → Opens depth (m >>= f)
Opens-bind depth (ok a) f h k = k a refl
Opens-bind depth (err e) f h k = h
Opens-bind depth panic f h k = h

Opens-fail_if :
    (depth : ℕ) (b : Bool) (e : Error) (rest : Result Decoding)
    → IsXmlError e
    → Opens depth rest
    → Opens depth (fail_if b e >> rest)
Opens-fail_if depth true e rest h k = h
Opens-fail_if depth false e rest h k = k

push-Opens :
    (n : Name) (s : Decoding) (r : Result Decoding)
    → Stays s r
    → Opens (suc (length s.stack)) (r >>= λ s'. ok (record s' { stack = s.stack ++ n ∷ [] }))
push-Opens n s (ok s') h = omega (arith, length-append {0} s.stack (n ∷ []))
push-Opens n s (err e) h = h
push-Opens n s panic h = h

start_step-Opens :
    (g : Go) (n : Name) (attributes : List Attr) (s : Decoding)
    → Opens (suc (length s.stack)) (start_step g n attributes s)
unfolding start_step
start_step-Opens g n attributes s = Opens-fail_if _ (leb 4 (length s.stack)) _ _ refl (
    Opens-bind _ (attr_loop attributes [] []) _ (attr_loop-Raises attributes [] []) λ attrs _.
      push-Opens n s (case_step g (element_case s.stack n) attrs s)
        (case_step-Stays g (element_case s.stack n) attrs s))

drop_last-eq-ok :
    (n : Name) (stack : List Name)
    → (rest : List Name) × (drop_last (n ∷ stack) ≡ ok rest) × (length rest ≡ length stack)
unfolding drop_last
drop_last-eq-ok n [] = ([], refl, refl)
drop_last-eq-ok n (m ∷ stack) =
    let (rest, dropped, same) = drop_last-eq-ok m stack in (n ∷ rest, rw dropped refl, ap suc same)

end_step-Opens :
    (g : Go) (depth : ℕ) (s : Decoding) (stack : List Name)
    → s.stack ≡ stack
    → length stack ≡ suc depth
    → Opens depth (token_step g end_element s)
unfolding token_step
end_step-Opens g depth s [] e h = absurd (omega arith)
end_step-Opens g depth s (n ∷ stack) e h =
    let (rest, dropped, same) = drop_last-eq-ok n stack in rw (e, dropped) (omega arith)

-- a step, and the loop behind it
token_loop-step :
    (g : Go) (depth : ℕ) (m : Result Decoding) (reads : List (Result Token))
    → Opens depth m
    → ((s : Decoding) → length s.stack ≡ depth → Raises IsXmlError (token_loop g reads s))
    → Raises IsXmlError (m >>= token_loop g reads)
token_loop-step g depth (ok s) reads h k = k s h
token_loop-step g depth (err e) reads h k = h
token_loop-step g depth panic reads h k = h

token_loop-Raises :
    (g : Go) (reads : List (Result Token)) (depth : ℕ) (s : Decoding)
    → AreNested depth reads
    → length s.stack ≡ depth
    → Raises IsXmlError (token_loop g reads s)
unfolding token_loop token_step
token_loop-Raises g [] depth s h e = tt
token_loop-Raises g (err x ∷ reads) depth s h e = refl
token_loop-Raises g (panic ∷ reads) depth s h e = elim h [ ]
token_loop-Raises g (ok (start_element n attributes) ∷ reads) depth s h e =
    token_loop-step g (suc depth) (token_step g (start_element n attributes) s) reads
      (subst (λ k. Opens (suc k) (start_step g n attributes s)) e
        (start_step-Opens g n attributes s))
      (λ s' e'. token_loop-Raises g reads (suc depth) s' h e')
token_loop-Raises g (ok end_element ∷ reads) zero s h e = elim h [ ]
token_loop-Raises g (ok end_element ∷ reads) (suc depth) s h e =
    token_loop-step g depth (token_step g end_element s) reads
      (end_step-Opens g depth s s.stack refl e) (λ s' e'. token_loop-Raises g reads depth s' h e')
token_loop-Raises g (ok (char_data t) ∷ reads) depth s h e =
    token_loop-step g depth (token_step g (char_data t) s) reads
      (Opens-fail_if depth (not (is_blank t) && not (may_hold_text (last_local s.stack))) _ _ refl
        e)
      (λ s' e'. token_loop-Raises g reads depth s' h e')
token_loop-Raises g (ok directive ∷ reads) depth s h e = refl
token_loop-Raises g (ok comment ∷ reads) depth s h e = token_loop-Raises g reads depth s h e
token_loop-Raises g (ok (proc_inst target) ∷ reads) depth s h e =
    token_loop-step g depth (token_step g (proc_inst target) s) reads
      (Opens-fail_if depth (not (target == "xml") || not (nat_eq s.roots 0)) _ _ refl e)
      (λ s' e'. token_loop-Raises g reads depth s' h e')

-- Where the XML decoder's tokens are nested, decoding never panics, and each of its errors wraps
-- `ErrInvalidXML` or `ErrResponseTooLarge`.
pub decode_ecb_daily-IsXmlError :
    (g : Go) (body : Bytes)
    → AreNested 0 (g.xml_tokens body)
    → Raises IsXmlError (decode_ecb_daily g body)
unfolding decode_ecb_daily
decode_ecb_daily-IsXmlError g body nested =
    Raises-fail_if IsXmlError (ltb max_body_bytes (length body)) _ _ refl λ _.
      Raises-fail_if IsXmlError (any (λ b. nat_eq b b'&') body) _ _ refl λ _.
        Raises-bind IsXmlError (token_loop g (g.xml_tokens body) start) _
          (token_loop-Raises g (g.xml_tokens body) 0 start nested refl)
          λ s.
            Raises-fail_if IsXmlError
              (not (nat_eq s.roots 1)
                || not (nat_eq s.cubes 1)
                || not (nat_eq s.dates 1)
                || is_empty s.rows)
              _ _ refl (λ _. tt)
