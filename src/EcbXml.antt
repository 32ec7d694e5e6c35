-- ===== src/EcbXml.antt =====
-- ecb_xml.go: the decoder of the daily ECB document. The tokens come from the runtime.
pub mod Lexical
pub mod Rows
pub mod Quotes
pub mod Failures
pub mod Stack
pub mod Dates
pub mod Document
pub mod Rates
use Prim.Native.String
use dalgo2http.Prelude.{
  ℕ, ◌+◌, suc, zero, Char, code, String, Bool, true, false, ◌&&◌, ◌||◌, not, List, [], ◌∷◌, ◌++◌,
  Option, none, some, ltb, leb, nat_eq, if◌then◌else◌, ◌==◌, Dict, lookup, flag, insert, length,
  any, is_empty, get_elem?,
}
use dalgo2http.Errors.{
  Error, sentinel, errorf, invalid_xml, response_too_large, Result, ok, err, panic, ◌>>=◌, ◌>>◌,
  fail_if,
}
use dalgo2http.Value.{str, Row}
use dalgo2http.Runtime.{
  Go, Bytes, Name, Attr, Token, start_element, end_element, char_data, directive, comment,
  proc_inst,
}
use dalgo2http.Descriptor.{max_body_bytes}
use Lexical.{is_currency_code, is_lexical_decimal, is_trimmed_away, is_blank}

abbrev pub gesmes_namespace : String
gesmes_namespace = "http://www.gesmes.org/xml/2002-08-01"

abbrev pub ecb_namespace : String
ecb_namespace = "http://www.ecb.int/vocabulary/2002-08-01/eurofxref"

abbrev pub max_ecb_rows : ℕ
max_ecb_rows = 256

-- `fail(reason)`
abbrev pub xml_error : String → Error
xml_error reason = errorf reason (sentinel invalid_xml)

abbrev pub name_eq : Name → Name → Bool
name_eq m n = m.space == n.space && m.local == n.local

abbrev gesmes : String → Name
gesmes local = record { space = gesmes_namespace; local = local }

abbrev cube : Name
cube = record { space = ecb_namespace; local = "Cube" }

-- the variables of the loop; the bottom of the stack stands first
pub record Decoding : Type 0 where
  pub stack : List Name
  pub rows : List Row
  pub seen : Dict Bool
  pub date : String
  pub roots : ℕ
  pub cubes : ℕ
  pub dates : ℕ
  pub subjects : ℕ
  pub senders : ℕ
  pub names : ℕ

abbrev pub start : Decoding
start = record {
  stack = [];
  rows = [];
  seen = [];
  date = "";
  roots = 0;
  cubes = 0;
  dates = 0;
  subjects = 0;
  senders = 0;
  names = 0;
}

is_xmlns : Name → Bool
is_xmlns n = n.space == "xmlns" || (n.space == "" && n.local == "xmlns")

-- the loop over `t.Attr`, with the names met and the attributes kept
attr_loop : List Attr → List Name → Dict String → Result (Dict String)
unfolding is_xmlns
attr_loop [] met attrs = ok attrs
attr_loop (a ∷ rest) met attrs =
    let skip = attr_loop rest (a.name ∷ met) attrs in
    let kept = attr_loop rest (a.name ∷ met) (insert a.name.local a.value attrs) in
    do
      fail_if (any (name_eq a.name) met) (xml_error "duplicate attribute")
      if is_xmlns a.name
          then skip
          else (do fail_if (not (a.name.space == "")) (xml_error "namespaced attribute"); kept)

-- `attrs[k]`, which is empty for a missing key
attr_value : String → Dict String → String
attr_value k attrs = elim (lookup k attrs) [ none ↦ "" | some v ↦ v ]

-- `stack[i] == n`, where the guards before it make sure of the index
pub stack_has : ℕ → Name → List Name → Bool
stack_has i n stack = elim (get_elem? stack i) [ none ↦ false | some m ↦ name_eq m n ]

-- the cases of the switch over an element's depth and name
pub data Case : Type 0 where
  envelope subject sender sender_name outer_cube date_cube quote unexpected : Case

pub element_case : List Name → Name → Case
unfolding stack_has
element_case stack n =
    let depth = length stack in
    if nat_eq depth 0 && name_eq n (gesmes "Envelope")
    then envelope
    else if nat_eq depth 1 && name_eq n (gesmes "subject")
    then subject
    else if nat_eq depth 1 && name_eq n (gesmes "Sender")
    then sender
    else if nat_eq depth 2 && stack_has 1 (gesmes "Sender") stack && name_eq n (gesmes "name")
    then sender_name
    else if name_eq n cube && nat_eq depth 1
    then outer_cube
    else if name_eq n cube && nat_eq depth 2 && stack_has 1 cube stack
    then date_cube
    else if name_eq n cube && nat_eq depth 3 && stack_has 2 cube stack
    then quote
    else unexpected

abbrev pub quote_row : String → String → String → Row
quote_row date currency rate =
    ("time", str date) ∷ ("currency", str currency) ∷ ("rate", str rate) ∷ []

pub date_step : Go → Dict String → Decoding → Result Decoding
unfolding attr_value
date_step g attrs s =
    let date = attr_value "time" attrs in
    do
      fail_if
          (not (nat_eq (s.dates + 1) 1)
            || not (nat_eq (length attrs) 1)
            || not (nat_eq (Prim.Native.String.len date) 10))
          (xml_error "daily response requires one date")
      fail_if (not (g.is_date date)) (xml_error "invalid reference date")
      ok (record s { dates = s.dates + 1; date = date })

pub quote_step : Dict String → Decoding → Result Decoding
unfolding attr_value
quote_step attrs s =
    let currency = attr_value "currency" attrs in
    let rate = attr_value "rate" attrs in
    do
      fail_if
          (not (nat_eq (length attrs) 2)
            || not (is_currency_code currency)
            || currency == "EUR"
            || not (is_lexical_decimal rate)
            || is_trimmed_away rate)
          (xml_error "invalid quote attributes")
      fail_if (flag currency s.seen || leb max_ecb_rows (length s.rows))
          (xml_error "duplicate currency or row bound exceeded")
      ok (record s {
        seen = insert currency true s.seen;
        rows = s.rows ++ quote_row s.date currency rate ∷ [];
      })

-- an element that may occur once and has no attributes
pub once : ℕ → Dict String → String → Decoding → Result Decoding
once count attrs reason s = do
  fail_if (not (nat_eq count 1) || not (is_empty attrs)) (xml_error reason)
  ok s

case_step : Go → Case → Dict String → Decoding → Result Decoding
unfolding date_step quote_step once
case_step g envelope attrs s =
    once (s.roots + 1) attrs "invalid envelope" (record s { roots = s.roots + 1 })
case_step g subject attrs s =
    once (s.subjects + 1) attrs "invalid subject" (record s { subjects = s.subjects + 1 })
case_step g sender attrs s =
    once (s.senders + 1) attrs "invalid sender" (record s { senders = s.senders + 1 })
case_step g sender_name attrs s =
    once (s.names + 1) attrs "invalid sender name" (record s { names = s.names + 1 })
case_step g outer_cube attrs s =
    once (s.cubes + 1) attrs "invalid outer cube" (record s { cubes = s.cubes + 1 })
case_step g date_cube attrs s = date_step g attrs s
case_step g quote attrs s = quote_step attrs s
case_step g unexpected attrs s = err (xml_error "unexpected element or namespace")

start_step : Go → Name → List Attr → Decoding → Result Decoding
unfolding attr_loop element_case case_step
start_step g n attributes s = do
  fail_if (leb 4 (length s.stack)) (xml_error "depth exceeds daily structure")
  attrs ← attr_loop attributes [] []
  s' ← case_step g (element_case s.stack n) attrs s
  ok (record s' { stack = s.stack ++ n ∷ [] })

-- `stack[:len(stack)-1]`, which panics on an empty stack
pub drop_last : List Name → Result (List Name)
drop_last [] = panic
drop_last (n ∷ []) = ok []
drop_last (n ∷ m ∷ ns) = do rest ← drop_last (m ∷ ns); ok (n ∷ rest)

last_local : List Name → Option String
last_local [] = none
last_local (n ∷ []) = some n.local
last_local (n ∷ m ∷ ns) = last_local (m ∷ ns)

may_hold_text : Option String → Bool
may_hold_text none = false
may_hold_text (some local) = local == "subject" || local == "name"

pub token_step : Go → Token → Decoding → Result Decoding
unfolding start_step drop_last last_local may_hold_text
token_step g (start_element n attributes) s = start_step g n attributes s
token_step g end_element s = do stack ← drop_last s.stack; ok (record s { stack = stack })
token_step g (char_data t) s = do
  fail_if (not (is_blank t) && not (may_hold_text (last_local s.stack)))
      (xml_error "unexpected text")
  ok s
token_step g directive s = err (xml_error "DTD and directives are forbidden")
token_step g (proc_inst target) s = do
  fail_if (not (target == "xml") || not (nat_eq s.roots 0))
      (xml_error "processing instructions are forbidden")
  ok s
token_step g comment s = ok s

pub token_loop : Go → List (Result Token) → Decoding → Result Decoding
unfolding token_step
token_loop g [] s = ok s
token_loop g (ok t ∷ tokens) s = do s' ← token_step g t s; token_loop g tokens s'
token_loop g (err e ∷ tokens) s = err (xml_error "malformed XML")
token_loop g (panic ∷ tokens) s = panic

unfoldable pub decode_ecb_daily : Go → Bytes → Result (List Row)
unfolding token_loop
decode_ecb_daily g body = do
  fail_if (ltb max_body_bytes (length body)) (sentinel response_too_large)
  fail_if (any (λ b. nat_eq b b'&') body) (xml_error "entity references are forbidden")
  s ← token_loop g (g.xml_tokens body) start
  fail_if
      (not (nat_eq s.roots 1)
        || not (nat_eq s.cubes 1)
        || not (nat_eq s.dates 1)
        || is_empty s.rows)
      (xml_error "incomplete daily response")
  ok s.rows
