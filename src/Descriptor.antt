-- ===== src/Descriptor.antt =====
-- descriptor.go: the declarative description of one collection, and the placeholders of a template.
pub mod Template
use dalgo2http.Prelude.{
  ℕ, Char, code, String, Bool, ◌&&◌, ◌||◌, not, List, [], ◌∷◌, ◌++◌, leb, nat_eq, if◌then◌else◌,
  ◌==◌, Dict,
}
use dalgo2http.Value.{ℤ}
use Prim.Native.String

-- The source's text-valued enumerations; the last constructor is any other text.
pub data Method : Type 0 where
  unset get : Method
  other : String → Method

pub data ParamLocation : Type 0 where
  path query : ParamLocation
  other : String → ParamLocation

-- decoder.go
pub data Decoder : Type 0 where
  unset json ecb_euro_fx_ref strict_csv3 : Decoder
  other : String → Decoder

-- decoder.go
unfoldable pub live_only_decoder : Decoder → Bool
live_only_decoder ecb_euro_fx_ref = Bool.true
live_only_decoder strict_csv3 = Bool.true
live_only_decoder _ = Bool.false

-- request.go: 2 MiB
abbrev pub max_body_bytes : ℕ
max_body_bytes = 2097152

pub record Param : Type 0 where
  pub location : ParamLocation

pub record Collection : Type 0 where
  pub name : String
  pub decoder : Decoder
  pub url_template : String
  pub method : Method
  pub params : Dict Param
  pub rows_path : String
  pub key_field : String
  pub headers : Dict String
  pub timeout : ℤ
  pub client_side_filter : Bool
  pub insecure_allow_loopback : Bool

-- [a-zA-Z0-9_]
abbrev pub is_word : ℕ → Bool
is_word c =
    (leb b'a' c && leb c b'z')
    || (leb b'A' c && leb c b'Z')
    || (leb b'0' c && leb c b'9')
    || nat_eq c b'_'

-- What a template consists of: plain text, and matches of `placeholderRe`.
pub data Piece : Type 0 where
  plain placeholder : String → Piece

-- The scan is outside a placeholder, or has read a brace and the word behind it.
pub data Scan : Type 0 where
  outside : Scan
  inside : String → Scan

abbrev pub push : String → Char → String
push s c = String.◌++◌ s (String.◌∷◌ c String.[])

unfoldable pub next_outside : Char → List Piece × Scan
next_outside c = if nat_eq (code c) b'{' then ([], inside "") else (plain (push "" c) ∷ [], outside)

unfoldable pub next_inside : String → Char → List Piece × Scan
next_inside name c =
    if is_word (code c)
    then ([], inside (push name c))
    else if nat_eq (code c) b'}' && not (name == "")
    then (placeholder name ∷ [], outside)
    else if nat_eq (code c) b'{'
    then (plain (String.◌++◌ "{" name) ∷ [], inside "")
    else (plain (push (String.◌++◌ "{" name) c) ∷ [], outside)

unfoldable pub next : Scan → Char → List Piece × Scan
unfolding next_outside next_inside
next outside c = next_outside c
next (inside name) c = next_inside name c

unfoldable pub finish : Scan → List Piece
finish outside = []
finish (inside name) = plain (String.◌++◌ "{" name) ∷ []

unfoldable pub pieces_from : Scan → String → List Piece
unfolding next finish
pieces_from s String.[] = finish s
pieces_from s (String.◌∷◌ c t) = let (out, s') = next s c in out ++ pieces_from s' t

-- the matches of `placeholderRe` in a template, with the text between them
unfoldable pub pieces : String → List Piece
unfolding pieces_from
pieces template = pieces_from outside template

-- the names that `FindAllStringSubmatch` finds
unfoldable pub placeholders : List Piece → List String
placeholders [] = []
placeholders (plain t ∷ ps) = placeholders ps
placeholders (placeholder n ∷ ps) = n ∷ placeholders ps
