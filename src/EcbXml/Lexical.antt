-- ===== src/EcbXml/Lexical.antt =====
-- The lexical tests of ecb_xml.go: its two regular expressions, and its uses of `strings.Trim` and
-- `strings.TrimSpace`.
use dalgo2http.Prelude.{ℕ, code, String, Bool, true, false, ◌&&◌, ◌||◌, leb, nat_eq}

abbrev pub is_upper : ℕ → Bool
is_upper c = leb b'A' c && leb c b'Z'

abbrev pub is_digit : ℕ → Bool
is_digit c = leb b'0' c && leb c b'9'

-- ^[A-Z]{3}$
unfoldable pub is_currency_code : String → Bool
is_currency_code (String.◌∷◌ a (String.◌∷◌ b (String.◌∷◌ c String.[]))) =
    is_upper (code a) && is_upper (code b) && is_upper (code c)
is_currency_code _ = false

unfoldable pub all_digits : String → Bool
all_digits String.[] = true
all_digits (String.◌∷◌ c s) = is_digit (code c) && all_digits s

abbrev some_digits : String → Bool
some_digits String.[] = false
some_digits (String.◌∷◌ c s) = is_digit (code c) && all_digits s

-- what may stand behind the first digit: digits, or digits, a dot and digits
unfoldable pub is_decimal_rest : String → Bool
unfolding all_digits
is_decimal_rest String.[] = true
is_decimal_rest (String.◌∷◌ c s) =
    (is_digit (code c) && is_decimal_rest s) || (nat_eq (code c) b'.' && some_digits s)

-- ^[0-9]+(?:\.[0-9]+)?$
unfoldable pub is_lexical_decimal : String → Bool
unfolding is_decimal_rest
is_lexical_decimal String.[] = false
is_lexical_decimal (String.◌∷◌ c s) = is_digit (code c) && is_decimal_rest s

-- strings.Trim(s, "0.") == "": nothing else is in the text
unfoldable pub is_trimmed_away : String → Bool
is_trimmed_away String.[] = true
is_trimmed_away (String.◌∷◌ c s) =
    (nat_eq (code c) b'0' || nat_eq (code c) b'.') && is_trimmed_away s

-- `unicode.IsSpace`
abbrev is_space : ℕ → Bool
is_space c =
    (leb 9 c && leb c 13)
    || nat_eq c 32
    || nat_eq c 0x85
    || nat_eq c 0xa0
    || nat_eq c 0x1680
    || (leb 0x2000 c && leb c 0x200a)
    || nat_eq c 0x2028
    || nat_eq c 0x2029
    || nat_eq c 0x202f
    || nat_eq c 0x205f
    || nat_eq c 0x3000

-- strings.TrimSpace(s) == ""
unfoldable pub is_blank : String → Bool
is_blank String.[] = true
is_blank (String.◌∷◌ c s) = is_space (code c) && is_blank s
