-- ===== src/Translate/Chars.antt =====
-- The substitution of characters in Aufgabe4_final/translate.c. A char is a byte, a C string the list
-- of its bytes before the terminator.
use suse_vm.Prelude.{
  ℕ, zero, suc, ◌+◌, ◌-◌, ◌/◌, ◌%◌, Bool, ◌&&◌, ltb, leb, if◌then◌else◌, ◌==◌, ℤ, pos, negsuc, List,
  [], ◌∷◌, Option, none, some,
}

abbrev pub lower_case_ascii : ℕ
lower_case_ascii = 97

abbrev pub upper_case_ascii : ℕ
upper_case_ascii = 65

abbrev pub is_lower_case : ℕ → Bool
is_lower_case c = leb 97 c && leb c 122

abbrev pub is_upper_case : ℕ → Bool
is_upper_case c = leb 65 c && leb c 90

-- `NEUTRAL_CHAR_INDEX`
abbrev pub neutral_char_index : ℤ
neutral_char_index = negsuc 0

-- `strlen`
unfoldable pub strlen : List ℕ → ℕ
strlen [] = 0
strlen (x ∷ s) = strlen s + 1

-- `s[i]`: behind the chars stands the terminator, and what is behind that is not the string's.
unfoldable pub char_at : List ℕ → ℕ → Option ℕ
char_at [] zero = some 0
char_at [] (suc i) = none
char_at (x ∷ s) zero = some x
char_at (x ∷ s) (suc i) = char_at s i

abbrev pub behind : Option ℕ → Option ℕ
behind none = none
behind (some i) = some (i + 1)

-- `strchr(s, c) - s`; the terminator counts as a char of the string.
unfoldable pub strchr : List ℕ → ℕ → Option ℕ
strchr [] c = if c == 0 then some 0 else none
strchr (x ∷ s) c = let rest = strchr s c in if x == c then some 0 else behind rest

-- `UPPER_CASE_SUBSTR_OFFSET`, half of the string's length; `LOWER_CASE_SUBSTR_OFFSET` is 0.
abbrev pub upper_case_substr_offset : List ℕ → ℕ
upper_case_substr_offset subst = strlen subst / 2

-- `encode_index_from_char`
unfoldable pub encode_index_from_char : List ℕ → ℕ → ℤ
encode_index_from_char subst c =
    if is_upper_case c
    then pos (c - upper_case_ascii + upper_case_substr_offset subst)
    else (if is_lower_case c then pos (c - lower_case_ascii) else neutral_char_index)

abbrev pub subst_at : List ℕ → ℕ → ℤ → Option ℕ
subst_at subst c (pos i) = char_at subst i
subst_at subst c (negsuc zero) = some c
subst_at subst c (negsuc (suc n)) = none

-- `encode_char`: the char that then stands at the position, if it was read within the string
unfoldable pub encode_char : List ℕ → ℕ → Option ℕ
unfolding encode_index_from_char
encode_char subst c = subst_at subst c (encode_index_from_char subst c)

-- `decode_from_index`, the int cut down to a char
unfoldable pub decode_from_index : List ℕ → ℕ → ℕ
decode_from_index subst index =
    if ltb index (upper_case_substr_offset subst)
    then (lower_case_ascii + index) % 256
    else (upper_case_ascii + (index - upper_case_substr_offset subst)) % 256

abbrev pub decoded : List ℕ → ℕ → Option ℕ → ℕ
unfolding decode_from_index
decoded subst c none = c
decoded subst c (some index) = decode_from_index subst index

-- `decode_char`: the char that then stands at the position
unfoldable pub decode_char : List ℕ → ℕ → ℕ
unfolding decode_from_index
decode_char subst c = decoded subst c (strchr subst c)
