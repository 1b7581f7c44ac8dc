-- ===== src/Vorlauf/Chars.antt =====
-- The substitution of Aufgabe4/vorlauf/translate/translate.c.
use suse_vm.Prelude.{ℕ, ◌+◌, ◌-◌, ◌%◌, ltb, if◌then◌else◌, ℤ, pos, negsuc, List, Option, none, some}
use suse_vm.Translate.Chars.{is_lower_case, is_upper_case, strlen, char_at, strchr}

abbrev pub lower_offset : ℕ
lower_offset = 97

abbrev pub upper_offset : ℕ
upper_offset = 39

-- `getEncodedCharIndex`
unfoldable pub get_encoded_char_index : ℕ → ℤ
get_encoded_char_index c =
    if is_upper_case c
    then pos (c - upper_offset)
    else (if is_lower_case c then pos (c - lower_offset) else negsuc 0)

abbrev char_or : ℕ → Option ℕ → ℕ
char_or c none = c
char_or c (some x) = x

abbrev pub replaced : List ℕ → ℕ → ℤ → ℕ
replaced subst c (negsuc n) = c
replaced subst c (pos i) = if ltb i (strlen subst) then char_or c (char_at subst i) else c

-- `encode`: the char that then stands at the position. An index within the string is read only.
unfoldable pub encode : List ℕ → ℕ → ℕ
unfolding get_encoded_char_index
encode subst c = replaced subst c (get_encoded_char_index c)

-- `'a' + index > 'z'` on ints, and then the sum cut down to a char; `'\''` is 39
abbrev pub letter_of : ℕ → Option ℕ → ℕ
letter_of c none = c
letter_of c (some index) = if ltb 122 (97 + index) then (39 + index) % 256 else (97 + index) % 256

-- `decode`
unfoldable pub decode : List ℕ → ℕ → ℕ
decode subst c = letter_of c (strchr subst c)
