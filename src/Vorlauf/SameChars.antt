-- ===== src/Vorlauf/SameChars.antt =====
-- Over a string for the 52 letters the substitution of Aufgabe4/vorlauf is the one of Aufgabe4_final.
use suse_vm.Prelude.{
  ℕ, ◌+◌, ◌-◌, ◌/◌, ◌<◌, ◌≤◌, ◌≡◌, refl, lt→ltb, pos, List, Option, none, some, Bool-cases, inl,
  inr, arith,
}
use suse_vm.Translate.Chars.{
  is_lower_case, is_upper_case, strlen, char_at, strchr, encode_char, encode_index_from_char,
  decode_char, decode_from_index, decoded,
}
use suse_vm.Translate.RoundTrip.{encoding, char_at-inside}
use mathlib.Core.Option.{get_or}
use suse_vm.Vorlauf.Chars.{replaced, encode, get_encoded_char_index, decode, letter_of}

replaced-inside :
    (s : List ℕ) (c i : ℕ) → i < strlen s → replaced s c (pos i) ≡ get_or (char_at s i) c
replaced-inside s c i h = let x = char_at-inside s i h in rw (lt→ltb i (strlen s) h, x.1) refl

letter_of-decoded :
    (s : List ℕ) (c : ℕ) → strlen s ≡ 52 → (o : Option ℕ) → letter_of c o ≡ decoded s c o
unfolding decode_from_index
letter_of-decoded s c l none = refl
letter_of-decoded s c l (some i) = rw l (ground arith)

-- Over a string of 52 chars, `encode` and `decode` of Aufgabe4/vorlauf do what `encode_char` and
-- `decode_char` of Aufgabe4_final do, on every char.
pub encode_same :
    (s : List ℕ) (c : ℕ)
    → strlen s ≡ 52
    → (encode s c ≡ encoding s c) × (decode s c ≡ decode_char s c)
unfolding encode get_encoded_char_index decode encode_char encode_index_from_char decode_char
    decode_from_index
encode_same s c l = (
  elim (Bool-cases (is_upper_case c)) [
    | inl upper ↦
        let letter : 65 ≤ c × c ≤ 90 = ground arith in
        let e : c - 65 + 26 ≡ c - 39 = omega arith in
        let half : strlen s / 2 ≡ 26 = omega arith in
        rw (upper, half, e) (replaced-inside s c (c - 39) (rw l (omega arith)))
    | inr not_upper ↦ elim (Bool-cases (is_lower_case c)) [
      | inl lower ↦
          let letter : 97 ≤ c × c ≤ 122 = ground arith in
          rw (not_upper, lower) (replaced-inside s c (c - 97) (rw l (omega arith)))
      | inr other ↦ rw (not_upper, other) refl
    ]
  ],
  letter_of-decoded s c l (strchr s c),
)
