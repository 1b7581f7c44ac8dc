-- ===== src/Translate/RoundTrip.antt =====
-- What translate0 encodes, translate1 decodes: the substitution of Aufgabe4_final/translate.c.
use mathlib.Core.Bool.{false≢true}
use mathlib.Core.Option.{some-injective, none-ne-some, get_or}
use suse_vm.Prelude.{
  ℕ, zero, suc, ◌+◌, ◌-◌, ◌<◌, ◌≤◌, ◌≡◌, ◌≢◌, refl, sym, ◌∙◌, ap, Bool, true, false, ◌||◌, ltb,
  if◌then◌else◌, ◌==◌, pos, List, [], ◌∷◌, none, some, ◌⊎◌, Bool-cases, arith, inl, inr, ==_refl,
}
use suse_vm.Translate.Chars.{
  is_lower_case, is_upper_case, strlen, char_at, strchr, encode_index_from_char, encode_char,
  decode_from_index, decode_char,
}

same_char : {a b : ℕ} → some a ≡ some b → a ≡ b
same_char e = some-injective _ _ e

pub char_at-inside : (s : List ℕ) (i : ℕ) → i < strlen s → (x : ℕ) × (char_at s i ≡ some x)
unfolding char_at strlen
char_at-inside [] i h = absurd (omega arith)
char_at-inside (x ∷ s) zero h = (x, refl)
char_at-inside (x ∷ s) (suc i) h = char_at-inside s i (omega arith)

pub char_at-end : (s : List ℕ) → char_at s (strlen s) ≡ some 0
unfolding char_at strlen
char_at-end [] = refl
char_at-end (x ∷ s) = let e : strlen s + 1 ≡ suc (strlen s) = omega arith in rw e (char_at-end s)

pub char_at-beyond : (s : List ℕ) (i : ℕ) → strlen s < i → char_at s i ≡ none
unfolding char_at strlen
char_at-beyond s zero h = absurd (omega arith)
char_at-beyond [] (suc i) h = refl
char_at-beyond (x ∷ s) (suc i) h = char_at-beyond s i (omega arith)

pub strchr_first :
    (s : List ℕ) (i x : ℕ)
    → char_at s i ≡ some x
    → ((j : ℕ) → j < i → char_at s j ≢ some x)
    → strchr s x ≡ some i
unfolding char_at strchr
strchr_first [] zero x e first = rw (sym (same_char e)) refl
strchr_first [] (suc i) x e first = absurd (none-ne-some _ e)
strchr_first (y ∷ s) zero x e first = rw (same_char e, ==_refl x) refl
strchr_first (y ∷ s) (suc i) x e first = elim (Bool-cases (y == x)) [
  | inl same ↦ absurd (first 0 (omega arith) (ap some (ground arith)))
  | inr other ↦
      let e' : i + 1 ≡ suc i = omega arith in
      rw (other, strchr_first s i x e (λ j l. first (suc j) (omega arith))) (ap some e')
]

pub strchr_absent : (s : List ℕ) (x : ℕ) → ((j : ℕ) → char_at s j ≢ some x) → strchr s x ≡ none
unfolding char_at strchr
strchr_absent [] x out = elim (Bool-cases (x == 0)) [
  | inl same ↦ absurd (out 0 (ap some (ground arith)))
  | inr other ↦ rw other refl
]
strchr_absent (y ∷ s) x out = elim (Bool-cases (y == x)) [
  | inl same ↦ absurd (out 0 (ap some (ground arith)))
  | inr other ↦ rw (other, strchr_absent s x (λ j. out (suc j))) refl
]

abbrev pub is_letter : ℕ → Bool
is_letter c = is_upper_case c || is_lower_case c

-- A substitution string with one place for each letter, each letter in it once.
pub record IsTable (s : List ℕ) : Type 0 where
  pub length : strlen s ≡ 52
  pub distinct : (i j x : ℕ) → i < 52 → j < 52 → char_at s i ≡ some x → char_at s j ≡ some x → i ≡ j
  pub letters : (i x : ℕ) → i < 52 → char_at s i ≡ some x → is_letter x ≡ true

-- The char's encoding can be read, and is decoded to the char.
abbrev pub RoundTrip : List ℕ → ℕ → Type 0
RoundTrip s c = (e : ℕ) × (encode_char s c ≡ some e) × (decode_char s e ≡ c)

cmp-cases : (a b : ℕ) → (a < b) ⊎ (a ≡ b) ⊎ (b < a)
cmp-cases a b = ground arith

-- the char that stands at the position after `encode_char`, if that stays within the string
abbrev pub encoding : List ℕ → ℕ → ℕ
encoding s c = get_or (encode_char s c) c

module _ {s : List ℕ} (t : IsTable s) where
  decode-at :
      (i x : ℕ)
      → i < 52
      → char_at s i ≡ some x
      → decode_char s x ≡ (if ltb i 26 then 97 + i else 65 + (i - 26))
  unfolding decode_char decode_from_index
  decode-at i x h e =
      rw
        (
          strchr_first s i x e (λ j l same.
              absurd (let eq : i ≡ j = t.distinct i j x h (omega arith) e same in omega arith)),
          t.length,
        )
        (ground arith)

  RoundTrip-at :
      (c i : ℕ)
      → encode_index_from_char s c ≡ pos i
      → i < 52
      → (if ltb i 26 then 97 + i else 65 + (i - 26)) ≡ c
      → RoundTrip s c
  unfolding encode_char
  RoundTrip-at c i index h value =
      let e = char_at-inside s i (rw t.length h) in
      (e.0, rw index e.1, decode-at i e.0 h e.1 ∙ value)

  not_in_table : (c : ℕ) → c ≢ 0 → is_letter c ≡ false → (j : ℕ) → char_at s j ≢ some c
  not_in_table c nonzero other j e = elim (cmp-cases j 52) [
    | inl l ↦ false≢true (sym other ∙ t.letters j c l e)
    | inr (inl same) ↦ nonzero (same_char (sym e ∙ rw (same, sym t.length) (char_at-end s)))
    | inr (inr g) ↦ none-ne-some _ (sym (char_at-beyond s j (rw t.length g)) ∙ e)
  ]

  -- Over a string with one place for each letter, each letter in it once, every char but the
  -- terminator can be encoded, and decoding what it was encoded to gives it back.
  pub decode_char-encode_char : (c : ℕ) → c ≢ 0 → RoundTrip s c
  unfolding encode_char decode_char encode_index_from_char
  decode_char-encode_char c nonzero = elim (Bool-cases (is_upper_case c)) [
    | inl upper ↦
        let index : 65 ≤ c × c ≤ 90 = ground arith in
        RoundTrip-at c (c - 65 + 26) (rw (upper, t.length) refl) (omega arith) (ground arith)
    | inr not_upper ↦ elim (Bool-cases (is_lower_case c)) [
      | inl lower ↦
          let index : 97 ≤ c × c ≤ 122 = ground arith in
          RoundTrip-at c (c - 97) (rw (not_upper, lower) refl) (omega arith) (ground arith)
      | inr not_lower ↦
          let other : is_letter c ≡ false = rw (not_upper, not_lower) refl in
          (
            c,
            rw (not_upper, not_lower) refl,
            rw (strchr_absent s c (not_in_table c nonzero other)) refl,
          )
    ]
  ]

  pub encode_char-encoding : (c : ℕ) → encode_char s c ≡ some (encoding s c)
  unfolding encode_char encode_index_from_char
  encode_char-encoding zero = refl
  encode_char-encoding (suc c) =
      let r = decode_char-encode_char (suc c) (λ e. absurd (omega arith)) in rw r.1 refl

  -- decoding gives back what was encoded
  pub decode_char-encoding : (c : ℕ) → c ≢ 0 → decode_char s (encoding s c) ≡ c
  decode_char-encoding c nonzero =
      let r = decode_char-encode_char c nonzero in
      ap (decode_char s) (same_char (sym (encode_char-encoding c) ∙ r.1)) ∙ r.2
