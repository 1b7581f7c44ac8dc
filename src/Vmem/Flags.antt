-- ===== src/Vmem/Flags.antt =====
-- The flags of a page table entry (working/vmem.h), an int as its bit pattern, and the laws of
-- testing, setting and clearing one of them.
use suse_vm.Prelude.{
  ℕ, ◌-◌, ◌^◌, ◌<◌, ◌≡◌, refl, Bool, true, false, not, ◌&&◌, ◌||◌, bit_and, bit_or, ◌==◌, ltb, leb,
  ◌≤◌, ltb→lt, same_bool, same_bool_sound, all_below, all_below_sound, arith,
}

pub data Flag : Type 0 where
  present changed usedbit1 usedbit2 : Flag

-- the value of the `PTF_` macro
unfoldable pub mask : Flag → ℕ
mask present = 1
mask changed = 2
mask usedbit1 = 4
mask usedbit2 = 8

-- `(flags & PTF) == PTF`
unfoldable pub has : ℕ → Flag → Bool
unfolding mask
has flags g = bit_and flags (mask g) == mask g

-- `flags |= PTF`
unfoldable pub set_flag : ℕ → Flag → ℕ
unfolding mask
set_flag flags g = bit_or flags (mask g)

-- `flags &= ~PTF`, with the complement of a 32-bit int
unfoldable pub clear_flag : ℕ → Flag → ℕ
unfolding mask
clear_flag flags g = bit_and flags (2 ^ 32 - 1 - mask g)

abbrev pub same_flag : Flag → Flag → Bool
same_flag present present = true
same_flag changed changed = true
same_flag usedbit1 usedbit1 = true
same_flag usedbit2 usedbit2 = true
same_flag _ _ = false

-- No flag above the four is ever set.
abbrev pub flags_end : ℕ
flags_end = 16

all_flags : (Flag → Bool) → Bool
all_flags p = p present && p changed && p usedbit1 && p usedbit2

all_flags_sound : (p : Flag → Bool) (g : Flag) → all_flags p ≡ true → p g ≡ true
unfolding all_flags
all_flags_sound p present h = ground arith
all_flags_sound p changed h = ground arith
all_flags_sound p usedbit1 h = ground arith
all_flags_sound p usedbit2 h = ground arith

-- A test of every entry below 16 and of every two flags.
abbrev table : (ℕ → Flag → Flag → Bool) → Bool
table p = all_below flags_end (λ x. all_flags (λ g. all_flags (λ h. p x g h)))

table_sound :
    (p : ℕ → Flag → Flag → Bool) (x : ℕ) (g h : Flag)
    → table p ≡ true
    → x < flags_end
    → p x g h ≡ true
table_sound p x g h t lt =
    all_flags_sound (λ k. p x g k) h
      (all_flags_sound (λ g'. all_flags (λ k. p x g' k)) g
        (all_below_sound flags_end (λ y. all_flags (λ g'. all_flags (λ k. p y g' k))) x t lt))

abbrev set_test : ℕ → Flag → Flag → Bool
set_test x g h = same_bool (has (set_flag x g) h) (same_flag g h || has x h)

set_table : table set_test ≡ true
unfolding all_flags has set_flag
set_table = refl

abbrev clear_test : ℕ → Flag → Flag → Bool
clear_test x g h = same_bool (has (clear_flag x g) h) (not (same_flag g h) && has x h)

clear_table : table clear_test ≡ true
unfolding all_flags has clear_flag
clear_table = refl

pub has-set_flag :
    (x : ℕ) (g h : Flag) → x < flags_end → has (set_flag x g) h ≡ (same_flag g h || has x h)
has-set_flag x g h lt = same_bool_sound _ _ (table_sound set_test x g h set_table lt)

pub has-clear_flag :
    (x : ℕ) (g h : Flag) → x < flags_end → has (clear_flag x g) h ≡ (not (same_flag g h) && has x h)
has-clear_flag x g h lt = same_bool_sound _ _ (table_sound clear_test x g h clear_table lt)

abbrev set_small_test : ℕ → Flag → Flag → Bool
set_small_test x g h = ltb (set_flag x g) flags_end

set_small : table set_small_test ≡ true
unfolding all_flags set_flag
set_small = refl

abbrev clear_small_test : ℕ → Flag → Flag → Bool
clear_small_test x g h = ltb (clear_flag x g) flags_end

clear_small : table clear_small_test ≡ true
unfolding all_flags clear_flag
clear_small = refl

pub set_flag-lt : (x : ℕ) (g : Flag) → x < flags_end → set_flag x g < flags_end
set_flag-lt x g lt = ltb→lt _ _ (table_sound set_small_test x g present set_small lt)

pub clear_flag-lt : (x : ℕ) (g : Flag) → x < flags_end → clear_flag x g < flags_end
clear_flag-lt x g lt = ltb→lt _ _ (table_sound clear_small_test x g present clear_small lt)

abbrev clear_less_test : ℕ → Flag → Flag → Bool
clear_less_test x g h = leb (clear_flag x g) x

clear_less : table clear_less_test ≡ true
unfolding all_flags clear_flag
clear_less = refl

pub clear_flag-le : (x : ℕ) (g : Flag) → x < flags_end → clear_flag x g ≤ x
clear_flag-le x g lt = let t = table_sound clear_less_test x g present clear_less lt in ground arith

-- The flags without the second used bit.
abbrev pub plain_end : ℕ
plain_end = 8

abbrev set_plain_test : ℕ → Bool
set_plain_test x =
    ltb (set_flag x present) plain_end
    && ltb (set_flag x changed) plain_end
    && ltb (set_flag x usedbit1) plain_end

set_plain : all_below plain_end set_plain_test ≡ true
unfolding set_flag
set_plain = refl

pub set_flag-plain :
    (x : ℕ)
    → x < plain_end
    → (set_flag x present < plain_end)
      × (set_flag x changed < plain_end)
      × (set_flag x usedbit1 < plain_end)
set_flag-plain x lt =
    let t = all_below_sound plain_end set_plain_test x set_plain lt in
    (ground arith, ground arith, ground arith)

abbrev clear_all_test : ℕ → Bool
clear_all_test x = clear_flag (clear_flag (clear_flag x present) changed) usedbit1 == 0

clear_all : all_below plain_end clear_all_test ≡ true
unfolding clear_flag
clear_all = refl

pub clear_flag-all :
    (x : ℕ) → x < plain_end → clear_flag (clear_flag (clear_flag x present) changed) usedbit1 ≡ 0
clear_flag-all x lt =
    let t = all_below_sound plain_end clear_all_test x clear_all lt in ground arith

pub has-zero : (g : Flag) → has 0 g ≡ false
unfolding has
has-zero present = refl
has-zero changed = refl
has-zero usedbit1 = refl
has-zero usedbit2 = refl
