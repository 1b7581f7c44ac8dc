-- ===== src/Vorlauf/Counted.antt =====
-- The two semaphores of Aufgabe4/vorlauf count the ring buffer; how taking a place ends.
use suse_vm.Prelude.{ℕ, zero, suc, ◌+◌, ◌-◌, ◌<◌, ◌≡◌, refl, Bool, ltb, if◌then◌else◌, ◌==◌, arith}
use suse_vm.Translate.Device.{Params}
use suse_vm.Translate.Queue.{IsRing}
use suse_vm.Vorlauf.Chars.{encode, decode}
use suse_vm.Vorlauf.Device.{
  TranslateDev, Outcome, copied, restart, asleep, copy_failed, got, refused, acquire,
}

-- The ring is sound, and the semaphores hold the numbers of filled and of free places.
pub record IsCounted (m : Params) (d : TranslateDev) : Type 0 where
  pub ring : IsRing m d.shared
  pub filled : d.items_in_buffer ≡ d.shared.items
  pub free : d.free_buffer_space + d.shared.items ≡ m.translate_bufsize

-- the char as a device of this minor number keeps it, and as it hands it out
abbrev pub kept_as : Params → ℕ → ℕ → ℕ
kept_as m minor c = if minor == 0 then encode m.translate_subst c else c

abbrev pub handed_as : Params → ℕ → ℕ → ℕ
handed_as m minor c = if minor == 1 then decode m.translate_subst c else c

-- how a call ends that finds no place after `n` items
abbrev pub no_place : (signalled : Bool) → ℕ → Outcome
no_place signalled n = if ltb 0 n then copied n else (if signalled then restart else asleep)

-- How a call ends that has `left` items to go after `n`, finds `k` places for them, and whose process
-- lets `a` of these be copied.
abbrev pub ending : (signalled : Bool) → (n left k a : ℕ) → Outcome
ending signalled n left k a =
    if a == k
    then (if k == left then copied (n + k) else no_place signalled (n + k))
    else copy_failed (n + a)

pub acquire-zero :
    (signalled : Bool) (n : ℕ) → acquire signalled n 0 ≡ refused (no_place signalled n)
acquire-zero signalled zero = refl
acquire-zero signalled (suc n) = ground arith

pub acquire-more : (signalled : Bool) (n v : ℕ) → 0 < v → acquire signalled n v ≡ got (v - 1)
acquire-more signalled n zero h = absurd (omega arith)
acquire-more signalled n (suc v) h = let e : suc v - 1 ≡ v = omega arith in rw e refl
