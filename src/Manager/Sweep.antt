-- ===== src/Manager/Sweep.antt =====
-- The loops of the two clock algorithms in working/mmanage.c end within their fuel, at a frame,
-- and clear used bits only.
use suse_vm.Prelude.{
  ℕ, zero, suc, ◌+◌, ◌*◌, ◌<◌, ◌≤◌, ◌≡◌, ◌≢◌, refl, ap, ltb, if◌then◌else◌, ℤ, pos, pos_part,
  Bool-cases, inl, inr, arith,
}
use suse_vm.Vmem.Sizes.{nframes}
use suse_vm.Vmem.Flags.{Flag, usedbit1, usedbit2, has, clear_flag}
use suse_vm.Vmem.State.{PtEntry, World}
use suse_vm.Vmem.Run.{Cmd, pure, fail, out_of_fuel, ◌>>=◌, ◌>>◌}
use suse_vm.Vmem.Cells.{get_adm, entry_at, put_entry, framepage_at}
use suse_vm.Manager.Replace.{rotate_alloc_idx, clock_loop, clock2_loop, clock_fuel}
use suse_vm.Manager.Valid.{IsValid, Reflagged}

-- Both loops at once: `drop` says which bit goes when the first used bit is set.
unfoldable pub sweep : (ℕ → Flag) → ℕ → Cmd ℤ
unfolding rotate_alloc_idx
sweep drop zero = fail out_of_fuel
sweep drop (suc k) = do
  a ← get_adm
  page ← framepage_at (pos a.next_alloc_idx)
  e ← entry_at page
  if has e.flags usedbit1
      then (do
        put_entry page (record e { flags = clear_flag e.flags (drop e.flags) })
        rotate_alloc_idx
        sweep drop k)
      else pure (pos a.next_alloc_idx)

pub clock_loop-sweep : (k : ℕ) → clock_loop k ≡ sweep (λ _. usedbit1) k
unfolding clock_loop sweep
clock_loop-sweep zero = refl
clock_loop-sweep (suc k) = rw (clock_loop-sweep k) refl

abbrev pub second_first : ℕ → Flag
second_first fl = if has fl usedbit2 then usedbit2 else usedbit1

pub clock2_loop-sweep : (k : ℕ) → clock2_loop k ≡ sweep second_first k
unfolding clock2_loop sweep
clock2_loop-sweep zero = refl
clock2_loop-sweep (suc k) = rw (clock2_loop-sweep k) refl

-- how many used bits an entry has
unfoldable pub bits : ℕ → ℕ
bits fl = (if has fl usedbit1 then 1 else 0) + (if has fl usedbit2 then 1 else 0)

-- the sum of the first `n` values
unfoldable pub total : (ℕ → ℕ) → ℕ → ℕ
total g zero = 0
total g (suc n) = g n + total g n

total_same : (g h : ℕ → ℕ) (n : ℕ) → ((i : ℕ) → i < n → h i ≡ g i) → total h n ≡ total g n
unfolding total
total_same g h zero e = refl
total_same g h (suc n) e =
    omega (arith, e n (omega arith), total_same g h n (λ i l. e i (omega arith)))

pub total_drop :
    (g h : ℕ → ℕ) (n j : ℕ)
    → j < n
    → suc (h j) ≡ g j
    → ((i : ℕ) → i < n → i ≢ j → h i ≡ g i)
    → suc (total h n) ≡ total g n
unfolding total
total_drop g h zero j l e o = absurd (omega arith)
total_drop g h (suc n) j l e o = elim (Bool-cases (ltb j n)) [
  | inl below ↦
      let l' : j < n = ground arith in
      omega (
        arith,
        o n (omega arith) (omega arith),
        total_drop g h n j l' e (λ i m ne. o i (omega arith) ne),
      )
  | inr last ↦
      let jn : j ≡ n = ground arith in
      omega
        (arith, ap h jn, ap g jn, total_same g h n (λ i m. o i (omega arith) (λ ij. omega arith)))
]

total_bound : (g : ℕ → ℕ) (m n : ℕ) → ((i : ℕ) → g i ≤ m) → total g n ≤ n * m
unfolding total
total_bound g m zero h = omega arith
total_bound g m (suc n) h = grind (arith, h n, total_bound g m n h)

-- the used bits of the pages in all frames
unfoldable pub used_bits : (ℕ → PtEntry) → (ℕ → ℤ) → ℕ
used_bits es fp = total (λ f. bits (es (pos_part (fp f))).flags) nframes

bits-le : (fl : ℕ) → bits fl ≤ 2
unfolding bits
bits-le fl = ground arith

pub used_bits-lt : (es : ℕ → PtEntry) (fp : ℕ → ℤ) → used_bits es fp < clock_fuel
unfolding used_bits
used_bits-lt es fp = omega (
  arith,
  total_bound (λ f. bits (es (pos_part (fp f))).flags) 2 nframes
      (λ f. bits-le (es (pos_part (fp f))).flags),
)

-- the state in which the table and the next index are replaced
abbrev pub rotated : World → (ℕ → PtEntry) → ℕ → World
rotated w es n = record w {
  vmem = record w.vmem {
    adm = record w.vmem.adm { next_alloc_idx = n };
    pt = record w.vmem.pt { entries = es };
  };
}

-- A frame was chosen, and no more than used bits and the next index has changed.
pub record Chosen (w : World) (z : ℤ) (w' : World) : Type 0 where
  pub frame : ℕ
  pub is_frame : z ≡ pos frame
  pub frame_lt : frame < nframes
  pub es : ℕ → PtEntry
  pub next : ℕ
  pub state : w' ≡ rotated w es next
  pub same : Reflagged w.vmem.pt.entries es
  pub valid : IsValid w'
