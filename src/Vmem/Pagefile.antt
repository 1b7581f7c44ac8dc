-- ===== src/Vmem/Pagefile.antt =====
-- What working/mmanage.c uses of the C library on the page file: `fseek`, `fread` and `fwrite`
-- of whole ints between the file and `vmem->data`. A transfer ends at the first int that the
-- medium refuses; a read also ends at the end of the file, a write past it makes the file longer.
use Prim.Native.Nat.{max}
use suse_vm.Prelude.{
  ℕ, zero, suc, ◌+◌, ◌*◌, ltb, leb, ◌≡◌, refl, ◌<◌, ◌≤◌, Bool, true, not, ◌&&◌, if◌then◌else◌, ℤ,
  pos, negsuc, blit, arith,
}
use suse_vm.Vmem.Sizes.{page_size, physmem_size}
use suse_vm.Vmem.State.{Pagefile, World}
use suse_vm.Vmem.Run.{ok, stop, out_of_bounds, Cmd}
use suse_vm.Vmem.Cells.{with_cells}

abbrev pub with_pagefile : World → Pagefile → World
with_pagefile w f = record w { pagefile = f }

-- how many of the `n` ints from `i` on pass the test, up to the first that does not
unfoldable pub run_length : (ℕ → Bool) → ℕ → ℕ → ℕ
run_length good i zero = 0
run_length good i (suc n) = let rest = suc (run_length good (suc i) n) in if good i then rest else 0

-- `fseek(pagefile, sizeof(int) * VMEM_PAGESIZE * page, SEEK_SET)`: a negative offset is refused,
-- and the position stays.
unfoldable pub seek_page : ℤ → Cmd (Unit {0})
seek_page (pos p) w = ok tt (with_pagefile w (record w.pagefile { position = p * page_size }))
seek_page (negsuc n) w = ok tt w

-- the ints that a read can deliver
abbrev pub readable : Pagefile → ℕ → Bool
readable f i = ltb i f.length && not (f.broken i)

-- `fread(&vmem->data[base], sizeof(int), n, pagefile)`
unfoldable pub fread : ℤ → ℕ → Cmd ℕ
fread (pos base) n w =
    let f = w.pagefile in
    let count = run_length (readable f) f.position n in
    if leb (base + n) physmem_size
    then ok count (
        with_pagefile (with_cells w (blit w.vmem.cells base f.ints f.position count))
          (record f { position = f.position + count }))
    else stop out_of_bounds
fread (negsuc b) n w = stop out_of_bounds

-- `fwrite(&vmem->data[base], sizeof(int), n, pagefile)`
unfoldable pub fwrite : ℤ → ℕ → Cmd ℕ
fwrite (pos base) n w =
    let f = w.pagefile in
    let count = run_length (λ i. not (f.broken i)) f.position n in
    if leb (base + n) physmem_size
    then ok count (
        with_pagefile w (record f {
          ints = blit f.ints f.position w.vmem.cells base count;
          length = max f.length (f.position + count);
          position = f.position + count;
        }))
    else stop out_of_bounds
fwrite (negsuc b) n w = stop out_of_bounds

pub run_length_all :
    (good : ℕ → Bool) (i n : ℕ)
    → ((k : ℕ) → i ≤ k → k < i + n → good k ≡ true)
    → run_length good i n ≡ n
unfolding run_length
run_length_all good i zero h = refl
run_length_all good i (suc n) h =
    ground (arith, h i, run_length_all good (suc i) n (λ k a b. h k (omega arith) (omega arith)))
