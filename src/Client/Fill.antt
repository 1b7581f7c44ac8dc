-- ===== src/Client/Fill.antt =====
-- What `init_data` of working/vmappl.c writes, `display_data` shows.
use suse_vm.Prelude.{
  ℕ, zero, suc, ◌+◌, ◌%◌, ◌≤◌, ltb, leb, lt→ltb, ◌&&◌, ◌≡◌, ◌∙◌, refl, ap, fun_ext, if◌then◌else◌,
  ℤ, pos, List, [], ◌∷◌, true, inl, inr, Bool-cases, Option, none, some, update, arith,
}
use suse_vm.Vmem.Sizes.{virtmem_size}
use suse_vm.Vmem.State.{World}
use suse_vm.Vmem.Run.{Returns}
use suse_vm.Manager.Valid.{IsValid, view}
use suse_vm.Flat.{Memory}
use suse_vm.Access.{Config}
use suse_vm.Access.Ready.{CanAttach}
use suse_vm.Access.Refine.{Reached}
use suse_vm.Client.Refine.{execute_refines}
use suse_vm.Client.Program.{
  Program, return, no_fuel, execute, vmem_read, vmem_write, and_then, on_flat,
}
use suse_vm.Client.Appl.{rndmod, fill_from, display_from, init_data, display_data}

abbrev go_on : {A B : Type 0} → Option (A × Memory) → (A → Program B) → Option (B × Memory)
go_on none k = none
go_on (some (x, m)) k = on_flat (k x) m

-- On a flat memory a program goes on with what was before it.
pub on_flat-and_then :
    {A B : Type 0} (p : Program A) (k : A → Program B) (m : Memory)
    → on_flat (and_then p k) m ≡ go_on (on_flat p m) k
unfolding on_flat and_then
on_flat-and_then (return x) k m = refl
on_flat-and_then no_fuel k m = refl
on_flat-and_then (vmem_read a next) k m = elim (Bool-cases (ltb a virtmem_size)) [
  | inl inside ↦ rw inside (on_flat-and_then (next (m a)) k m)
  | inr outside ↦ rw outside refl
]
on_flat-and_then (vmem_write a x next) k m = elim (Bool-cases (ltb a virtmem_size)) [
  | inl inside ↦ rw inside (on_flat-and_then next k (update m a x))
  | inr outside ↦ rw outside refl
]

pub bind_flat :
    {A B : Type 0} (p : Program A) (k : A → Program B) (m : Memory) {m' : Memory} {x : A}
    {r : Option (B × Memory)}
    → on_flat p m ≡ some (x, m')
    → on_flat (k x) m' ≡ r
    → on_flat (and_then p k) m ≡ r
bind_flat p k m e h = on_flat-and_then p k m ∙ rw e h

-- the memory with `n` random ints from `i` on
abbrev pub filled : (ℕ → ℕ) → (n i : ℕ) → Memory → Memory
filled rand n i m b = if leb i b && ltb b (i + n) then pos (rand b % rndmod) else m b

-- the ints of the memory from `i` on
unfoldable pub shown : Memory → (n i : ℕ) → List ℤ
shown m zero i = []
shown m (suc n) i = m i ∷ shown m n (i + 1)

pub fill_from-filled :
    (rand : ℕ → ℕ) (n i : ℕ) (m : Memory)
    → i + n ≤ virtmem_size
    → on_flat (fill_from rand n i) m ≡ some (tt, filled rand n i m)
unfolding on_flat fill_from update
fill_from-filled rand zero i m h = ap (λ f. some (tt, f)) (fun_ext λ b. ground arith)
fill_from-filled rand (suc n) i m h =
    rw
      (
        lt→ltb i virtmem_size (omega arith),
        fill_from-filled rand n (i + 1) (update m i (pos (rand i % rndmod))) (omega arith),
      )
      (ap (λ f. some (tt, f)) (fun_ext λ b. ground arith))

pub display_from-shown :
    (n i : ℕ) (m : Memory)
    → i + n ≤ virtmem_size
    → on_flat (display_from n i) m ≡ some (shown m n i, m)
unfolding on_flat display_from shown
display_from-shown zero i m h = refl
display_from-shown (suc n) i m h =
    rw
      (
        lt→ltb i virtmem_size (omega arith),
        on_flat-and_then (display_from n (i + 1)) (λ xs. return (m i ∷ xs)) m,
        display_from-shown n (i + 1) m (omega arith),
      )
      refl

-- the first `n` ints that `init_data` draws, from number `i` on
abbrev pub drawn : (ℕ → ℕ) → (n i : ℕ) → List ℤ
drawn rand n i = shown (λ b. pos (rand b % rndmod)) n i

pub shown-filled :
    (rand : ℕ → ℕ) (total n i : ℕ) (m : Memory)
    → i + n ≤ total
    → shown (filled rand total 0 m) n i ≡ drawn rand n i
unfolding shown
shown-filled rand total zero i m h = refl
shown-filled rand total (suc n) i m h =
    let inside : (leb 0 i && ltb i (0 + total)) ≡ true = ground arith in
    rw (inside, shown-filled rand total n (i + 1) m (omega arith)) refl

filled-shown :
    (rand : ℕ → ℕ) (n : ℕ) (m : Memory)
    → n ≤ virtmem_size
    → on_flat (and_then (init_data rand n) (λ _. display_data n)) m
      ≡ some (drawn rand n 0, filled rand n 0 m)
unfolding init_data display_data
filled-shown rand n m h =
    rw
      (
        on_flat-and_then (fill_from rand n 0) (λ _. display_from n 0) m,
        fill_from-filled rand n 0 m (omega arith),
        display_from-shown n 0 (filled rand n 0 m) (omega arith),
        shown-filled rand n n 0 m (omega arith),
      )
      refl

-- From a valid state with a client that is attached or can attach, `init_data` and then
-- `display_data` on at most 1024 ints run to their end: the random ints are displayed in order, and
-- the virtual memory holds them at the first addresses and what it held at all others.
pub display_data-init_data :
    (c : Config) (rand : ℕ → ℕ) (n : ℕ) (w : World)
    → IsValid w
    → CanAttach c.os w
    → n ≤ virtmem_size
    → Returns
        (λ xs w'. (xs ≡ drawn rand n 0) × Reached w (filled rand n 0 (view w)) w')
        (execute c (and_then (init_data rand n) (λ _. display_data n)) w)
display_data-init_data c rand n w v can h =
    execute_refines c (and_then (init_data rand n) (λ _. display_data n)) (view w)
      (filled rand n 0 (view w)) (drawn rand n 0) v can (λ b l. refl)
      (filled-shown rand n (view w) h)
