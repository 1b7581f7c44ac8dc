-- ===== src/Client/Appl.antt =====
-- The functions of working/vmappl.c as programs over the virtual memory. An address is an int there;
-- the right end of `quicksort` is the only one that can be negative.
use suse_vm.Prelude.{
  ℕ, zero, suc, ◌+◌, ◌-◌, ◌%◌, ltb, leb, not, ◌&&◌, if◌then◌else◌, ℤ, pos, negsuc, sub_ℕ, lt_int,
  List, [], ◌∷◌,
}
use suse_vm.Client.Program.{Program, return, no_fuel, vmem_read, vmem_write, and_then}

-- `LENGTH`
abbrev pub length_of_data : ℕ
length_of_data = 550

-- `RNDMOD`
abbrev pub rndmod : ℕ
rndmod = 1000

-- the loop of `init_data` from `i` on, with `left` ints to go; `rand i` is what call number `i` of
-- `rand` returns after `srand`
unfoldable pub fill_from : (rand : ℕ → ℕ) → (left i : ℕ) → Program (Unit {0})
fill_from rand zero i = return tt
fill_from rand (suc left) i = vmem_write i (pos (rand i % rndmod)) (fill_from rand left (i + 1))

-- `init_data`
unfoldable pub init_data : (rand : ℕ → ℕ) → (length : ℕ) → Program (Unit {0})
init_data rand length = fill_from rand length 0

abbrev cons_to : ℤ → List ℤ → Program (List ℤ)
cons_to x xs = return (x ∷ xs)

-- the loop of `display_data` from `i` on: the ints that it prints
unfoldable pub display_from : (left i : ℕ) → Program (List ℤ)
display_from zero i = return []
display_from (suc left) i = vmem_read i (λ x. and_then (display_from left (i + 1)) (cons_to x))

-- `display_data`
unfoldable pub display_data : (length : ℕ) → Program (List ℤ)
display_data length = display_from length 0

-- `swap`
unfoldable pub swap : (addr1 addr2 : ℕ) → Program (Unit {0})
swap addr1 addr2 =
    vmem_read addr1
      (λ tmp. vmem_read addr2 (λ x. vmem_write addr1 x (vmem_write addr2 tmp (return tt))))

-- `while(vmem_read(i) < vmem_read(r)) i++`, on fuel
unfoldable pub scan_up : (fuel r i : ℕ) → Program ℕ
scan_up zero r i = no_fuel
scan_up (suc k) r i = vmem_read i (λ x.
    vmem_read r (λ p. let rest = scan_up k r (i + 1) in if lt_int x p then rest else return i))

-- `while((vmem_read(j) >= vmem_read(r)) && (j > l)) j--`, on fuel
unfoldable pub scan_down : (fuel l r j : ℕ) → Program ℕ
scan_down zero l r j = no_fuel
scan_down (suc k) l r j = vmem_read j (λ x. vmem_read r (λ p.
    let rest = scan_down k l r (j - 1) in if not (lt_int x p) && ltb l j then rest else return j))

-- the `while(1)` of `quicksort`, on fuel: where the reference element belongs
unfoldable pub partition : (fuel l r i j : ℕ) → Program ℕ
partition zero l r i j = no_fuel
partition (suc k) l r i j = and_then (scan_up (r + 1) r i) (λ i'.
    and_then (scan_down (r + 1) l r j) (λ j'.
      let rest = and_then (swap i' j') (λ _. partition k l r i' j') in
      if leb j' i' then return i' else rest))

-- `quicksort`, on fuel
unfoldable pub quicksort : (fuel l : ℕ) → (r : ℤ) → Program (Unit {0})
quicksort zero l r = no_fuel
quicksort (suc k) l (negsuc r) = return tt
quicksort (suc k) l (pos r) =
    let sorted = and_then (partition (r + 1) l r l (r - 1)) (λ i.
      and_then (swap i r)
        (λ _. and_then (quicksort k l (sub_ℕ i 1)) (λ _. quicksort k (i + 1) (pos r)))) in
    if ltb l r then sorted else return tt

-- `sort`
unfoldable pub sort : (length : ℕ) → Program (Unit {0})
sort length = quicksort (length + 1) 0 (sub_ℕ length 1)

-- `main`: the ints displayed before and after the sort
unfoldable pub main : (rand : ℕ → ℕ) → Program (List ℤ × List ℤ)
main rand = and_then (init_data rand length_of_data) (λ _.
    and_then (display_data length_of_data) (λ before.
      and_then (sort length_of_data)
        (λ _. and_then (display_data length_of_data) (λ after. return (before, after)))))
