-- ===== src/Tests/Clients.antt =====
-- The demo application of working/vmappl.c at concrete inputs.
use suse_vm.Prelude.{
  ℕ, ◌+◌, ◌*◌, ◌%◌, ◌≡◌, refl, inr, List, [], ◌∷◌, ℤ, pos, Option, none, some, update, arith,
}
use suse_vm.Vmem.Run.{Returns}
use suse_vm.Manager.Valid.{view}
use suse_vm.Manager.Replace.{clock, fifo}
use suse_vm.Flat.{Memory}
use suse_vm.Access.Ready.{Attaches}
use suse_vm.Access.Refine.{Reached}
use suse_vm.Client.Program.{Program, and_then, execute, on_flat}
use suse_vm.Client.Refine.{execute_refines}
use suse_vm.Client.Appl.{
  main, init_data, fill_from, display_data, display_from, sort, quicksort, partition, scan_up,
  scan_down, swap,
}
use suse_vm.Client.Demo.{Displayed, main-Displayed}
use suse_vm.Client.Sort.{SortedWorld, sort-Sorted}
use suse_vm.Tests.Worlds.{fine, config, full, full-IsValid, fresh, fresh-IsValid}

abbrev draws : ℕ → ℕ
draws i = (i * 7 + 3) % 5

abbrev zeros : Memory
zeros = λ _. pos 0

abbrev result_of : Option (List ℤ × Memory) → List ℤ
result_of none = []
result_of (some (xs, m)) = xs

abbrev sorted_five : Program (List ℤ)
unfolding init_data fill_from display_data display_from sort quicksort partition scan_up scan_down
    swap and_then
sorted_five = and_then (init_data draws 5) (λ _. and_then (sort 5) (λ _. display_data 5))

sort_five : result_of (on_flat sorted_five zeros) ≡ pos 0 ∷ pos 1 ∷ pos 2 ∷ pos 3 ∷ pos 4 ∷ []
unfolding on_flat update sorted_five
sort_five = refl

fine-Attaches : Attaches fine
fine-Attaches = record { opened = refl; sized = refl; at_address = refl }

abbrev after_swap : Memory
after_swap = update (update (view full) 3 (view full 900)) 900 (view full 3)

execute_refines_example :
    Returns
      (λ y w'. (y ≡ tt) × Reached full after_swap w')
      (execute (config fifo) (swap 3 900) full)
unfolding swap on_flat
execute_refines_example =
    execute_refines (config fifo) (swap 3 900) (view full) after_swap tt full-IsValid
      (inr fine-Attaches) (λ b l. refl) refl

sort-Sorted_example : Returns (λ _. SortedWorld 550 full) (execute (config clock) (sort 550) full)
sort-Sorted_example =
    sort-Sorted (config clock) 550 full full-IsValid (inr fine-Attaches) (omega arith)

main-Displayed_example : Returns (Displayed draws fresh) (execute (config fifo) (main draws) fresh)
main-Displayed_example = main-Displayed (config fifo) draws fresh fresh-IsValid (inr fine-Attaches)
