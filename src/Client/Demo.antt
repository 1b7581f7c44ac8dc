-- ===== src/Client/Demo.antt =====
-- `main` of working/vmappl.c: what it displays before and after the sort.
use suse_vm.Prelude.{some, pos, ap, ◌∙◌, ℕ, ◌≡◌, refl, List, ℤ, arith}
use suse_vm.Vmem.State.{World}
use suse_vm.Vmem.Run.{Returns, mono}
use suse_vm.Manager.Valid.{IsValid, view}
use suse_vm.Flat.{Memory}
use suse_vm.Access.{Config}
use suse_vm.Access.Ready.{CanAttach}
use suse_vm.Access.Refine.{Reached}
use suse_vm.Client.Program.{execute, on_flat}
use suse_vm.Client.Refine.{execute_refines}
use suse_vm.Client.Appl.{
  length_of_data, init_data, display_data, fill_from, display_from, sort, main,
}
use suse_vm.Client.Fill.{
  bind_flat, filled, shown, drawn, shown-filled, fill_from-filled, display_from-shown,
}
use suse_vm.Client.Exchange.{Shuffled}
use suse_vm.Client.Sort.{IsSorted, quicksort-Sorted}

-- The 550 random ints are displayed, then the same ints, sorted.
pub record Displayed (rand : ℕ → ℕ) (w : World) (out : List ℤ × List ℤ) (w' : World) : Type 0 where
  pub before : out.0 ≡ drawn rand length_of_data 0
  pub memory : Memory
  pub after : out.1 ≡ shown memory length_of_data 0
  pub shuffled : Shuffled 0 length_of_data (filled rand length_of_data 0 (view w)) memory
  pub sorted : IsSorted memory 0 length_of_data
  pub reached : Reached w memory w'

-- From a valid state with a client that is attached or can attach, `main` of the application runs to
-- its end under each page replacement algorithm. It displays the 550 random ints in order, and then
-- the first 550 ints of the memory at the end, which are the random ints rearranged by exchanges,
-- and sorted; the invariant and the semaphore's value are kept.
pub main-Displayed :
    (c : Config) (rand : ℕ → ℕ) (w : World)
    → IsValid w
    → CanAttach c.os w
    → Returns (Displayed rand w) (execute c (main rand) w)
unfolding main init_data display_data sort on_flat
main-Displayed c rand w v can =
    let m = filled rand 550 0 (view w) in
    let s = quicksort-Sorted 551 0 (pos 549) 550 m refl (omega arith) (omega arith) (omega arith) in
    let shows = shown-filled rand 550 550 0 (view w) (omega arith) in
    let ends : on_flat (main rand) (view w) ≡ some ((shown m 550 0, shown s.after 550 0), s.after) =
      bind_flat (fill_from rand 550 0) _ (view w)
        (fill_from-filled rand 550 0 (view w) (omega arith))
        (bind_flat (display_from 550 0) _ m (display_from-shown 550 0 m (omega arith)) (
          bind_flat (sort 550) _ m s.ends (
            bind_flat (display_from 550 0) _ s.after
              (display_from-shown 550 0 s.after (omega arith)) refl))) in
    mono (execute_refines c (main rand) (view w) s.after _ v can (λ b l. refl) ends) λ out w' q.
      record {
        before = ap (λ r. r.0) q.0 ∙ shows;
        memory = s.after;
        after = ap (λ r. r.1) q.0;
        shuffled = s.shuffled;
        sorted = s.sorted;
        reached = q.1;
      }
