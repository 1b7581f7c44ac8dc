-- ===== src/Client/Refine.antt =====
-- A client's program cannot tell the virtual memory of working/ from a flat memory.
use mathlib.Core.Option.{some-injective, none-ne-some}
use suse_vm.Prelude.{ℕ, ◌<◌, ltb, ltb→lt, ◌≡◌, refl, ◌∙◌, ap, some, inl, inr, Bool-cases, update}
use suse_vm.Vmem.Sizes.{virtmem_size}
use suse_vm.Vmem.State.{World}
use suse_vm.Vmem.Run.{Returns, returns, bind, mono}
use suse_vm.Manager.Valid.{IsValid, view}
use suse_vm.Flat.{Memory}
use suse_vm.Access.{Config}
use suse_vm.Access.Ready.{CanAttach}
use suse_vm.Access.Refine.{Reached, Reached-after, update-agree, vmem_read-view, vmem_write-view}
use suse_vm.Client.Program.{Program, return, no_fuel, vmem_read, vmem_write, execute, on_flat}

-- A program that has a result on a flat memory has it on a virtual memory that holds the same, from
-- any valid state in which the client is attached or can attach; the memories are the same after
-- it, and the invariant and the semaphore's value are kept.
pub execute_refines :
    {A : Type 0} (c : Config) (p : Program A) (m m' : Memory) (x : A) {w : World}
    → IsValid w
    → CanAttach c.os w
    → ((b : ℕ) → b < virtmem_size → view w b ≡ m b)
    → on_flat p m ≡ some (x, m')
    → Returns (λ y w'. (y ≡ x) × Reached w m' w') (execute c p w)
unfolding execute on_flat
execute_refines c (return y) m m' x v can e h =
    let q = some-injective _ _ h in
    returns (
      ap (λ r. r.0) q,
      record { valid = v; holds = λ b l. e b l ∙ ap (λ r. r.1 b) q; same_sema = refl },
    )
execute_refines c no_fuel m m' x v can e h = absurd (none-ne-some _ h)
execute_refines c (vmem_read a next) m m' x {w} v can e h = elim (Bool-cases (ltb a virtmem_size)) [
  | inl inside ↦
      let l = ltb→lt a virtmem_size inside in
      bind (vmem_read-view c a v can l) λ y u p. rw (p.0 ∙ e a l) (
        mono
          (execute_refines c (next (m a)) m m' x p.1.valid (inl p.1.is_attached)
            (λ b k. p.1.holds b k ∙ e b k) (rw inside at h))
          λ z w' q. (q.0, Reached-after p.1 q.1))
  | inr outside ↦ absurd (none-ne-some _ (rw outside at h))
]
execute_refines c (vmem_write a y next) m m' x v can e h = elim (Bool-cases (ltb a virtmem_size)) [
  | inl inside ↦
      let l = ltb→lt a virtmem_size inside in
      bind (vmem_write-view c a v can l y) λ z u p.
        mono
          (execute_refines c next (update m a y) m' x p.valid (inl p.is_attached)
            (λ b k. p.holds b k ∙ update-agree _ m a y e b k) (rw inside at h))
          λ z w' q. (q.0, Reached-after p q.1)
  | inr outside ↦ absurd (none-ne-some _ (rw outside at h))
]
