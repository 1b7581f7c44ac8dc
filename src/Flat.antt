-- ===== src/Flat.antt =====
-- What the virtual memory promises its client: a flat memory of ints, read and written by address.
use suse_vm.Prelude.{ℕ, ◌<◌, List, [], ◌∷◌, ℤ, update}
use suse_vm.Vmem.Sizes.{virtmem_size}

abbrev pub Memory : Type 0
Memory = ℕ → ℤ

-- `vmem_read(address)` and `vmem_write(address, value)` as requests
pub data Op : Type 0 where
  read : ℕ → Op
  write : ℕ → ℤ → Op

-- the values that the reads return, in order, and the memory at the end
unfoldable pub replies : List Op → Memory → List ℤ
replies [] m = []
replies (read a ∷ ops) m = m a ∷ replies ops m
replies (write a x ∷ ops) m = replies ops (update m a x)

unfoldable pub final : List Op → Memory → Memory
final [] m = m
final (read a ∷ ops) m = final ops m
final (write a x ∷ ops) m = final ops (update m a x)

abbrev pub InRange : List Op → Type 0
InRange [] = Unit {0}
InRange (read a ∷ ops) = (a < virtmem_size) × InRange ops
InRange (write a x ∷ ops) = (a < virtmem_size) × InRange ops
