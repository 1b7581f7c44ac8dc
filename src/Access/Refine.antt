-- ===== src/Access/Refine.antt =====
-- `vmem_read` and `vmem_write` of working/vmaccess.c implement the flat memory.
use mathlib.Core.Path.{ap₂}
use suse_vm.Prelude.{
  ℕ, ◌/◌, ◌%◌, ◌<◌, ◌≡◌, refl, ◌∙◌, true, ◌&&◌, ◌==◌, List, [], ◌∷◌, ℤ, update, inl, arith,
}
use suse_vm.Vmem.Sizes.{page_size, npages, virtmem_size}
use suse_vm.Vmem.State.{World}
use suse_vm.Vmem.Run.{Cmd, pure, ◌>>=◌, ◌>>◌, Returns, returns, bind, mono}
use suse_vm.Manager.Valid.{IsValid, view}
use suse_vm.Access.{Config, vmem_read, vmem_write}
use suse_vm.Access.Ready.{CanAttach, request_page-Ready}
use suse_vm.Access.Cells.{read_page-DidRead, write_page-DidWrite}
use suse_vm.Flat
use suse_vm.Flat.{Memory, Op, read, write, InRange}

pub page_of-lt : (a : ℕ) → a < virtmem_size → a / page_size < npages
page_of-lt a h = omega arith

pub offset-lt : (a : ℕ) → a % page_size < page_size
offset-lt a = omega arith

pub same_address :
    (a b : ℕ) → (b / page_size == a / page_size && b % page_size == a % page_size) ≡ (b == a)
same_address a b = ground arith

-- After an access: the invariant, the semaphore and the connection, and the virtual memory `m`.
pub record Left (w : World) (m : Memory) (w' : World) : Type 0 where
  pub valid : IsValid w'
  pub holds : (b : ℕ) → b < virtmem_size → view w' b ≡ m b
  pub same_sema : w'.vmem.adm.sema ≡ w.vmem.adm.sema
  pub is_attached : w'.attached ≡ true

module _ (c : Config) (a : ℕ) {w : World} (v : IsValid w) (can : CanAttach c.os w)
    (in_range : a < virtmem_size) where
  -- From a valid state with a client that is attached or can attach, a read at an address below 1024
  -- returns the int that the virtual memory holds there; the virtual memory, the invariant and the
  -- semaphore's value are kept.
  pub vmem_read-view : Returns (λ x w'. (x ≡ view w a) × Left w (view w) w') (vmem_read c a w)
  unfolding vmem_read view
  vmem_read-view = bind (request_page-Ready v (page_of-lt a in_range) c can) λ _ u r.
      mono (read_page-DidRead r.valid (page_of-lt a in_range) (offset-lt a) r.loaded) λ x w' d. (
        d.is_value ∙ r.same_view _ _ (page_of-lt a in_range) (offset-lt a),
        record {
          valid = d.valid;
          holds = λ b l.
              d.same_view _ _ (page_of-lt b l) (offset-lt b)
              ∙ r.same_view _ _ (page_of-lt b l) (offset-lt b);
          same_sema = d.same_sema ∙ r.same_sema;
          is_attached = d.same_client ∙ r.is_attached;
        },
      )

  -- From a valid state with a client that is attached or can attach, a write at an address below
  -- 1024 returns; the virtual memory changes at that address and nowhere else; the invariant and the
  -- semaphore's value are kept.
  pub vmem_write-view : (x : ℤ) → Returns (λ _. Left w (update (view w) a x)) (vmem_write c a x w)
  unfolding vmem_write view update
  vmem_write-view x = bind (request_page-Ready v (page_of-lt a in_range) c can) λ _ u r.
      mono (write_page-DidWrite r.valid (page_of-lt a in_range) (offset-lt a) r.loaded x) λ _ w' d.
        record {
          valid = d.valid;
          holds = λ b l.
              d.new_view _ _ (page_of-lt b l) (offset-lt b)
              ∙ rw (same_address a b, r.same_view _ _ (page_of-lt b l) (offset-lt b)) refl;
          same_sema = d.same_sema ∙ r.same_sema;
          is_attached = d.same_client ∙ r.is_attached;
        }

-- After a program of accesses: the invariant, the semaphore, and the virtual memory `m`.
pub record Reached (w : World) (m : Memory) (w' : World) : Type 0 where
  pub valid : IsValid w'
  pub holds : (b : ℕ) → b < virtmem_size → view w' b ≡ m b
  pub same_sema : w'.vmem.adm.sema ≡ w.vmem.adm.sema

pub Reached-after : {w u w' : World} {m n : Memory} → Left w m u → Reached u n w' → Reached w n w'
Reached-after l r = record {
  valid = r.valid;
  holds = r.holds;
  same_sema = r.same_sema ∙ l.same_sema;
}

pub update-agree :
    (m n : Memory) (a : ℕ) (x : ℤ)
    → ((b : ℕ) → b < virtmem_size → m b ≡ n b)
    → (b : ℕ) → b < virtmem_size
    → update m a x b ≡ update n a x b
unfolding update
update-agree m n a x e b l = ground (arith, e b l)

-- a client's accesses in order, with what its reads return
unfoldable pub run : Config → List Op → Cmd (List ℤ)
run c [] = pure []
run c (read a ∷ ops) = do x ← vmem_read c a; xs ← run c ops; pure (x ∷ xs)
run c (write a x ∷ ops) = do vmem_write c a x; run c ops

-- From a valid state with a client that is attached or can attach, any list of accesses in range
-- runs to its end, its reads return what a flat memory's reads return, the two memories agree at the
-- end, and invariant and semaphore value are kept.
pub run_refines :
    (c : Config) (ops : List Op) (m : Memory) {w : World}
    → IsValid w
    → CanAttach c.os w
    → ((b : ℕ) → b < virtmem_size → view w b ≡ m b)
    → InRange ops
    → Returns (λ xs w'. (xs ≡ Flat.replies ops m) × Reached w (Flat.final ops m) w') (run c ops w)
unfolding run Flat.replies Flat.final
run_refines c [] m v can e r = returns (refl, record { valid = v; holds = e; same_sema = refl })
run_refines c (read a ∷ ops) m v can e r = bind (vmem_read-view c a v can r.0) λ x u p.
    bind (run_refines c ops m p.1.valid (inl p.1.is_attached) (λ b l. p.1.holds b l ∙ e b l) r.1)
      λ xs w' q. returns (ap₂ ◌∷◌ (p.0 ∙ e a r.0) q.0, Reached-after p.1 q.1)
run_refines c (write a x ∷ ops) m v can e r = bind (vmem_write-view c a v can r.0 x) λ _ u p.
    mono
      (run_refines c ops (update m a x) p.valid (inl p.is_attached)
        (λ b l. p.holds b l ∙ update-agree _ m a x e b l) r.1)
      λ xs w' q. (q.0, Reached-after p q.1)
