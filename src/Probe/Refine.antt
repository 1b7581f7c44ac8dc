-- ===== src/Probe/Refine.antt =====
-- `vmem_read` and `vmem_write` of probe/vmaccess.c implement the flat memory.
use mathlib.Core.Path.{ap₂}
use suse_vm.Prelude.{
  ℕ, ◌+◌, ◌/◌, ◌%◌, ◌^◌, ◌<◌, ◌≡◌, refl, ◌∙◌, ap, true, List, [], ◌∷◌, ℤ, update, inl,
}
use suse_vm.Vmem.Sizes.{page_size, virtmem_size}
use suse_vm.Vmem.Run.{pure, ◌>>=◌, ◌>>◌, Returns, returns, bind, mono}
use suse_vm.Manager.Valid.{view}
use suse_vm.Manager.Paging
use suse_vm.Access.Ready.{CanAttach}
use suse_vm.Access.Refine.{update-agree, page_of-lt, offset-lt, same_address}
use suse_vm.Flat
use suse_vm.Flat.{Memory, Op, read, write, InRange}
use suse_vm.Probe.State.{World, Cmd}
use suse_vm.Probe.Valid.{IsValid}
use suse_vm.Probe.Access.{Config, vmem_read, vmem_write}
use suse_vm.Probe.Ready.{IsValid-changed, request_page-Ready}
use suse_vm.Probe.Touch.{counted_read, read_page-DidRead, write_page-DidWrite}

-- After an access: the invariant, the semaphore and the connection, the virtual memory `m`, and the
-- counts of the entries.
pub record Left (w : World) (m : Memory) (n : ℕ → ℕ) (w' : World) : Type 0 where
  pub valid : IsValid w'
  pub holds : (b : ℕ) → b < virtmem_size → view w'.base b ≡ m b
  pub same_sema : w'.base.vmem.adm.sema ≡ w.base.vmem.adm.sema
  pub is_attached : w'.base.attached ≡ true
  pub counted : w'.counts ≡ n

module _ (c : Config) (a : ℕ) {w : World} (v : IsValid w) (up : 0 < w.base.vmem.adm.sema)
    (can : CanAttach c.os w.base) (in_range : a < virtmem_size) where
  -- From a valid state with the semaphore up and a client that is attached or can attach, a read at an
  -- address below 1024 returns the int that the virtual memory holds there, and counts one read for
  -- its page; the virtual memory, the invariant and the semaphore's value are kept.
  pub vmem_read-counted :
      Returns
        (λ x w'. (x ≡ view w.base a) × Left w (view w.base) (counted_read w (a / page_size)) w')
        (vmem_read c a w)
  unfolding vmem_read view Paging.sem_post
  vmem_read-counted = bind (request_page-Ready v (page_of-lt a in_range) up c can) λ _ u r.
      bind (read_page-DidRead r.valid (page_of-lt a in_range) (offset-lt a) r.loaded c) λ x w' d.
        returns (
          d.is_value ∙ r.same_view _ _ (page_of-lt a in_range) (offset-lt a),
          record {
            valid =
                IsValid-changed w'.base.vmem.adm.req_pageno (w'.base.vmem.adm.sema + 1)
                  w'.base.attached w'.counts d.valid d.valid.shared.coherent d.valid.plain;
            holds = λ b l.
                d.same_view _ _ (page_of-lt b l) (offset-lt b)
                ∙ r.same_view _ _ (page_of-lt b l) (offset-lt b);
            same_sema = ap (λ n. n + 1) d.same_sema ∙ r.taken;
            is_attached = d.same_client ∙ r.is_attached;
            counted =
                d.counted
                ∙ ap (λ n. update n (a / page_size) ((n (a / page_size) + 1) % 2 ^ 32))
                    r.same_counts;
          },
        )

  -- From a valid state with the semaphore up and a client that is attached or can attach, a write at
  -- an address below 1024 returns; the virtual memory changes at that address and nowhere else; the
  -- invariant, the semaphore's value and the counts are kept.
  pub vmem_write-counted :
      (x : ℤ) → Returns (λ _. Left w (update (view w.base) a x) w.counts) (vmem_write c a x w)
  unfolding vmem_write view update Paging.sem_post
  vmem_write-counted x = bind (request_page-Ready v (page_of-lt a in_range) up c can) λ _ u r.
      bind (write_page-DidWrite r.valid (page_of-lt a in_range) (offset-lt a) r.loaded c x)
        λ _ w' d. returns (record {
          valid =
              IsValid-changed w'.base.vmem.adm.req_pageno (w'.base.vmem.adm.sema + 1)
                w'.base.attached w'.counts d.valid d.valid.shared.coherent d.valid.plain;
          holds = λ b l.
              d.new_view _ _ (page_of-lt b l) (offset-lt b)
              ∙ rw (same_address a b, r.same_view _ _ (page_of-lt b l) (offset-lt b)) refl;
          same_sema = ap (λ n. n + 1) d.same_sema ∙ r.taken;
          is_attached = d.same_client ∙ r.is_attached;
          counted = d.same_counts ∙ r.same_counts;
        })

-- a client's accesses in order, with what its reads return
unfoldable pub run : Config → List Op → Cmd (List ℤ)
run c [] = pure []
run c (read a ∷ ops) = do x ← vmem_read c a; xs ← run c ops; pure (x ∷ xs)
run c (write a x ∷ ops) = do vmem_write c a x; run c ops

-- how often a list of accesses reads from page `p`, on top of `n`, as the bit pattern of an int
unfoldable pub reads_of : List Op → (ℕ → ℕ) → ℕ → ℕ
reads_of [] n = n
reads_of (read a ∷ ops) n =
    reads_of ops (update n (a / page_size) ((n (a / page_size) + 1) % 2 ^ 32))
reads_of (write a x ∷ ops) n = reads_of ops n

-- From a valid state with the semaphore up and a client that is attached or can attach, any list of
-- accesses below 1024 runs to its end under each algorithm; its reads return what a flat memory's
-- reads return, the two memories agree at the end, and each page's count has gone up by the number of
-- reads from it; the invariant and the semaphore's value are kept.
pub run_counts_reads :
    (c : Config) (ops : List Op) (m : Memory) {w : World}
    → IsValid w
    → 0 < w.base.vmem.adm.sema
    → CanAttach c.os w.base
    → ((b : ℕ) → b < virtmem_size → view w.base b ≡ m b)
    → InRange ops
    → Returns
        (λ xs w'.
          (xs ≡ Flat.replies ops m)
          × IsValid w'
          × ((b : ℕ) → b < virtmem_size → view w'.base b ≡ Flat.final ops m b)
          × (w'.base.vmem.adm.sema ≡ w.base.vmem.adm.sema)
          × (w'.counts ≡ reads_of ops w.counts))
        (run c ops w)
unfolding run Flat.replies Flat.final reads_of
run_counts_reads c [] m v up can e r = returns (refl, v, e, refl, refl)
run_counts_reads c (read a ∷ ops) m v up can e r =
    bind (vmem_read-counted c a v up can r.0) λ x u p.
      let l = p.1 in
      bind
        (run_counts_reads c ops m l.valid (rw l.same_sema up) (inl l.is_attached)
          (λ b in_range. l.holds b in_range ∙ e b in_range) r.1)
        λ xs w' q. returns (
          ap₂ ◌∷◌ (p.0 ∙ e a r.0) q.0,
          q.1,
          q.2,
          q.3 ∙ l.same_sema,
          q.4 ∙ ap (reads_of ops) l.counted,
        )
run_counts_reads c (write a x ∷ ops) m v up can e r =
    bind (vmem_write-counted c a v up can r.0 x) λ _ u l.
      mono
        (run_counts_reads c ops (update m a x) l.valid (rw l.same_sema up) (inl l.is_attached)
          (λ b in_range. l.holds b in_range ∙ update-agree _ m a x e b in_range) r.1)
        λ xs w' q. (q.0, q.1, q.2, q.3 ∙ l.same_sema, q.4 ∙ ap (reads_of ops) l.counted)
