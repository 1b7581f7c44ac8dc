-- ===== src/Probe/Picked.antt =====
-- The frame that the algorithms of probe/mmanage.c choose.
use suse_vm.Prelude.{
  ℕ, zero, suc, ◌+◌, ◌%◌, ◌<◌, ◌≡◌, refl, ap, lt→ltb, ℤ, pos, Bool-cases, inl, inr, arith,
}
use suse_vm.Vmem.Sizes.{nframes}
use suse_vm.Vmem.Flags.{usedbit1, has}
use suse_vm.Vmem.State
use suse_vm.Vmem.Run.{Run, Returns, returns, bind, mono}
use suse_vm.Vmem.Cells
use suse_vm.Manager.Replace
use suse_vm.Manager.Replace.{clock_fuel}
use suse_vm.Manager.Valid
use suse_vm.Manager.Valid.{Reflagged-refl}
use suse_vm.Manager.Sweep
use suse_vm.Manager.Sweep.{clock_loop-sweep, used_bits-lt}
use suse_vm.Manager.Clock.{after_round, after_round-IsValid, IsValid-rotated, sweep-Chosen}
use suse_vm.Probe.State.{Abi, World, reattach, on_base}
use suse_vm.Probe.Lfu.{lfu-IsLeast}
use suse_vm.Probe.Cells.{based_on, entry_at-ok, put_entry-ok}
use suse_vm.Probe.Replace.{
  Algorithm, lfu, fifo, clock, next_idx, advance_idx, find_remove_fifo, clock_loop,
  find_remove_clock, use_algorithm,
}

-- A frame was chosen; beyond used bits and the next index nothing has changed.
abbrev pub Picked : World → ℤ → World → Type 0
Picked w z w' = Sweep.Chosen w.base z w'.base × (w' ≡ based_on w w'.base)

pub next_idx-mod : (n : ℕ) → n < nframes → next_idx n ≡ (n + 1) % nframes
next_idx-mod n h = ground arith

reattach-Returns :
    {A : Type 0} {P : A → State.World → Type 0} {r : Run State.World A} (w : World)
    → Returns P r
    → Returns (λ a w'. P a w'.base × (w' ≡ based_on w w'.base)) (reattach w r)
reattach-Returns w (returns p) = returns (p, refl)

pub unmoved : {b : State.World} → Valid.IsValid b → (f : ℕ) → f < nframes → Sweep.Chosen b (pos f) b
unmoved {b} v f lt = record {
  frame = f;
  is_frame = refl;
  frame_lt = lt;
  es = b.vmem.pt.entries;
  next = b.vmem.adm.next_alloc_idx;
  state = refl;
  same = Reflagged-refl b.vmem.pt.entries;
  valid = v;
}

advanced :
    {b b' : State.World} {z : ℤ}
    → Sweep.Chosen b z b'
    → Sweep.Chosen b z (
        Cells.with_adm b'
          (record b'.vmem.adm { next_alloc_idx = next_idx b'.vmem.adm.next_alloc_idx }))
advanced {b} {b'} c = record {
  frame = c.frame;
  is_frame = c.is_frame;
  frame_lt = c.frame_lt;
  es = c.es;
  next = next_idx b'.vmem.adm.next_alloc_idx;
  state =
      ap
        (λ (u : State.World).
          Sweep.rotated u u.vmem.pt.entries (next_idx b'.vmem.adm.next_alloc_idx))
        c.state;
  same = c.same;
  valid =
      IsValid-rotated b'.vmem.pt.entries _ c.valid
        (rw (next_idx-mod b'.vmem.adm.next_alloc_idx c.valid.next_lt) (omega arith))
        c.valid.coherent;
}

-- The loop of `find_remove_clock` does on a valid state what that of working/mmanage.c does.
clock_loop_same :
    (abi : Abi) (k : ℕ) (w : World)
    → Valid.IsValid w.base
    → w.base.vmem.adm.size ≡ nframes
    → clock_loop abi k w ≡ on_base (Replace.clock_loop k) w
unfolding clock_loop advance_idx Replace.clock_loop Replace.rotate_alloc_idx
clock_loop_same abi zero w v full = refl
clock_loop_same abi (suc k) w v full =
    let b = w.base in
    let n : ℕ = b.vmem.adm.next_alloc_idx in
    let (p, h) = v.coherent.filled n (rw full (lt→ltb n nframes v.next_lt)) in
    rw
      (
        Cells.framepage_at-ok n b v.next_lt,
        h.page_of,
        entry_at-ok abi p w h.page_lt,
        Cells.entry_at-ok p b h.page_lt,
      )
      (elim (Bool-cases (has (b.vmem.pt.entries p).flags usedbit1)) [
        | inl hit ↦
            rw
              (
                hit,
                put_entry-ok abi p _ w h.page_lt,
                Cells.put_entry-ok p _ b h.page_lt,
                next_idx-mod n v.next_lt,
              )
              (clock_loop_same abi k (based_on w (after_round (λ _. usedbit1) b p))
                (after_round-IsValid (λ _. usedbit1) (λ _. inl refl) (λ fl e. e) v h full hit) full)
        | inr miss ↦ rw miss refl
      ])

clock-Picked :
    (abi : Abi) (w : World)
    → Valid.IsValid w.base
    → w.base.vmem.adm.size ≡ nframes
    → Returns (Picked w) (find_remove_clock abi w)
unfolding find_remove_clock advance_idx
clock-Picked abi w v full =
    rw (clock_loop_same abi clock_fuel w v full, clock_loop-sweep clock_fuel)
      (bind
        (reattach-Returns w (
          sweep-Chosen (λ _. usedbit1) (λ _. inl refl) (λ fl e. e) clock_fuel w.base v full
            (used_bits-lt w.base.vmem.pt.entries w.base.vmem.pt.framepage)))
        (λ z w' c. returns (
          advanced c.0,
          ap
              (λ (u : World). based_on u (
                Cells.with_adm w'.base (record w'.base.vmem.adm {
                  next_alloc_idx = next_idx w'.base.vmem.adm.next_alloc_idx;
                })))
              c.1,
        )))

-- With all frames filled, from a valid state, each algorithm ends, the clock within its fuel, and
-- returns a frame below 16; only used bits, which are cleared, and the next index change.
pub use_algorithm-Picked :
    (abi : Abi) (alg : Algorithm) (w : World)
    → Valid.IsValid w.base
    → w.base.vmem.adm.size ≡ nframes
    → Returns (Picked w) (use_algorithm abi alg w)
unfolding use_algorithm find_remove_fifo advance_idx
use_algorithm-Picked abi lfu w v full =
    mono (lfu-IsLeast abi v full) λ z w' c. rw (c.0, c.2) (unmoved v c.1 c.3.frame_lt, refl)
use_algorithm-Picked abi fifo w v full =
    returns (advanced (unmoved v w.base.vmem.adm.next_alloc_idx v.next_lt), refl)
use_algorithm-Picked abi clock w v full = clock-Picked abi w v full
