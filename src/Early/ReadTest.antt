-- ===== src/Early/ReadTest.antt =====
-- The test of the memory in the `main` of Aufgabe3/vmappl.c, under a manager that serves each fault before
-- the client looks at the semaphore.
use suse_vm.Prelude.{
  ℕ, zero, suc, ◌+◌, ◌*◌, ◌/◌, ◌%◌, ◌<◌, ◌≤◌, ◌≡◌, refl, ◌∙◌, true, ◌==◌, pos, Bool-cases, inl, inr,
  arith,
}
use mathlib.Core.Path.{subst}
use suse_vm.Vmem.Sizes.{page_size}
use suse_vm.Vmem.State.{World}
use suse_vm.Vmem.Run.{Returns, returns, bind, mono}
use suse_vm.Access.{Config}
use suse_vm.Access.Ready.{CanAttach}
use suse_vm.Early.Access.{request_page, vmem_read, vmem_write}
use suse_vm.Early.Appl.{write_and_read, test_from, is_int}
use suse_vm.Early.Resident.{Loaded}
use suse_vm.Early.Requests.{Granted, noted-Granted, request_page-here, request_page-next}
use suse_vm.Early.Stored.{cell_of, write_page-Stored, read_page-Stored}

-- Before address `i` the pages up to it are loaded, and no other.
pub record Tested (c : Config) (i : ℕ) (w : World) : Type 0 where
  pub pages : ℕ
  pub enough : i ≤ pages * page_size
  pub no_more : pages * page_size < i + page_size
  pub loaded : Loaded pages w
  pub can : CanAttach c.os w

-- The page of `i` is loaded too.
record Open (i : ℕ) (w : World) : Type 0 where
  pages : ℕ
  inside : i / page_size < pages
  no_more : pages * page_size < suc i + page_size
  granted : Granted pages w

-- The cell of address `i` holds `i`.
abbrev Holds : ℕ → World → Type 0
Holds i w = w.vmem.cells (cell_of (i / page_size) (i % page_size)) ≡ pos i

-- the first address of the sixteenth page
abbrev pub limit : ℕ
limit = 120

module _ (c : Config) {i : ℕ} {w : World} (t : Tested c i w) where
  request_page-Open : i < limit → Returns (λ _. Open i) (request_page c true (i / page_size) w)
  request_page-Open h =
      let enough = t.enough in
      let no_more = t.no_more in
      elim (Bool-cases (i == t.pages * page_size)) [
        | inl new ↦
            let e : t.pages ≡ i / page_size = ground arith in
            subst (λ p. Returns (λ _. Open i) (request_page c true p w)) e
              (mono (request_page-next c t.loaded t.can (omega arith)) λ _ w' g. record {
                pages = suc t.pages;
                inside = omega arith;
                no_more = ground arith;
                granted = g;
              })
        | inr old ↦
            let l : i / page_size < t.pages = ground arith in
            rw (request_page-here c t.loaded t.can (i / page_size) l (omega arith)) (
              returns (record {
                pages = t.pages;
                inside = l;
                no_more = omega arith;
                granted = noted-Granted (i / page_size) t.loaded;
              }))
      ]

  vmem_write-Open :
      i < limit → Returns (λ _ w'. Open i w' × Holds i w') (vmem_write c true i (pos i) w)
  unfolding vmem_write
  vmem_write-Open h = bind (request_page-Open h) λ _ u s.
      let no_more = s.no_more in
      let o_lt : i % page_size < page_size = omega arith in
      mono (write_page-Stored s.granted (omega arith) s.inside o_lt (pos i)) λ _ v q.
        (record { pages = s.pages; inside = s.inside; no_more = no_more; granted = q.0 }, q.1)

  -- Each write below the limit can be read back, and then one address more was tested.
  pub write_and_read-Tested :
      i < limit → Returns (λ x w'. (x ≡ pos i) × Tested c (suc i) w') (write_and_read c true i w)
  unfolding write_and_read vmem_read
  write_and_read-Tested h = bind (vmem_write-Open h) λ _ v q.
      let s = q.0 in
      let no_more = s.no_more in
      let inside = s.inside in
      let g = s.granted in
      let p : ℕ = i / page_size in
      rw (request_page-here c g.loaded (inl g.attached) p inside (omega arith)) (
        mono (read_page-Stored (noted-Granted p g.loaded) (omega arith) inside (omega arith))
          λ x w' r. (
            r.1 ∙ q.1,
            record {
              pages = s.pages;
              enough = omega arith;
              no_more = no_more;
              loaded = r.0.loaded;
              can = inl r.0.attached;
            },
          ))

is_int_self : (i : ℕ) → is_int i (pos i) ≡ true
is_int_self i = ground arith

-- The test of addresses below the limit succeeds.
pub test_from-succeeds :
    (c : Config) (left i : ℕ) {w : World}
    → left + i ≤ limit
    → Tested c i w
    → Returns (λ x w'. (x ≡ true) × Tested c (left + i) w') (test_from c true left i w)
unfolding test_from
test_from-succeeds c zero i {w} h t =
    let e : i ≡ 0 + i = omega arith in returns (refl, subst (λ n. Tested c n w) e t)
test_from-succeeds c (suc left) i {w} h t = bind (write_and_read-Tested c t (omega arith)) λ x v q.
    let e : i + 1 ≡ suc i = omega arith in
    let f : left + suc i ≡ suc left + i = omega arith in
    rw (q.0, is_int_self i, e)
      (mono (test_from-succeeds c left (suc i) (omega arith) q.1)
        λ y w' r. (r.0, subst (λ n. Tested c n w') f r.1))
