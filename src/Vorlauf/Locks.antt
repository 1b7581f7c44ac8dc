-- ===== src/Vorlauf/Locks.antt =====
-- Which files of a device of Aufgabe4/vorlauf can be open at a time, and the module's usage count.
use suse_vm.Prelude.{
  ℕ, zero, suc, ◌+◌, ◌-◌, ◌≡◌, refl, if◌then◌else◌, ◌==◌, List, [], ◌∷◌, ◌++◌, length, Bool, true,
  false, arith,
}
use suse_vm.Translate.Device.{Params, UserSpace, down_trylock}
use suse_vm.Translate.Locks.{count_mode, count_mode-split}
use suse_vm.Vorlauf.Device.{
  TranslateDev, Outcome, done, ebusy, take_writer, take_reader, translate_open, translate_release,
  translate_write, translate_read,
}
use suse_vm.Vorlauf.Counted.{IsCounted}
use suse_vm.Vorlauf.Write.{translate_write-Counted}
use suse_vm.Vorlauf.Read.{translate_read-Counted}

-- the open files after a call of `translate_open`
abbrev pub files_after : Outcome → Bool → List Bool → List Bool
files_after done mode files = mode ∷ files
files_after _ mode files = files

-- Calls on a device in any order, from many processes: they lead from `d0`, with no file open, to
-- `d`, with this usage count and these open files, by their FMODE_WRITE.
pub data Reach (m : Params) (d0 : TranslateDev) : TranslateDev → ℕ → List Bool → Type 0 where
  none_open : Reach m d0 d0 0 []
  opens :
      {d : TranslateDev} {usage : ℕ} {files : List Bool}
      → (mode : Bool) → Reach m d0 d usage files
      → Reach m d0
          (translate_open mode usage d).device
          (translate_open mode usage d).usage
          (files_after (translate_open mode usage d).outcome mode files)
  releases :
      {d : TranslateDev} {usage : ℕ}
      → (before : List Bool) (mode : Bool) (after : List Bool)
      → Reach m d0 d usage (before ++ (mode ∷ after))
      → Reach m d0
          (translate_release mode usage d).1
          (translate_release mode usage d).0
          (before ++ after)
  writes :
      {d : TranslateDev} {usage : ℕ} {files : List Bool}
      → (u : UserSpace) (signalled : Bool) (count : ℕ) → Reach m d0 d usage files
      → Reach m d0 (translate_write m u signalled count d).1 usage files
  reads :
      {d : TranslateDev} {usage : ℕ} {files : List Bool}
      → (u : UserSpace) (signalled : Bool) (count : ℕ) → Reach m d0 d usage files
      → Reach m d0 (translate_read m u signalled count d).2 usage files

-- The semaphores count the ring, each lock and its files make up one place, and the module is used
-- once for each file.
pub record Guarded (m : Params) (d : TranslateDev) (usage : ℕ) (files : List Bool) : Type 0 where
  pub counted : IsCounted m d
  pub writers : d.shared.writer_open_lock + count_mode true files ≡ 1
  pub readers : d.shared.reader_open_lock + count_mode false files ≡ 1
  pub used : usage ≡ length files

length-split :
    (before after : List Bool) (f : Bool)
    → length (before ++ (f ∷ after)) ≡ length (before ++ after) + 1
unfolding length
length-split [] after f = refl
length-split (g ∷ before) after f = rw (length-split before after f) refl

module _ {m : Params} (d : TranslateDev) (c : IsCounted m d) where
  same-IsCounted :
      (w r : ℕ)
      → IsCounted m
          (record d { shared = record d.shared { writer_open_lock = w; reader_open_lock = r } })
  same-IsCounted w r = record {
    ring = record {
      items_le = c.ring.items_le;
      read_lt = c.ring.read_lt;
      write_lt = c.ring.write_lt;
      behind = c.ring.behind;
    };
    filled = c.filled;
    free = c.free;
  }

module _ {m : Params} {d : TranslateDev} {usage : ℕ} {files : List Bool}
    (g : Guarded m d usage files) where
  Guarded-writer :
      (n : ℕ)
      → n ≡ d.shared.writer_open_lock
      → Guarded m
          (take_writer usage d (down_trylock n)).device
          (take_writer usage d (down_trylock n)).usage
          (files_after (take_writer usage d (down_trylock n)).outcome true files)
        × ((take_writer usage d (down_trylock n)).outcome
            ≡ (if count_mode true files == 0 then done else ebusy))
  unfolding count_mode length
  Guarded-writer zero e =
      let w = g.writers in
      let one : count_mode true files ≡ 1 = omega arith in
      let same : usage + 1 - 1 ≡ usage = omega arith in (rw same g, rw one refl)
  Guarded-writer (suc n) e =
      let w = g.writers in
      let r = g.readers in
      let u = g.used in
      let none : count_mode true files ≡ 0 = omega arith in
      (
        record {
          counted = same-IsCounted d g.counted n d.shared.reader_open_lock;
          writers = omega arith;
          readers = omega arith;
          used = omega arith;
        },
        rw none refl,
      )

  Guarded-reader :
      (n : ℕ)
      → n ≡ d.shared.reader_open_lock
      → Guarded m
          (take_reader usage d (down_trylock n)).device
          (take_reader usage d (down_trylock n)).usage
          (files_after (take_reader usage d (down_trylock n)).outcome false files)
        × ((take_reader usage d (down_trylock n)).outcome
            ≡ (if count_mode false files == 0 then done else ebusy))
  unfolding count_mode length
  Guarded-reader zero e =
      let w = g.readers in
      let one : count_mode false files ≡ 1 = omega arith in
      let same : usage + 1 - 1 ≡ usage = omega arith in (rw same g, rw one refl)
  Guarded-reader (suc n) e =
      let w = g.writers in
      let r = g.readers in
      let u = g.used in
      let none : count_mode false files ≡ 0 = omega arith in
      (
        record {
          counted = same-IsCounted d g.counted d.shared.writer_open_lock n;
          writers = omega arith;
          readers = omega arith;
          used = omega arith;
        },
        rw none refl,
      )

  Guarded-open :
      (mode : Bool)
      → Guarded m
          (translate_open mode usage d).device
          (translate_open mode usage d).usage
          (files_after (translate_open mode usage d).outcome mode files)
        × ((translate_open mode usage d).outcome
            ≡ (if count_mode mode files == 0 then done else ebusy))
  unfolding translate_open
  Guarded-open true = Guarded-writer d.shared.writer_open_lock refl
  Guarded-open false = Guarded-reader d.shared.reader_open_lock refl

Guarded-release :
    {m : Params} {d : TranslateDev} {usage : ℕ} (before : List Bool) (mode : Bool)
    (after : List Bool)
    → Guarded m d usage (before ++ (mode ∷ after))
    → Guarded m
        (translate_release mode usage d).1
        (translate_release mode usage d).0
        (before ++ after)
unfolding translate_release
Guarded-release {d = d} before true after g =
    let w = g.writers in
    let r = g.readers in
    let u = g.used in
    let a = count_mode-split true true before after in
    let b = count_mode-split false true before after in
    let l = length-split before after true in
    record {
      counted =
          same-IsCounted d g.counted (d.shared.writer_open_lock + 1) d.shared.reader_open_lock;
      writers = omega arith;
      readers = omega arith;
      used = omega arith;
    }
Guarded-release {d = d} before false after g =
    let w = g.writers in
    let r = g.readers in
    let u = g.used in
    let a = count_mode-split true false before after in
    let b = count_mode-split false false before after in
    let l = length-split before after false in
    record {
      counted =
          same-IsCounted d g.counted d.shared.writer_open_lock (d.shared.reader_open_lock + 1);
      writers = omega arith;
      readers = omega arith;
      used = omega arith;
    }

Guarded-same :
    {m : Params} {d d' : TranslateDev} {usage : ℕ} {files : List Bool}
    → IsCounted m d'
    → d'.shared.writer_open_lock ≡ d.shared.writer_open_lock
    → d'.shared.reader_open_lock ≡ d.shared.reader_open_lock
    → Guarded m d usage files
    → Guarded m d' usage files
Guarded-same c w r g =
    let gw = g.writers in
    let gr = g.readers in
    record { counted = c; writers = omega arith; readers = omega arith; used = g.used }

module _ {m : Params} {d0 : TranslateDev} (g0 : Guarded m d0 0 []) where
  Reach-Guarded :
      {d : TranslateDev} {usage : ℕ} {files : List Bool}
      → Reach m d0 d usage files
      → Guarded m d usage files
  Reach-Guarded none_open = g0
  Reach-Guarded (opens mode r) = (Guarded-open (Reach-Guarded r) mode).0
  Reach-Guarded (releases before mode after r) = Guarded-release before mode after (Reach-Guarded r)
  Reach-Guarded (writes {d} u signalled count r) =
      let g = Reach-Guarded r in
      let a = translate_write-Counted m u signalled count d g.counted in
      Guarded-same a.counted a.same_writer a.same_reader g
  Reach-Guarded (reads {d} u signalled count r) =
      let g = Reach-Guarded r in
      let a = translate_read-Counted m u signalled count d g.counted in
      Guarded-same a.counted a.same_writer a.same_reader g

-- From a device with no file open, free locks and semaphores that count its sound ring, by calls in
-- any order: the semaphores count the ring, the usage count of the module is the number of open
-- files, and to open a file succeeds if no file of that mode is open, and otherwise is refused with
-- -EBUSY.
pub translate_open-Guarded :
    (m : Params) (d0 d : TranslateDev) (usage : ℕ) (files : List Bool) (mode : Bool)
    → Guarded m d0 0 []
    → Reach m d0 d usage files
    → IsCounted m d
      × (usage ≡ length files)
      × ((translate_open mode usage d).outcome
          ≡ (if count_mode mode files == 0 then done else ebusy))
translate_open-Guarded m d0 d usage files mode g0 r =
    let g = Reach-Guarded g0 r in (g.counted, g.used, (Guarded-open g mode).1)
