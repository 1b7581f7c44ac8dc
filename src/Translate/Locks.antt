-- ===== src/Translate/Locks.antt =====
-- The locks of Aufgabe4_final/translate.c: which files can be open at a time.
use mathlib.Core.Path.{Path, subst}
use mathlib.Core.Bool.{false≢true}
use suse_vm.Prelude.{
  ℕ, zero, suc, ◌+◌, ◌≤◌, ◌≡◌, refl, sym, ◌∙◌, ap, if◌then◌else◌, ◌==◌, List, [], ◌∷◌, ◌++◌, Bool,
  true, false, same_bool, arith,
}
use suse_vm.Translate.RoundTrip.{IsTable}
use suse_vm.Translate.Device.{
  Params, TranslateDev, UserSpace, Outcome, opened, ebusy, down_trylock, with_writer, with_reader,
  translate_open, translate_close, translate_write, translate_read,
}
use suse_vm.Translate.Queue.{IsRing}
use suse_vm.Translate.Write.{translate_write-Appended}
use suse_vm.Translate.Read.{translate_read-Taken}

-- how many of the open files have this mode, by their FMODE_WRITE
unfoldable pub count_mode : Bool → List Bool → ℕ
count_mode mode [] = 0
count_mode mode (f ∷ files) = (if same_bool mode f then 1 else 0) + count_mode mode files

-- The calls on a device in any order, from many processes: `Reach d0 d files` says that they lead
-- from `d0`, with no file open, to `d`, with these files open. Closing may hit any of them.
pub data Reach (m : Params) (d0 : TranslateDev) : TranslateDev → List Bool → Type 0 where
  none_open : Reach m d0 d0 []
  open_ok :
      {d : TranslateDev} {files : List Bool}
      → (mode : Bool) (d' : TranslateDev) → Reach m d0 d files
      → translate_open mode d ≡ (opened, d')
      → Reach m d0 d' (mode ∷ files)
  open_busy :
      {d : TranslateDev} {files : List Bool}
      → (mode : Bool) (d' : TranslateDev) → Reach m d0 d files
      → translate_open mode d ≡ (ebusy, d')
      → Reach m d0 d' files
  close :
      {d : TranslateDev}
      → (before : List Bool) (mode : Bool) (after : List Bool)
      → Reach m d0 d (before ++ (mode ∷ after))
      → Reach m d0 (translate_close mode d) (before ++ after)
  write :
      {d : TranslateDev} {files : List Bool}
      → (u : UserSpace) (count : ℕ) → Reach m d0 d files
      → Reach m d0 (translate_write m u count d).1 files
  read :
      {d : TranslateDev} {files : List Bool}
      → (u : UserSpace) (count : ℕ) → Reach m d0 d files
      → Reach m d0 (translate_read m u count d).2 files

-- The buffer is sound, and each lock and the files that it admitted make up its one place.
pub record Guarded (m : Params) (d : TranslateDev) (files : List Bool) : Type 0 where
  pub ring : IsRing m d
  pub writers : d.writer_open_lock + count_mode true files ≡ 1
  pub readers : d.reader_open_lock + count_mode false files ≡ 1

pub count_mode-split :
    (mode f : Bool) (before after : List Bool)
    → count_mode mode (before ++ (f ∷ after))
      ≡ (if same_bool mode f then 1 else 0) + count_mode mode (before ++ after)
unfolding count_mode
count_mode-split mode f [] after = refl
count_mode-split mode f (g ∷ before) after = rw (count_mode-split mode f before after) (omega arith)

is_opened : Outcome → Bool
is_opened opened = true
is_opened _ = false

ebusy≢opened : {d d' : TranslateDev} → Path (Outcome × TranslateDev) (ebusy, d) (opened, d') → ⊥
unfolding is_opened
ebusy≢opened e = false≢true (ap (λ (r : Outcome × TranslateDev). is_opened r.0) e)

writer-outcome :
    (d : TranslateDev) (n c : ℕ)
    → n + c ≡ 1
    → (with_writer d (down_trylock n)).0 ≡ (if c == 0 then opened else ebusy)
writer-outcome d zero c h = let e : c ≡ 1 = omega arith in rw e refl
writer-outcome d (suc n) c h = let e : c ≡ 0 = omega arith in rw e refl

reader-outcome :
    (d : TranslateDev) (n c : ℕ)
    → n + c ≡ 1
    → (with_reader d (down_trylock n)).0 ≡ (if c == 0 then opened else ebusy)
reader-outcome d zero c h = let e : c ≡ 1 = omega arith in rw e refl
reader-outcome d (suc n) c h = let e : c ≡ 0 = omega arith in rw e refl

module _ {m : Params} (d : TranslateDev) (i : IsRing m d) where
  same-IsRing : (w r : ℕ) → IsRing m (record d { writer_open_lock = w; reader_open_lock = r })
  same-IsRing w r = record {
    items_le = i.items_le;
    read_lt = i.read_lt;
    write_lt = i.write_lt;
    behind = i.behind;
  }

module _ {m : Params} (d d' : TranslateDev) {files : List Bool} (i : IsRing m d) where
  Guarded-writer :
      (n : ℕ)
      → n + count_mode true files ≡ 1
      → d.reader_open_lock + count_mode false files ≡ 1
      → with_writer d (down_trylock n) ≡ (opened, d')
      → Guarded m d' (true ∷ files)
  unfolding count_mode
  Guarded-writer zero w r e = absurd (ebusy≢opened e)
  Guarded-writer (suc n) w r e =
      subst (λ u. Guarded m u (true ∷ files)) (ap (λ (u : Outcome × TranslateDev). u.1) e)
        (record {
          ring = same-IsRing d i n d.reader_open_lock;
          writers = omega arith;
          readers = omega arith;
        })

  Guarded-reader :
      (n : ℕ)
      → n + count_mode false files ≡ 1
      → d.writer_open_lock + count_mode true files ≡ 1
      → with_reader d (down_trylock n) ≡ (opened, d')
      → Guarded m d' (false ∷ files)
  unfolding count_mode
  Guarded-reader zero w r e = absurd (ebusy≢opened e)
  Guarded-reader (suc n) w r e =
      subst (λ u. Guarded m u (false ∷ files)) (ap (λ (u : Outcome × TranslateDev). u.1) e)
        (record {
          ring = same-IsRing d i d.writer_open_lock n;
          writers = omega arith;
          readers = omega arith;
        })

module _ (d d' : TranslateDev) where
  busy_writer : (n : ℕ) → with_writer d (down_trylock n) ≡ (ebusy, d') → d ≡ d'
  busy_writer zero e = ap (λ (u : Outcome × TranslateDev). u.1) e
  busy_writer (suc n) e = absurd (ebusy≢opened (sym e))

  busy_reader : (n : ℕ) → with_reader d (down_trylock n) ≡ (ebusy, d') → d ≡ d'
  busy_reader zero e = ap (λ (u : Outcome × TranslateDev). u.1) e
  busy_reader (suc n) e = absurd (ebusy≢opened (sym e))

module _ {m : Params} {d : TranslateDev} {files : List Bool} (g : Guarded m d files) where
  open_outcome :
      (mode : Bool)
      → (translate_open mode d).0 ≡ (if count_mode mode files == 0 then opened else ebusy)
  unfolding translate_open
  open_outcome true = writer-outcome d d.writer_open_lock (count_mode true files) g.writers
  open_outcome false = reader-outcome d d.reader_open_lock (count_mode false files) g.readers

  Guarded-open :
      (mode : Bool) (d' : TranslateDev)
      → translate_open mode d ≡ (opened, d')
      → Guarded m d' (mode ∷ files)
  unfolding translate_open
  Guarded-open true d' e = Guarded-writer d d' g.ring d.writer_open_lock g.writers g.readers e
  Guarded-open false d' e = Guarded-reader d d' g.ring d.reader_open_lock g.readers g.writers e

  Guarded-busy :
      (mode : Bool) (d' : TranslateDev) → translate_open mode d ≡ (ebusy, d') → Guarded m d' files
  unfolding translate_open
  Guarded-busy true d' e = subst (λ u. Guarded m u files) (busy_writer d d' d.writer_open_lock e) g
  Guarded-busy false d' e = subst (λ u. Guarded m u files) (busy_reader d d' d.reader_open_lock e) g

Guarded-close :
    {m : Params} {d : TranslateDev} (before : List Bool) (mode : Bool) (after : List Bool)
    → Guarded m d (before ++ (mode ∷ after))
    → Guarded m (translate_close mode d) (before ++ after)
unfolding translate_close
Guarded-close {d = d} before true after g =
    let w = g.writers in
    let r = g.readers in
    let a = count_mode-split true true before after in
    let b = count_mode-split false true before after in
    record {
      ring = same-IsRing d g.ring (d.writer_open_lock + 1) d.reader_open_lock;
      writers = omega arith;
      readers = omega arith;
    }
Guarded-close {d = d} before false after g =
    let w = g.writers in
    let r = g.readers in
    let a = count_mode-split true false before after in
    let b = count_mode-split false false before after in
    record {
      ring = same-IsRing d g.ring d.writer_open_lock (d.reader_open_lock + 1);
      writers = omega arith;
      readers = omega arith;
    }

module _ {m : Params} (t : IsTable m.translate_subst) {d0 : TranslateDev}
    (g0 : Guarded m d0 []) where
  Reach-Guarded : {d : TranslateDev} {files : List Bool} → Reach m d0 d files → Guarded m d files
  Reach-Guarded none_open = g0
  Reach-Guarded (open_ok mode d' r e) = Guarded-open (Reach-Guarded r) mode d' e
  Reach-Guarded (open_busy mode d' r e) = Guarded-busy (Reach-Guarded r) mode d' e
  Reach-Guarded (close before mode after r) = Guarded-close before mode after (Reach-Guarded r)
  Reach-Guarded (write {d} {files} u count r) =
      let g = Reach-Guarded r in
      let a = translate_write-Appended m u count d t g.ring in
      record {
        ring = a.ring;
        writers = ap (λ n. n + count_mode true files) a.same_writer ∙ g.writers;
        readers = ap (λ n. n + count_mode false files) a.same_reader ∙ g.readers;
      }
  Reach-Guarded (read {d} {files} u count r) =
      let g = Reach-Guarded r in
      let a = translate_read-Taken m u count d g.ring in
      record {
        ring = a.ring;
        writers = ap (λ n. n + count_mode true files) a.same_writer ∙ g.writers;
        readers = ap (λ n. n + count_mode false files) a.same_reader ∙ g.readers;
      }

-- Over a string with one place for each letter, each letter in it once, and from a sound device whose two
-- locks are free, by calls in any order: at most one open file was
-- opened for writing, and at most one for reading only; the device stays sound; and to open a file
-- succeeds if no file of that mode is open, and is refused with -EBUSY if there is one.
pub translate_open-exclusive :
    (m : Params) (d0 d : TranslateDev) (files : List Bool) (mode : Bool)
    → IsTable m.translate_subst
    → Guarded m d0 []
    → Reach m d0 d files
    → IsRing m d
      × (count_mode mode files ≤ 1)
      × ((translate_open mode d).0 ≡ (if count_mode mode files == 0 then opened else ebusy))
translate_open-exclusive m d0 d files mode t g0 r =
    let g = Reach-Guarded t g0 r in (g.ring, one mode g, open_outcome g mode)
  where
    one : (mode : Bool) → Guarded m d files → count_mode mode files ≤ 1
    one true g = let h = g.writers in omega arith
    one false g = let h = g.readers in omega arith
