-- ===== src/Translate/Device.antt =====
-- A device of Aufgabe4_final/translate.c, and its operations: open, close, write, read. A position
-- in the buffer is its distance from `dev->buffer`. `items` is below 2 ^ 31, since it is never
-- above `translate_bufsize`; a call copies no more items than that, so `num_copied_items` is too.
use suse_vm.Prelude.{
  ℕ, zero, suc, ◌+◌, ◌-◌, ◌%◌, Bool, true, false, if◌then◌else◌, ◌==◌, List, Option, none, some,
  update, [], ◌∷◌,
}
use suse_vm.Translate.Chars.{encode_char, decode_char}

-- the module's parameters
pub record Params : Type 0 where
  pub translate_subst : List ℕ
  pub translate_bufsize : ℕ

-- `struct translate_dev`, with the minor number of its `cdev`
pub record TranslateDev : Type 0 where
  pub buffer : ℕ → ℕ
  pub items : ℕ
  pub read_pos : ℕ
  pub write_pos : ℕ
  pub minor : ℕ
  pub writer_open_lock : ℕ
  pub reader_open_lock : ℕ

-- What an operation returns: a count, 0, `-EFAULT`, `-EBUSY`; or a char behind the end of the
-- substitution string is read.
pub data Outcome : Type 0 where
  copied : ℕ → Outcome
  opened efault ebusy past_string : Outcome

-- `down_trylock`: the value of the semaphore after it, or nothing if it is busy
abbrev pub down_trylock : ℕ → Option ℕ
down_trylock zero = none
down_trylock (suc n) = some n

abbrev pub with_writer : TranslateDev → Option ℕ → Outcome × TranslateDev
with_writer d none = (ebusy, d)
with_writer d (some n) = (opened, record d { writer_open_lock = n })

abbrev pub with_reader : TranslateDev → Option ℕ → Outcome × TranslateDev
with_reader d none = (ebusy, d)
with_reader d (some n) = (opened, record d { reader_open_lock = n })

-- `translate_open`; `fmode_write` says whether the file is opened for writing, alone or with reading.
unfoldable pub translate_open : (fmode_write : Bool) → TranslateDev → Outcome × TranslateDev
translate_open true d = with_writer d (down_trylock d.writer_open_lock)
translate_open false d = with_reader d (down_trylock d.reader_open_lock)

-- `translate_close`
unfoldable pub translate_close : (fmode_write : Bool) → TranslateDev → TranslateDev
translate_close true d = record d { writer_open_lock = d.writer_open_lock + 1 }
translate_close false d = record d { reader_open_lock = d.reader_open_lock + 1 }

-- The memory of the process, from the address `buf` on: the byte that `copy_from_user` reads there,
-- if it can, or else the one it leaves at its destination; and whether `copy_to_user` can write there.
pub record UserSpace : Type 0 where
  pub from_user : ℕ → Option ℕ
  pub left_behind : ℕ → ℕ
  pub to_user : ℕ → Bool

-- One pass of a loop: the function returns, or goes on.
pub data Pass (A : Type 0) : Type 0 where
  leave : Outcome → A → Pass A
  next : A → Pass A

module _ (m : Params) (u : UserSpace) where
  -- the char as translate0 stores it, and any other device
  unfoldable pub stored_char : TranslateDev → ℕ → Option ℕ
  stored_char d c = if d.minor == 0 then encode_char m.translate_subst c else some c

  abbrev pub put_char : TranslateDev → ℕ → Option ℕ → Pass TranslateDev
  put_char d c none = leave past_string (record d { buffer = update d.buffer d.write_pos c })
  put_char d c (some e) = next (record d {
    buffer = update d.buffer d.write_pos e;
    write_pos = (d.write_pos + 1) % m.translate_bufsize;
    items = d.items + 1;
  })

  abbrev pub accept_char : ℕ → TranslateDev → Option ℕ → Pass TranslateDev
  accept_char n d none =
      leave efault (record d { buffer = update d.buffer d.write_pos (u.left_behind n) })
  accept_char n d (some c) = put_char d c (stored_char d c)

  -- one pass of the loop of `translate_write`, after `n` items
  unfoldable pub write_item : ℕ → TranslateDev → Pass TranslateDev
  unfolding stored_char
  write_item n d =
      if d.items == m.translate_bufsize then leave (copied n) d else accept_char n d (u.from_user n)

  abbrev pub go_on :
      Pass TranslateDev → (TranslateDev → Outcome × TranslateDev) → Outcome × TranslateDev
  go_on (leave r d) again = (r, d)
  go_on (next d) again = again d

  -- the loop of `translate_write`, with `left` items to go
  unfoldable pub write_loop : (left n : ℕ) → TranslateDev → Outcome × TranslateDev
  unfolding write_item
  write_loop zero n d = (copied n, d)
  write_loop (suc left) n d = go_on (write_item n d) (write_loop left (suc n))

  -- `translate_write`
  unfoldable pub translate_write : (count : ℕ) → TranslateDev → Outcome × TranslateDev
  translate_write count d = write_loop count 0 d

  -- the char as translate1 hands it out, and any other device
  unfoldable pub handed_char : TranslateDev → ℕ → ℕ
  handed_char d c = if d.minor == 1 then decode_char m.translate_subst c else c

  -- one pass of the loop of `translate_read`, after `n` items: the char is decoded where it stands
  unfoldable pub read_item : ℕ → TranslateDev → Pass (ℕ × TranslateDev)
  unfolding handed_char
  read_item n d =
      let c = handed_char d (d.buffer d.read_pos) in
      let d' = record d { buffer = update d.buffer d.read_pos c } in
      if d.items == 0
      then leave (copied n) (0, d)
      else (if u.to_user n
          then next (
            c,
            record d' { read_pos = (d'.read_pos + 1) % m.translate_bufsize; items = d'.items - 1 },
          )
          else leave efault (0, d'))

  abbrev pub give : ℕ → Outcome × List ℕ × TranslateDev → Outcome × List ℕ × TranslateDev
  give c (r, out, d) = (r, c ∷ out, d)

  abbrev pub read_on :
      Pass (ℕ × TranslateDev)
      → (TranslateDev → Outcome × List ℕ × TranslateDev)
      → Outcome × List ℕ × TranslateDev
  read_on (leave r (c, d)) again = (r, [], d)
  read_on (next (c, d)) again = give c (again d)

  -- the loop of `translate_read`, with the chars that the process received
  unfoldable pub read_loop : (left n : ℕ) → TranslateDev → Outcome × List ℕ × TranslateDev
  unfolding read_item
  read_loop zero n d = (copied n, [], d)
  read_loop (suc left) n d = read_on (read_item n d) (read_loop left (suc n))

  -- `translate_read`
  unfoldable pub translate_read : (count : ℕ) → TranslateDev → Outcome × List ℕ × TranslateDev
  translate_read count d = read_loop count 0 d
