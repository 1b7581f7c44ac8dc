-- ===== src/Vorlauf/Device.antt =====
-- A device of Aufgabe4/vorlauf/translate/translate.c, and its operations: open, release, write, read.
use suse_vm.Prelude.{
  ℕ, zero, suc, ◌+◌, ◌-◌, ◌%◌, Bool, true, false, if◌then◌else◌, ◌==◌, List, Option, none, some,
  update, [], ◌∷◌, ltb,
}
use suse_vm.Translate.Device
use suse_vm.Translate.Device.{Params, UserSpace, down_trylock}
use suse_vm.Vorlauf.Chars.{encode, decode}

-- `struct translate_dev`: the members that Aufgabe4_final's structure has too, and the two counts
pub record TranslateDev : Type 0 where
  pub shared : Device.TranslateDev
  pub items_in_buffer : ℕ
  pub free_buffer_space : ℕ

-- What a call returns: a count, 0, `-EFAULT`, `-EBUSY`, `-ERESTARTSYS`; or the process sleeps, and
-- the call goes on once another process lets it.
pub data Outcome : Type 0 where
  copied : ℕ → Outcome
  done efault ebusy restart asleep : Outcome

-- The module's usage count beside the device: `try_module_get` raises it, since no file of a module
-- that is being unloaded can be opened.
pub record Opened : Type 0 where
  pub outcome : Outcome
  pub device : TranslateDev
  pub usage : ℕ

abbrev pub take_writer : (usage : ℕ) → TranslateDev → Option ℕ → Opened
take_writer usage d none = record { outcome = ebusy; device = d; usage = usage + 1 - 1 }
take_writer usage d (some n) = record {
  outcome = done;
  device = record d { shared = record d.shared { writer_open_lock = n } };
  usage = usage + 1;
}

abbrev pub take_reader : (usage : ℕ) → TranslateDev → Option ℕ → Opened
take_reader usage d none = record { outcome = ebusy; device = d; usage = usage + 1 - 1 }
take_reader usage d (some n) = record {
  outcome = done;
  device = record d { shared = record d.shared { reader_open_lock = n } };
  usage = usage + 1;
}

-- `translate_open`
unfoldable pub translate_open : (fmode_write : Bool) → (usage : ℕ) → TranslateDev → Opened
translate_open true usage d = take_writer usage d (down_trylock d.shared.writer_open_lock)
translate_open false usage d = take_reader usage d (down_trylock d.shared.reader_open_lock)

-- `translate_release`, with the usage count after it
unfoldable pub translate_release :
    (fmode_write : Bool) → (usage : ℕ) → TranslateDev → ℕ × TranslateDev
translate_release true usage d = (
  usage - 1,
  record d { shared = record d.shared { writer_open_lock = d.shared.writer_open_lock + 1 } },
)
translate_release false usage d = (
  usage - 1,
  record d { shared = record d.shared { reader_open_lock = d.shared.reader_open_lock + 1 } },
)

-- Taking a place from a count: what is left, or how the call ends. The first place is waited for,
-- until a signal comes if one does; each further one is taken only if it is there.
pub data Acquired : Type 0 where
  got : (left : ℕ) → Acquired
  refused : Outcome → Acquired

abbrev pub acquire : (signalled : Bool) → (copied_items count : ℕ) → Acquired
acquire signalled n (suc v) = got v
acquire signalled zero zero = refused (if signalled then restart else asleep)
acquire signalled (suc n) zero = refused (copied (suc n))

-- the result of a copy that failed after `n` items
abbrev pub copy_failed : ℕ → Outcome
copy_failed n = if ltb 0 n then copied n else efault

-- One pass of a loop: the function returns, or goes on with its pointer index.
pub data Pass (A : Type 0) : Type 0 where
  leave : Outcome → A → Pass A
  next : (index : ℕ) → A → Pass A

module _ (m : Params) (u : UserSpace) (signalled : Bool) where
  abbrev pub kept_char : TranslateDev → ℕ → ℕ
  kept_char d c = if d.shared.minor == 0 then encode m.translate_subst c else c

  -- After the place was taken: the char from the process, or a byte that the failed copy leaves; then
  -- the place is given back.
  abbrev pub put_in : (n index : ℕ) → TranslateDev → Option ℕ → Pass TranslateDev
  put_in n index d none = leave (copy_failed n) (record d {
    shared = record d.shared {
      buffer = update d.shared.buffer d.shared.write_pos (u.left_behind n);
    };
    free_buffer_space = d.free_buffer_space + 1;
  })
  put_in n index d (some c) = next ((index + 1) % m.translate_bufsize) (record d {
    shared = record d.shared {
      buffer = update d.shared.buffer d.shared.write_pos (kept_char d c);
      write_pos = (index + 1) % m.translate_bufsize;
      items = d.shared.items + 1;
    };
    items_in_buffer = d.items_in_buffer + 1;
  })

  abbrev pub with_place : (n index : ℕ) → TranslateDev → Acquired → Pass TranslateDev
  with_place n index d (refused r) = leave r d
  with_place n index d (got v) = put_in n index (record d { free_buffer_space = v }) (u.from_user n)

  -- one pass of the loop of `translate_write`, after `n` items, with the local `writePointerIndex`
  unfoldable pub write_item : (n index : ℕ) → TranslateDev → Pass TranslateDev
  write_item n index d = with_place n index d (acquire signalled n d.free_buffer_space)

  abbrev pub go_on :
      Pass TranslateDev → (ℕ → TranslateDev → Outcome × TranslateDev) → Outcome × TranslateDev
  go_on (leave r d) again = (r, d)
  go_on (next index d) again = again index d

  -- the loop of `translate_write`, with `left` items to go
  unfoldable pub write_loop : (left n index : ℕ) → TranslateDev → Outcome × TranslateDev
  unfolding write_item
  write_loop zero n index d = (copied n, d)
  write_loop (suc left) n index d = go_on (write_item n index d) (write_loop left (suc n))

  -- `translate_write`
  unfoldable pub translate_write : (count : ℕ) → TranslateDev → Outcome × TranslateDev
  translate_write count d = write_loop count 0 d.shared.write_pos d

  abbrev pub given_char : TranslateDev → ℕ → ℕ
  given_char d c = if d.shared.minor == 1 then decode m.translate_subst c else c

  -- After an item was taken: its char, decoded where it stands, goes to the process, or the item is
  -- given back.
  abbrev pub take_out : (n index : ℕ) → TranslateDev → Bool → Pass (ℕ × TranslateDev)
  take_out n index d writable =
      let c = given_char d (d.shared.buffer d.shared.read_pos) in
      let b = update d.shared.buffer d.shared.read_pos c in
      if writable
      then next ((index + 1) % m.translate_bufsize) (
        c,
        record d {
          shared = record d.shared {
            buffer = b;
            read_pos = (index + 1) % m.translate_bufsize;
            items = d.shared.items - 1;
          };
          free_buffer_space = d.free_buffer_space + 1;
        },
      )
      else leave (copy_failed n) (
        0,
        record d {
          shared = record d.shared { buffer = b };
          items_in_buffer = d.items_in_buffer + 1;
        },
      )

  abbrev pub with_item : (n index : ℕ) → TranslateDev → Acquired → Pass (ℕ × TranslateDev)
  with_item n index d (refused r) = leave r (0, d)
  with_item n index d (got v) = take_out n index (record d { items_in_buffer = v }) (u.to_user n)

  -- one pass of the loop of `translate_read`, after `n` items, with the local `readPointerIndex`
  unfoldable pub read_item : (n index : ℕ) → TranslateDev → Pass (ℕ × TranslateDev)
  read_item n index d = with_item n index d (acquire signalled n d.items_in_buffer)

  abbrev pub read_on :
      Pass (ℕ × TranslateDev)
      → (ℕ → TranslateDev → Outcome × List ℕ × TranslateDev)
      → Outcome × List ℕ × TranslateDev
  read_on (leave r (c, d)) again = (r, [], d)
  read_on (next index (c, d)) again = let (r, out, d') = again index d in (r, c ∷ out, d')

  -- the loop of `translate_read`, with the chars that the process received
  unfoldable pub read_loop : (left n index : ℕ) → TranslateDev → Outcome × List ℕ × TranslateDev
  unfolding read_item
  read_loop zero n index d = (copied n, [], d)
  read_loop (suc left) n index d = read_on (read_item n index d) (read_loop left (suc n))

  -- `translate_read`
  unfoldable pub translate_read : (count : ℕ) → TranslateDev → Outcome × List ℕ × TranslateDev
  translate_read count d = read_loop count 0 d.shared.read_pos d
