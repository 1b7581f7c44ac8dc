-- ===== src/Translate/Together/Miscount.antt =====
-- Where `items++` and `items--` are each a load and a store, the counter goes wrong.
use mathlib.Core.Path.{subst, ap₂}
use suse_vm.Prelude.{
  ℕ, ◌+◌, ◌-◌, ◌%◌, ◌<◌, ◌≡◌, refl, false, List, [], ◌∷◌, some, update, update_self, arith,
}
use suse_vm.Translate.Device.{Params, TranslateDev, UserSpace, stored_char, handed_char}
use suse_vm.Translate.Together.{
  outside, moved_on, away, moved, Together, find_room, put, move_on, load_up, store_up, find_item,
  decode, hand_over, load_down, store_down, Turns, none_yet, ◌▷◌, before,
}

-- the oldest char as it is handed over
abbrev pub first : Params → UserSpace → TranslateDev → ℕ
first m u d = handed_char m u d (d.buffer d.read_pos)

-- Both passes are over, with the char `x` in and the oldest one out, and `items` has become `n`.
pub record Miscounted (m : Params) (u : UserSpace) (d : TranslateDev) (x n : ℕ) : Type 0 where
  pub after : Together
  pub run : Turns m u false (before d) after
  pub written : (after.writer ≡ outside) × (after.accepted ≡ x ∷ [])
  pub taken : (after.reader ≡ away) × (after.given ≡ first m u d ∷ [])
  pub items : after.dev.items ≡ n

module _ (m : Params) (u : UserSpace) (d : TranslateDev) (some_item : 0 < d.items)
    (some_room : d.items < m.translate_bufsize) (c : ℕ) {x : ℕ}
    (stores : stored_char m u d c ≡ some x) where
  -- both have moved their positions, and neither has changed `items`
  abbrev met : Together
  met = record {
    dev = record d {
      buffer = update (update d.buffer d.read_pos (first m u d)) d.write_pos x;
      read_pos = (d.read_pos + 1) % m.translate_bufsize;
      write_pos = (d.write_pos + 1) % m.translate_bufsize;
    };
    writer = moved_on;
    reader = moved;
    accepted = x ∷ [];
    given = first m u d ∷ [];
    refused = 0;
  }

  run_to_met : Turns m u false (before d) met
  unfolding stored_char
  run_to_met =
      subst {A = List ℕ × List ℕ}
        (λ l. Turns m u false (before d) (record met { accepted = l.0; given = l.1 }))
        (ap₂ (λ a g. (a ∷ [], g ∷ [])) (update_self _ d.write_pos x)
          (update_self _ d.read_pos (first m u d)))
        (none_yet
          ▷ find_item refl (ground arith)
          ▷ decode refl
          ▷ hand_over refl
          ▷ find_room refl (ground arith)
          ▷ put c refl stores
          ▷ move_on refl)

  -- On a device that is neither empty nor full, where `items` is changed by a load and a
  -- store: a writer that puts one char and a reader that takes one at the same time can come to
  -- the end of their passes with one char in and one out and `items` one higher than before, and
  -- likewise with `items` one lower.
  pub items-Miscounted : Miscounted m u d x (d.items + 1) × Miscounted m u d x (d.items - 1)
  items-Miscounted = (
    record {
      after = _;
      run = run_to_met ▷ load_up refl refl ▷ load_down refl refl ▷ store_down refl ▷ store_up refl;
      written = (refl, refl);
      taken = (refl, refl);
      items = refl;
    },
    record {
      after = _;
      run = run_to_met ▷ load_up refl refl ▷ load_down refl refl ▷ store_up refl ▷ store_down refl;
      written = (refl, refl);
      taken = (refl, refl);
      items = refl;
    },
  )
