-- ===== src/Translate/Loaded.antt =====
-- Loading the module of Aufgabe4_final/translate.c succeeds with both devices ready, or leaves
-- nothing behind; unloading it leaves nothing behind.
use suse_vm.Prelude.{
  ℕ, ◌<◌, ◌≡◌, refl, inl, inr, ◌⊎◌, Bool, true, false, ◌&&◌, ℤ, pos, [], update, Bool-cases, arith,
}
use suse_vm.Translate.Device.{Params, TranslateDev}
use suse_vm.Prelude.{ring_from}
use suse_vm.Translate.Queue.{contents}
use suse_vm.Translate.Locks.{Guarded, count_mode}
use suse_vm.Translate.Module.{
  zero_slot, Kernel, Slot, Driver, is_success, no_of_devices, translate_init, translate_cleanup,
  init_region, init_devices, init_device, cleanup_devices, cleanup_single_translate_dev,
  translate_setup_cdev,
}

-- The module holds nothing of the kernel.
pub record HoldsNothing {D : Type 0} (s : Driver D) : Type 0 where
  pub region : s.region_held ≡ false
  pub devs : s.devs_held ≡ false
  pub buffers : (i : ℕ) → i < no_of_devices → (s.slots i).buffer_held ≡ false
  pub cdevs : (i : ℕ) → i < no_of_devices → (s.slots i).cdev_added ≡ false

-- The place `i` holds a device of its number, sound, empty and with free locks.
pub record IsReady (m : Params) (i : ℕ) (x : Slot TranslateDev) : Type 0 where
  pub buffer : x.buffer_held ≡ true
  pub minor : x.device.minor ≡ i
  pub free : Guarded m x.device []
  pub empty : contents m x.device ≡ []

-- The module is loaded: both devices are ready.
pub record IsLoaded (m : Params) (s : Driver TranslateDev) : Type 0 where
  pub region : s.region_held ≡ true
  pub devs : s.devs_held ≡ true
  pub first : IsReady m 0 (s.slots 0)
  pub second : IsReady m 1 (s.slots 1)

-- every allocation that `translate_init` checks succeeds
abbrev pub answers : Kernel → Bool
answers k = is_success k.region && k.devs_allocated && k.buffer_allocated 0 && k.buffer_allocated 1

pub HoldsNothing-cleanup :
    {D : Type 0} (s : Driver D) → s.devs_held ≡ true → HoldsNothing (translate_cleanup s)
unfolding translate_cleanup cleanup_devices cleanup_single_translate_dev update
HoldsNothing-cleanup s held = record {
  region = refl;
  devs = rw held refl;
  buffers = λ i l. rw held (ground arith);
  cdevs = λ i l. rw held (ground arith);
}

-- how loading ends, by the kernel's answers
abbrev pub IsInitOutcome : Params → Kernel → ℤ × Driver TranslateDev → Type 0
IsInitOutcome m k r =
    ((answers k ≡ true) × (r.0 ≡ pos 0) × IsLoaded m r.1)
    ⊎ ((answers k ≡ false) × (is_success r.0 ≡ false) × HoldsNothing r.1)

module _ (m : Params) (room : 0 < m.translate_bufsize) (k : Kernel) where
  IsReady-init : (i : ℕ) (x : Slot TranslateDev) → IsReady m i (init_device k i x)
  unfolding init_device translate_setup_cdev count_mode ring_from
  IsReady-init i x = record {
    buffer = refl;
    minor = omega arith;
    free = record {
      ring = record { items_le = omega arith; read_lt = room; write_lt = room; behind = inl refl };
      writers = refl;
      readers = refl;
    };
    empty = refl;
  }

  init-outcome : (s : Driver TranslateDev) → HoldsNothing s → IsInitOutcome m k (translate_init k s)
  unfolding translate_init init_region init_devices update translate_cleanup
  init-outcome s h = elim (Bool-cases (is_success k.region)) [
    | inr no_region ↦ rw no_region (inr (refl, no_region, h))
    | inl region ↦ elim (Bool-cases k.devs_allocated) [
      | inr no_devs ↦
          rw (region, no_devs)
            (inr (
              refl,
              refl,
              record { region = refl; devs = refl; buffers = h.buffers; cdevs = h.cdevs },
            ))
      | inl devs ↦ elim (Bool-cases (k.buffer_allocated 0)) [
        | inr no_first ↦ rw (region, devs, no_first) (inr (refl, refl, HoldsNothing-cleanup _ refl))
        | inl first ↦ elim (Bool-cases (k.buffer_allocated 1)) [
          | inr no_second ↦
              rw (region, devs, first, no_second) (inr (refl, refl, HoldsNothing-cleanup _ refl))
          | inl second ↦
              rw (region, devs, first, second)
                (inl (
                  refl,
                  refl,
                  record {
                    region = refl;
                    devs = refl;
                    first = IsReady-init 0 zero_slot;
                    second = IsReady-init 1 zero_slot;
                  },
                ))
        ]
      ]
    ]
  ]

-- Loading, when the module holds nothing and the buffers have a place: if the region, the devices
-- and both buffers are given, it returns 0 and both devices are ready, empty, with free locks and
-- minor numbers 0 and 1; if one is refused, it returns an error and holds nothing. Unloading
-- the loaded module leaves it with nothing.
pub translate_init-outcome :
    (m : Params) (k : Kernel) (s : Driver TranslateDev)
    → 0 < m.translate_bufsize
    → HoldsNothing s
    → IsInitOutcome m k (translate_init k s)
      × ((r : Driver TranslateDev) → IsLoaded m r → HoldsNothing (translate_cleanup r))
translate_init-outcome m k s room h =
    (init-outcome m room k s h, λ r loaded. HoldsNothing-cleanup r loaded.devs)
