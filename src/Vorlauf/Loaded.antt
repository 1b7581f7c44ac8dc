-- ===== src/Vorlauf/Loaded.antt =====
-- Loading the module of Aufgabe4/vorlauf succeeds with both devices ready, or leaves nothing behind.
use suse_vm.Prelude.{
  ℕ, ◌<◌, ◌≡◌, refl, inl, inr, ◌⊎◌, Bool, true, false, ◌&&◌, not, ℤ, pos, [], length, update,
  Bool-cases, arith,
}
use suse_vm.Translate.Device.{Params}
use suse_vm.Prelude.{ring_from}
use suse_vm.Translate.Queue.{contents}
use suse_vm.Translate.Locks.{count_mode}
use suse_vm.Translate.Module.{Kernel, Slot, Driver}
use suse_vm.Translate.Loaded.{HoldsNothing}
use suse_vm.Vorlauf.Device.{TranslateDev}
use suse_vm.Vorlauf.Locks.{Guarded}
use suse_vm.Vorlauf.Module.{
  is_negative, zero_slot, translate_setup_cdev, init_semaphores, init_members, init_devices,
  init_region, translate_init, cleanup_device, cleanup_devices, translate_cleanup,
}

-- The place `i` holds a device of its number, empty and with free locks, and its semaphores count.
pub record IsReady (m : Params) (i : ℕ) (x : Slot TranslateDev) : Type 0 where
  pub buffer : x.buffer_held ≡ true
  pub minor : x.device.shared.minor ≡ i
  pub free : Guarded m x.device 0 []
  pub empty : contents m x.device.shared ≡ []

pub record IsLoaded (m : Params) (s : Driver TranslateDev) : Type 0 where
  pub region : s.region_held ≡ true
  pub devs : s.devs_held ≡ true
  pub first : IsReady m 0 (s.slots 0)
  pub second : IsReady m 1 (s.slots 1)

-- every allocation that `translate_init` checks succeeds
abbrev pub answers : Kernel → Bool
answers k =
    not (is_negative k.region) && k.devs_allocated && k.buffer_allocated 0 && k.buffer_allocated 1

-- how loading ends, by the kernel's answers
abbrev pub IsInitOutcome : Params → Kernel → ℤ × Driver TranslateDev → Type 0
IsInitOutcome m k r =
    ((answers k ≡ true) × (r.0 ≡ pos 0) × IsLoaded m r.1)
    ⊎ ((answers k ≡ false) × (is_negative r.0 ≡ true) × HoldsNothing r.1)

HoldsNothing-cleanup :
    (s : Driver TranslateDev) → s.devs_held ≡ true → HoldsNothing (translate_cleanup s)
unfolding translate_cleanup cleanup_devices cleanup_device update
HoldsNothing-cleanup s held = record {
  region = refl;
  devs = rw held refl;
  buffers = λ i l. rw held (ground arith);
  cdevs = λ i l. rw held (ground arith);
}

module _ (m : Params) (room : 0 < m.translate_bufsize) (k : Kernel) where
  IsReady-init :
      (i : ℕ) (x : Slot TranslateDev) → IsReady m i (init_members k i (init_semaphores m x))
  unfolding init_members init_semaphores translate_setup_cdev count_mode ring_from length
  IsReady-init i x = record {
    buffer = refl;
    minor = omega arith;
    free = record {
      counted = record {
        ring = record {
          items_le = omega arith;
          read_lt = room;
          write_lt = room;
          behind = inl refl;
        };
        filled = refl;
        free = omega arith;
      };
      writers = refl;
      readers = refl;
      used = refl;
    };
    empty = refl;
  }

  pub init-outcome :
      (s : Driver TranslateDev) → HoldsNothing s → IsInitOutcome m k (translate_init m k s)
  unfolding translate_init init_region init_devices update translate_cleanup
  init-outcome s h = elim (Bool-cases (is_negative k.region)) [
    | inl no_region ↦ rw no_region (inr (refl, no_region, h))
    | inr region ↦ elim (Bool-cases k.devs_allocated) [
      | inr no_devs ↦
          rw (region, no_devs)
            (inr (
              refl,
              refl,
              record { region = refl; devs = refl; buffers = h.buffers; cdevs = h.cdevs },
            ))
      | inl devs ↦ elim (Bool-cases (k.buffer_allocated 0)) [
        | inr no_first ↦ rw (region, devs, no_first) (inr (refl, refl, HoldsNothing-cleanup _ refl))
        | inl first ↦ elim (Bool-cases (k.buffer_allocated 1)) [
          | inr no_second ↦
              rw (region, devs, first, no_second) (inr (refl, refl, HoldsNothing-cleanup _ refl))
          | inl second ↦
              rw (region, devs, first, second)
                (inl (
                  refl,
                  refl,
                  record {
                    region = refl;
                    devs = refl;
                    first = IsReady-init 0 zero_slot;
                    second = IsReady-init 1 zero_slot;
                  },
                ))
        ]
      ]
    ]
  ]

-- Loading, when the module holds nothing and the buffers have a place: if the region, the devices
-- and both buffers are given, it returns 0 and both devices are ready, empty, with free locks, minor
-- numbers 0 and 1 and semaphores that count their rings; if one is refused, it returns a negative
-- number and holds nothing. Unloading a loaded module leaves it with nothing.
pub translate_init-ready :
    (m : Params) (k : Kernel) (s r : Driver TranslateDev)
    → 0 < m.translate_bufsize
    → HoldsNothing s
    → IsLoaded m r
    → IsInitOutcome m k (translate_init m k s) × HoldsNothing (translate_cleanup r)
translate_init-ready m k s r room h loaded =
    (init-outcome m room k s h, HoldsNothing-cleanup r loaded.devs)
