-- ===== src/Vorlauf/Module.antt =====
-- Loading and unloading the module of Aufgabe4/vorlauf/translate/translate.c.
use suse_vm.Prelude.{ℕ, zero, suc, ◌+◌, Bool, true, false, if◌then◌else◌, ℤ, pos, negsuc}
use suse_vm.Translate.Device.{Params}
use suse_vm.Translate.Module
use suse_vm.Translate.Module.{no_memory, Kernel, Slot, Driver, is_success, put_slot}
use suse_vm.Vorlauf.Device.{TranslateDev}

-- `TRANSLATE_NUMBER_OF_DEVS`, `TRANSLATE_FIRST_MINOR`
abbrev pub number_of_devs : ℕ
number_of_devs = 2

abbrev pub first_minor : ℕ
first_minor = 0

-- `result < 0`
abbrev pub is_negative : ℤ → Bool
is_negative (pos n) = false
is_negative (negsuc n) = true

-- what `memset` makes of a place
abbrev pub zero_slot : Slot TranslateDev
zero_slot = record {
  buffer_held = false;
  cdev_added = false;
  device = record { shared = Module.zero_slot.device; items_in_buffer = 0; free_buffer_space = 0 };
}

-- `translate_setup_cdev`: an error of `cdev_add` is printed only.
unfoldable pub translate_setup_cdev : Kernel → ℕ → Slot TranslateDev → Slot TranslateDev
translate_setup_cdev k index x = record x {
  cdev_added = is_success (k.cdev_add index);
  device = record x.device { shared = record x.device.shared { minor = first_minor + index } };
}

-- the body of the loop of `translate_init` up to `kmalloc`: the four semaphores
unfoldable pub init_semaphores : Params → Slot TranslateDev → Slot TranslateDev
init_semaphores m x = record x {
  device = record {
    shared = record x.device.shared { reader_open_lock = 1; writer_open_lock = 1 };
    items_in_buffer = 0;
    free_buffer_space = m.translate_bufsize;
  };
}

-- the body of the loop after `kmalloc`
unfoldable pub init_members : Kernel → ℕ → Slot TranslateDev → Slot TranslateDev
unfolding translate_setup_cdev
init_members k i x = translate_setup_cdev k i (record x {
  buffer_held = true;
  device = record x.device {
    shared = record x.device.shared {
      buffer = k.garbage i;
      items = 0;
      read_pos = 0;
      write_pos = 0;
    };
  };
})

-- the loop of `translate_init`, with `left` devices to go
unfoldable pub init_devices :
    Params → Kernel → (left i : ℕ) → Driver TranslateDev → ℤ × Driver TranslateDev
unfolding init_semaphores init_members
init_devices m k zero i s = (pos 0, s)
init_devices m k (suc left) i s =
    let x = init_semaphores m (s.slots i) in
    let rest = init_devices m k left (suc i) (put_slot s i (init_members k i x)) in
    if k.buffer_allocated i then rest else (no_memory, put_slot s i x)

-- one pass of the loop of `translate_cleanup`. After `kfree` and `cdev_del` the buffer and the cdev
-- are not held, whether they were before or not.
unfoldable pub cleanup_device : ℕ → Driver TranslateDev → Driver TranslateDev
cleanup_device i s = put_slot s i (record (s.slots i) { buffer_held = false; cdev_added = false })

unfoldable pub cleanup_devices : (left i : ℕ) → Driver TranslateDev → Driver TranslateDev
unfolding cleanup_device
cleanup_devices zero i s = s
cleanup_devices (suc left) i s = cleanup_devices left (suc i) (cleanup_device i s)

-- `translate_cleanup`
unfoldable pub translate_cleanup : Driver TranslateDev → Driver TranslateDev
translate_cleanup s =
    let s' =
      (if s.devs_held
        then record (cleanup_devices number_of_devs 0 s) { devs_held = false }
        else s) in
    record s' { region_held = false }

-- `goto fail`, if the result is not 0
abbrev pub or_fail : ℤ × Driver TranslateDev → ℤ × Driver TranslateDev
or_fail (result, s) = if is_success result then (result, s) else (result, translate_cleanup s)

-- `translate_init` after the region was given
unfoldable pub init_region : Params → Kernel → Driver TranslateDev → ℤ × Driver TranslateDev
unfolding init_devices translate_cleanup
init_region m k s =
    if k.devs_allocated
    then or_fail
        (init_devices m k number_of_devs 0 (record s { devs_held = true; slots = λ _. zero_slot }))
    else or_fail (no_memory, record s { devs_held = false })

-- `translate_init`
unfoldable pub translate_init : Params → Kernel → Driver TranslateDev → ℤ × Driver TranslateDev
unfolding init_region
translate_init m k s =
    if is_negative k.region
    then (k.region, s)
    else init_region m k (record s { region_held = true })
