-- ===== src/Translate/Module.antt =====
-- Loading and unloading the module of Aufgabe4_final/translate.c: what it holds of the kernel, and
-- in what state it leaves the devices.
use suse_vm.Prelude.{
  ℕ, zero, suc, ◌+◌, Bool, true, false, if◌then◌else◌, ◌==◌, ℤ, pos, negsuc, update,
}
use suse_vm.Translate.Device.{TranslateDev}

-- `NO_OF_DEVICES`, `MINOR_BEGINNING`, `NUM_SIMULT_ACCESS_USERS`
abbrev pub no_of_devices : ℕ
no_of_devices = 2

abbrev pub minor_beginning : ℕ
minor_beginning = 0

abbrev pub num_simult_access_users : ℕ
num_simult_access_users = 1

-- `-ENOMEM`
abbrev pub no_memory : ℤ
no_memory = negsuc 11

-- what the kernel answers: `alloc_chrdev_region`, `kmalloc` for the devices, `kmalloc` for the
-- buffer of a device and what the memory then holds, and `cdev_add` for a device
pub record Kernel : Type 0 where
  pub region : ℤ
  pub devs_allocated : Bool
  pub buffer_allocated : ℕ → Bool
  pub garbage : ℕ → ℕ → ℕ
  pub cdev_add : ℕ → ℤ

-- a place of `translate_devs`: whether its buffer is allocated and its cdev registered
pub record Slot (D : Type 0) : Type 0 where
  pub buffer_held : Bool
  pub cdev_added : Bool
  pub device : D

-- The module's globals and what it holds of the kernel.
pub record Driver (D : Type 0) : Type 0 where
  pub region_held : Bool
  pub devs_held : Bool
  pub slots : ℕ → Slot D

abbrev pub is_success : ℤ → Bool
is_success (pos n) = n == 0
is_success (negsuc n) = false

abbrev pub put_slot : {D : Type 0} → Driver D → ℕ → Slot D → Driver D
put_slot s i x = record s { slots = update s.slots i x }

-- what `memset` makes of a place
abbrev pub zero_slot : Slot TranslateDev
zero_slot = record {
  buffer_held = false;
  cdev_added = false;
  device = record {
    buffer = λ _. 0;
    items = 0;
    read_pos = 0;
    write_pos = 0;
    minor = 0;
    writer_open_lock = 0;
    reader_open_lock = 0;
  };
}

-- `translate_setup_cdev`: an error of `cdev_add` is printed only.
unfoldable pub translate_setup_cdev : Kernel → ℕ → Slot TranslateDev → Slot TranslateDev
translate_setup_cdev k index x = record x {
  cdev_added = is_success (k.cdev_add index);
  device = record x.device { minor = minor_beginning + index };
}

-- the body of the loop of `translate_init`, once the buffer is there
unfoldable pub init_device : Kernel → ℕ → Slot TranslateDev → Slot TranslateDev
unfolding translate_setup_cdev
init_device k i x = translate_setup_cdev k i (record x {
  buffer_held = true;
  device = record x.device {
    buffer = k.garbage i;
    items = 0;
    read_pos = 0;
    write_pos = 0;
    reader_open_lock = num_simult_access_users;
    writer_open_lock = num_simult_access_users;
  };
})

-- the loop of `translate_init`, with `left` devices to go
unfoldable pub init_devices : Kernel → (left i : ℕ) → Driver TranslateDev → ℤ × Driver TranslateDev
unfolding init_device
init_devices k zero i s = (pos 0, s)
init_devices k (suc left) i s =
    let rest = init_devices k left (suc i) (put_slot s i (init_device k i (s.slots i))) in
    if k.buffer_allocated i then rest else (no_memory, s)

-- `cleanup_single_translate_dev`. After `kfree` and `cdev_del` the buffer and the cdev are not held,
-- whether they were before or not.
unfoldable pub cleanup_single_translate_dev : {D : Type 0} → ℕ → Driver D → Driver D
cleanup_single_translate_dev i s =
    put_slot s i (record (s.slots i) { buffer_held = false; cdev_added = false })

-- the loop of `translate_cleanup`
unfoldable pub cleanup_devices : {D : Type 0} → (left i : ℕ) → Driver D → Driver D
unfolding cleanup_single_translate_dev
cleanup_devices zero i s = s
cleanup_devices (suc left) i s = cleanup_devices left (suc i) (cleanup_single_translate_dev i s)

-- `translate_cleanup`
unfoldable pub translate_cleanup : {D : Type 0} → Driver D → Driver D
translate_cleanup s =
    let s' =
      (if s.devs_held
        then record (cleanup_devices no_of_devices 0 s) { devs_held = false }
        else s) in
    record s' { region_held = false }

-- `goto fail`, if the result is not 0
abbrev pub or_fail : {D : Type 0} → ℤ × Driver D → ℤ × Driver D
unfolding translate_cleanup
or_fail (result, s) = if is_success result then (result, s) else (result, translate_cleanup s)

-- `translate_init` after the region was given
unfoldable pub init_region : Kernel → Driver TranslateDev → ℤ × Driver TranslateDev
unfolding init_devices
init_region k s =
    if k.devs_allocated
    then or_fail
        (init_devices k no_of_devices 0 (record s { devs_held = true; slots = λ _. zero_slot }))
    else or_fail (no_memory, record s { devs_held = false })

-- `translate_init`
unfoldable pub translate_init : Kernel → Driver TranslateDev → ℤ × Driver TranslateDev
unfolding init_region
translate_init k s =
    if is_success k.region then init_region k (record s { region_held = true }) else (k.region, s)
