-- ===== src/Mbed/Callbacks.antt =====
-- The block device operations of LittleFileSystem2.cpp, by which lfs2.c uses an mbed block device.
use mbed_littlefs.Base.{ℕ, ◌+◌, ◌*◌, ◌%◌, ◌^◌, List, ℤ}
use mbed_littlefs.Device.{Config, Driver, status}

-- `BlockDevice` of mbed-os: calls return an `int`, 0 for success. Addresses and sizes are `bd_addr_t`
-- and `bd_size_t`, 64 bits wide.
pub record BlockDevice : Type 1 where
  pub Bd : Type 0
  pub init : Bd → ℤ × Bd
  pub deinit : Bd → ℤ × Bd
  pub sync : Bd → ℤ × Bd
  pub read : Bd → ℕ → ℕ → ℤ × List ℕ × Bd
  pub program : Bd → ℕ → List ℕ → ℤ × Bd
  pub erase : Bd → ℕ → ℕ → ℤ × Bd
  pub get_read_size : Bd → ℕ
  pub get_program_size : Bd → ℕ
  pub get_erase_size : Bd → ℕ
  pub size : Bd → ℕ

-- The 64-bit address of a byte of a block.
abbrev pub address : Config → ℕ → ℕ → ℕ
address cfg block off = (block * cfg.block_size + off) % 2 ^ 64

module _ (bd : BlockDevice) (cfg : Config) where
  open bd use {Bd, read, program, erase, sync}

  abbrev pub device_read : Bd → ℕ → ℕ → ℕ → ℤ × List ℕ × Bd
  device_read d block off size = read d (address cfg block off) size

  abbrev pub device_prog : Bd → ℕ → ℕ → List ℕ → ℤ × Bd
  device_prog d block off bytes = program d (address cfg block off) bytes

  abbrev pub device_erase : Bd → ℕ → ℤ × Bd
  device_erase d block = erase d (address cfg block 0) cfg.block_size

  abbrev pub device_sync : Bd → ℤ × Bd
  device_sync d = sync d

  -- The callbacks as lfs2.c sees them.
  abbrev pub driver : Driver
  driver = record {
    Dev = Bd;
    read = λ d block off size.
        let (res, bytes, d') = device_read d block off size in (status res, bytes, d');
    prog = λ d block off bytes. let (res, d') = device_prog d block off bytes in (status res, d');
    erase = λ d block. let (res, d') = device_erase d block in (status res, d');
    sync = λ d. let (res, d') = device_sync d in (status res, d');
  }
