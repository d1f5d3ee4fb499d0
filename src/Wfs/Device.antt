-- ===== src/Wfs/Device.antt =====
-- The block device below kernel/fs/wfs.c, `sectors_read` and `sectors_write`: whichever driver the
-- volume was found on. A buffer is a function from places to bytes.
use wos.Prelude.{ℕ, ◌+◌, ◌*◌, ◌≤◌, ◌<◌, ◌≡◌, ◌⊎◌, Bool, true, Option, some}

abbrev pub Bytes : Type 0
Bytes = ℕ → ℕ

-- A read of `count` sectors from `lba` on gives nothing if it fails; a write may fail half done.
pub record Device : Type 1 where
  pub State : Type 0
  pub read : State → (lba count : ℕ) → Option Bytes
  pub write : State → (lba count : ℕ) → Bytes → Bool × State

-- What a driver promises of two sectors at once, which is a block of this filesystem. A failed write
-- may leave anything in the block, but no other block is touched. Several blocks at once are read as
-- one after the other.
pub record Keeps (d : Device) : Type 0 where
  pub content : d.State → (lba : ℕ) → Bytes
  pub read_content :
      (s : d.State) (lba : ℕ) (b : Bytes) → d.read s lba 2 ≡ some b → b ≡ content s lba
  pub write_content :
      (s : d.State) (lba : ℕ) (b : Bytes)
      → (d.write s lba 2 b).0 ≡ true
      → content (d.write s lba 2 b).1 lba ≡ b
  pub write_apart :
      (s : d.State) (lba : ℕ) (b : Bytes) (other : ℕ)
      → (lba + 2 ≤ other) ⊎ (other + 2 ≤ lba)
      → content (d.write s lba 2 b).1 other ≡ content s other
  pub read_run :
      (s : d.State) (lba n : ℕ) (b : Bytes)
      → d.read s lba (n * 2) ≡ some b
      → (j i : ℕ) → j < n
      → i < 1024
      → b (j * 1024 + i) ≡ content s (lba + j * 2) i
