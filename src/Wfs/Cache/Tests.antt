-- ===== src/Wfs/Cache/Tests.antt =====
-- A device with a bad block, and the cache of kernel/fs/wfs.c on it.
use mathlib.Core.Path.{fun_ext}
use mathlib.Core.Option.{some-injective}
use wos.Prelude.{
  ℕ, ◌+◌, ◌-◌, ◌*◌, ◌/◌, ◌≤◌, ◌<◌, ◌≡◌, ◌⊎◌, refl, sym, inl, inr, List, [], ◌∷◌, true, false, not,
  ◌&&◌, none, some, replicate, min, arith, ltb, leb, ◌==◌, if◌then◌else◌, Bool-cases,
}
use wos.Wfs.Device.{Device, Bytes, Keeps}
use wos.Wfs.Cache.{
  Io, empty_slot, cache_blocks, cache_find, cache_victim, victim_from, slot_for, fetch, read_at,
  block_read, after_write, block_write, cache_reset,
}
use wos.Wfs.Cache.Represented.{Represents, cache_reset-Represents}
use wos.Wfs.Cache.Refines.{Op, read, write, got, done, Plains, run, run-Plains}

abbrev pub sectors : (ℕ → Bytes) → (lba count : ℕ) → Bytes
sectors s lba count = λ i. let q = min (i / 512) (count - 1) in s (lba + q) (i - 512 * q)

-- Sectors 6 and 7 cannot be read, and a write to them reaches only the first.
abbrev pub scratched : Device
scratched = record {
  State = ℕ → Bytes;
  read = λ s lba count. if lba == 6 then none else some (sectors s lba count);
  write = λ s lba count b. (
    not (lba == 6),
    λ sector j.
        if leb lba sector && ltb sector (lba + (if lba == 6 then 1 else count))
        then b ((sector - lba) * 512 + j)
        else s sector j,
  );
}

pub scratched-read :
    (s : ℕ → Bytes) (lba : ℕ) (b : Bytes) → scratched.read s lba 2 ≡ some b → b ≡ sectors s lba 2
scratched-read s lba b e = elim (Bool-cases (lba == 6)) [
  | inl y ↦ absurd (ground arith)
  | inr n ↦ sym (some-injective _ _ (ground arith))
]

pub scratched-write :
    (s : ℕ → Bytes) (lba : ℕ) (b : Bytes)
    → (scratched.write s lba 2 b).0 ≡ true
    → sectors (scratched.write s lba 2 b).1 lba 2 ≡ b
scratched-write s lba b e = fun_ext (λ i. ground arith)

pub scratched-apart :
    (s : ℕ → Bytes) (lba : ℕ) (b : Bytes) (other : ℕ)
    → (lba + 2 ≤ other) ⊎ (other + 2 ≤ lba)
    → sectors (scratched.write s lba 2 b).1 other 2 ≡ sectors s other 2
scratched-apart s lba b other h = fun_ext (λ i. ground arith)

pub scratched-run :
    (s : ℕ → Bytes) (lba n : ℕ) (b : Bytes)
    → scratched.read s lba (n * 2) ≡ some b
    → (j i : ℕ) → j < n
    → i < 1024
    → b (j * 1024 + i) ≡ sectors s (lba + j * 2) 2 i
scratched-run s lba n b e j i h l = elim (Bool-cases (lba == 6)) [
  | inl y ↦ absurd (ground arith)
  | inr m ↦
      let same : b ≡ sectors s lba (n * 2) = sym (some-injective _ _ (ground arith)) in
      let q : min ((j * 1024 + i) / 512) (n * 2 - 1) ≡ j * 2 + i / 512 = omega arith in
      let r : min (i / 512) 1 ≡ i / 512 = omega arith in
      let place : lba + (j * 2 + i / 512) ≡ lba + j * 2 + i / 512 = omega arith in
      let within : j * 1024 + i - 512 * (j * 2 + i / 512) ≡ i - 512 * (i / 512) = omega arith in
      rw (same, q, r, place, within) refl
]

abbrev pub scratched_kept : Keeps scratched
scratched_kept = record {
  content = λ s lba. sectors s lba 2;
  read_content = scratched-read;
  write_content = scratched-write;
  write_apart = scratched-apart;
  read_run = scratched-run;
}

abbrev pub blank : Io scratched
blank = record {
  partition = 2;
  cache = replicate cache_blocks empty_slot;
  clock = 0;
  disk = λ sector j. sector;
}

abbrev pub some_ops : List Op
some_ops = write 5 (λ i. 9) ∷ read 5 ∷ write 2 (λ i. 7) ∷ read 2 ∷ []

abbrev pub blank_store : ℕ → Bytes
blank_store b = sectors blank.disk (2 + b * 2) 2

run-Plains_example :
    (after : ℕ → Bytes) × Plains blank_store some_ops
      (run scratched some_ops (cache_reset scratched blank)).0
      after
    × Represents scratched_kept after (run scratched some_ops (cache_reset scratched blank)).1
unfolding cache_reset
run-Plains_example =
    run-Plains scratched scratched_kept blank_store some_ops (cache_reset scratched blank)
      (cache_reset-Represents scratched scratched_kept blank) (ground arith)

-- The write to block 2 fails, and the block is not in the cache afterwards.
some_ops-run :
    (run scratched some_ops blank).0 ≡ done true ∷ got (some (λ i. 9)) ∷ done false ∷ got none ∷ []
unfolding block_read read_at fetch cache_find cache_victim victim_from slot_for block_write
    after_write
some_ops-run = refl
