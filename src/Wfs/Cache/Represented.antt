-- ===== src/Wfs/Cache/Represented.antt =====
-- What one call of `block_read` or `block_write` of kernel/fs/wfs.c does to the blocks of the volume.
use wos.Prelude.{
  ℕ, zero, suc, ◌+◌, ◌*◌, ◌≡◌, ◌⊎◌, refl, sym, ap, ◌∙◌, inl, inr, List, [], ◌∷◌, Bool, true, false,
  Option, none, some, map, set, update, arith, Bool-cases, ◌==◌,
}
use wos.Wfs.Device.{Device, Bytes, Keeps}
use wos.Wfs.Cache.{
  Io, Slot, emptied, cache_find, slot_for, cache_victim, sector_of, stamped, cache_reset, fetch,
  read_at, block_read, after_write, block_write,
}
use wos.Wfs.Cache.Coherent.{
  InRange, Honest, Lone, AbsentBut, Absent-AbsentBut, missing-Absent, found-Told, set-Lone,
  copy-Honest, set-Honest, slot_for-AbsentBut, update-ne,
}

-- The device and the cache together stand for the blocks `store`.
pub record Represents {d : Device} (k : Keeps d) (store : ℕ → Bytes) (io : Io d) : Type 0 where
  pub on_device :
      (b : ℕ) → InRange io.partition b → k.content io.disk (io.partition + b * 2) ≡ store b
  pub honest : Honest io.partition store io.cache
  pub lone : Lone io.cache

emptied-Honest :
    (partition : ℕ) (store : ℕ → Bytes) (slots : List Slot)
    → Honest partition store (map emptied slots)
emptied-Honest partition store [] = tt
emptied-Honest partition store (x ∷ xs) = (inl refl, emptied-Honest partition store xs)

emptied-Lone : (slots : List Slot) → Lone (map emptied slots)
emptied-Lone [] = tt
emptied-Lone (x ∷ xs) = (inl refl, emptied-Lone xs)

set-set : (slots : List Slot) (i : ℕ) (s t : Slot) → set (set slots i s) i t ≡ set slots i t
set-set [] i s t = refl
set-set (x ∷ xs) zero s t = refl
set-set (x ∷ xs) (suc i) s t = ap (λ (l : List Slot). x ∷ l) (set-set xs i s t)

pub update-eq :
    (store : ℕ → Bytes) (block : ℕ) (bytes : Bytes) → update store block bytes block ≡ bytes
unfolding update
update-eq store block bytes = ground arith

module _ (d : Device) (k : Keeps d) where
  abbrev volume : Io d → ℕ → Bytes
  volume io b = k.content io.disk (io.partition + b * 2)

  -- After a reset the cache has nothing to say, and the volume is what the device has.
  pub cache_reset-Represents : (io : Io d) → Represents k (volume io) (cache_reset d io)
  unfolding cache_reset
  cache_reset-Represents io = record {
    on_device = λ b range. refl;
    honest = emptied-Honest io.partition (volume io) io.cache;
    lone = emptied-Lone io.cache;
  }

  -- A slot that is filled with what the store has.
  stamped-Represents :
      (store : ℕ → Bytes) (io : Io d) (block i : ℕ) (bytes : Bytes)
      → Represents k store io
      → InRange io.partition block
      → bytes ≡ store block
      → AbsentBut block i io.cache
      → Represents k store (stamped d io i block bytes)
  stamped-Represents store io block i bytes r range e apart = record {
    on_device = r.on_device;
    honest = copy-Honest io.partition store io.cache i _ r.honest (inr (range, e));
    lone = set-Lone io.cache i _ r.lone (inr apart);
  }

  sector-range :
      (io : Io d) (block : ℕ)
      → InRange io.partition block
      → sector_of d io block ≡ io.partition + block * 2
  sector-range io block range = omega arith

  abbrev pub Reads : (ℕ → Bytes) → ℕ → Option Bytes × Io d → Type 0
  Reads store block out = ((out.0 ≡ none) ⊎ (out.0 ≡ some (store block))) × Represents k store out.1

  fetch-Reads :
      (store : ℕ → Bytes) (io : Io d) (block i : ℕ) (got : Option Bytes)
      → Represents k store io
      → InRange io.partition block
      → AbsentBut block i io.cache
      → d.read io.disk (sector_of d io block) 2 ≡ got
      → Reads store block (fetch d io block i got)
  unfolding fetch
  fetch-Reads store io block i none r range apart e = (
    inl refl,
    record {
      on_device = r.on_device;
      honest = copy-Honest io.partition store io.cache i _ r.honest (inl refl);
      lone = set-Lone io.cache i _ r.lone (inl refl);
    },
  )
  fetch-Reads store io block i (some bytes) r range apart e =
      let same : bytes ≡ store block =
        k.read_content io.disk (sector_of d io block) bytes e
        ∙ ap (k.content io.disk) (sector-range io block range)
        ∙ r.on_device block range in
      (inr (ap some same), stamped-Represents store io block i bytes r range same apart)

  read_at-Reads :
      (store : ℕ → Bytes) (io : Io d) (block : ℕ) (found : Option ℕ)
      → Represents k store io
      → InRange io.partition block
      → cache_find block io.cache ≡ found
      → Reads store block (read_at d io block found)
  unfolding read_at
  read_at-Reads store io block none r range e =
      let apart =
        Absent-AbsentBut block (cache_victim io.cache) io.cache (missing-Absent block io.cache e) in
      fetch-Reads store io block (cache_victim io.cache) (d.read io.disk (sector_of d io block) 2) r
        range apart refl
  read_at-Reads store io block (some i) r range e =
      let (same, _, apart) = found-Told io.partition store block i io.cache r.honest r.lone e in
      (inr (ap some same), stamped-Represents store io block i _ r range same apart)

  -- A read gives the block or, if the device fails, nothing, and changes no block.
  pub block_read-Reads :
      (store : ℕ → Bytes) (io : Io d) (block : ℕ)
      → Represents k store io
      → InRange io.partition block
      → Reads store block (block_read d io block)
  unfolding block_read
  block_read-Reads store io block r range =
      read_at-Reads store io block (cache_find block io.cache) r range refl

  abbrev pub Writes : (ℕ → Bytes) → ℕ → Bytes → Bool × Io d → Type 0
  Writes store block bytes out =
      (after : Bytes) × ((out.0 ≡ false) ⊎ (after ≡ bytes))
      × Represents k (update store block after) out.1

  written-on_device :
      (store : ℕ → Bytes) (io : Io d) (block : ℕ) (bytes after : Bytes)
      → Represents k store io
      → InRange io.partition block
      → k.content (d.write io.disk (sector_of d io block) 2 bytes).1 (io.partition + block * 2)
        ≡ after
      → (b : ℕ) → InRange io.partition b
      → k.content (d.write io.disk (sector_of d io block) 2 bytes).1 (io.partition + b * 2)
        ≡ update store block after b
  written-on_device store io block bytes after r range e b range_b =
      elim (Bool-cases (b == block)) [
        | inl y ↦
            let same : b ≡ block = ground arith in rw same (e ∙ sym (update-eq store block after))
        | inr n ↦
            let place = sector-range io block range in
            k.write_apart io.disk (sector_of d io block) bytes (io.partition + b * 2) (ground arith)
            ∙ r.on_device b range_b
            ∙ sym (update-ne store block after b (ground arith))
      ]

  after_write-Writes :
      (store : ℕ → Bytes) (io : Io d) (block i : ℕ) (bytes : Bytes) (ok : Bool)
      → Represents k store io
      → InRange io.partition block
      → AbsentBut block i io.cache
      → (d.write io.disk (sector_of d io block) 2 bytes).0 ≡ ok
      → Writes store block bytes (
          after_write d
            (stamped d io i block bytes)
            i
            (ok, (d.write io.disk (sector_of d io block) 2 bytes).1))
  unfolding after_write
  after_write-Writes store io block i bytes true r range apart e =
      let e' =
        ap (k.content (d.write io.disk (sector_of d io block) 2 bytes).1)
          (sym (sector-range io block range))
        ∙ k.write_content io.disk (sector_of d io block) bytes e in
      (
        bytes,
        inr refl,
        record {
          on_device = written-on_device store io block bytes bytes r range e';
          honest =
              set-Honest io.partition store block bytes io.cache i _ r.honest apart
                (inr (range, sym (update-eq store block bytes)));
          lone = set-Lone io.cache i _ r.lone (inr apart);
        },
      )
  after_write-Writes store io block i bytes false r range apart e =
      let after =
        k.content (d.write io.disk (sector_of d io block) 2 bytes).1 (io.partition + block * 2) in
      (
        after,
        inl refl,
        record {
          on_device = written-on_device store io block bytes after r range refl;
          honest =
              rw (set-set io.cache i)
                (set-Honest io.partition store block after io.cache i _ r.honest apart (inl refl));
          lone = rw (set-set io.cache i) (set-Lone io.cache i _ r.lone (inl refl));
        },
      )

  -- A write puts the block or, if the device fails, leaves something else there; no other block changes.
  pub block_write-Writes :
      (store : ℕ → Bytes) (io : Io d) (block : ℕ) (bytes : Bytes)
      → Represents k store io
      → InRange io.partition block
      → Writes store block bytes (block_write d io block bytes)
  unfolding block_write
  block_write-Writes store io block bytes r range =
      after_write-Writes store io block (slot_for block io.cache) bytes
        (d.write io.disk (sector_of d io block) 2 bytes).0 r range
        (slot_for-AbsentBut io.partition store block io.cache r.honest r.lone) refl
