-- ===== src/Wfs/Volume/Stored.antt =====
-- What `block_read` and `block_write` of kernel/fs/wfs.c mean to their callers: the blocks of the
-- volume.
use wos.Prelude.{
  ℕ, ◌≡◌, ◌⊎◌, refl, ap, ◌∙◌, inl, inr, Bool, true, false, Option, none, some, update,
}
use wos.Abi.{eio, Result, ok, err}
use wos.Wfs.Device.{Device, Bytes, Keeps}
use wos.Wfs.Cache.{Io, block_read, block_write}
use wos.Wfs.Cache.Coherent.{InRange}
use wos.Wfs.Cache.Represented.{Represents, Reads, Writes, block_read-Reads, block_write-Writes}
use wos.Wfs.Cache.Refines.{block_read-partition, block_write-partition}
use wos.Wfs.Volume.{Volume, load, store, or_eio, done_or_eio}

-- The blocks are these, and nothing but the cache and the device has changed since `v`.
pub record Stands {d : Device} (k : Keeps d) (blocks : ℕ → Bytes) (v v' : Volume d) : Type 0 where
  pub represents : Represents k blocks v'.io
  pub same_partition : v'.io.partition ≡ v.io.partition
  pub rest : v' ≡ record v { io = v'.io }

module _ {d : Device} (k : Keeps d) where
  abbrev pub Loads : (ℕ → Bytes) → (block : ℕ) → Volume d → Result Bytes × Volume d → Type 0
  Loads blocks block v out =
      ((out.0 ≡ err eio) ⊎ (out.0 ≡ ok (blocks block))) × Stands k blocks v out.1

  or_eio-Loads :
      (blocks : ℕ → Bytes) (block : ℕ) (v : Volume d) (out : Option Bytes × Io d)
      → Reads d k blocks block out
      → out.1.partition ≡ v.io.partition
      → Loads blocks block v (or_eio out v)
  or_eio-Loads blocks block v (none, io) (a, r) p =
      (inl refl, record { represents = r; same_partition = p; rest = refl })
  or_eio-Loads blocks block v (some b, io) (inl e, r) p = absurd cc
  or_eio-Loads blocks block v (some b, io) (inr e, r) p =
      let same : b ≡ blocks block = cc in
      (inr (ap ok same), record { represents = r; same_partition = p; rest = refl })

  -- A block is read as it is stored, or the device has failed.
  pub load-Loads :
      (blocks : ℕ → Bytes) (block : ℕ) (v : Volume d)
      → Represents k blocks v.io
      → InRange v.io.partition block
      → Loads blocks block v (load block v)
  unfolding load
  load-Loads blocks block v r range =
      or_eio-Loads blocks block v (block_read d v.io block)
        (block_read-Reads d k blocks v.io block r range) (block_read-partition d v.io block)

  -- `left` is in the block after a write.
  pub record Stores (blocks : ℕ → Bytes) (block : ℕ) (b : Bytes) (v : Volume d)
      (out : Result (Unit {0}) × Volume d) : Type 0 where
    pub left : Bytes
    pub outcome : ((out.0 ≡ err eio)) ⊎ ((out.0 ≡ ok tt) × (left ≡ b))
    pub stands : Stands k (update blocks block left) v out.1

  done_or_eio-Stores :
      (blocks : ℕ → Bytes) (block : ℕ) (b : Bytes) (v : Volume d) (out : Bool × Io d)
      → Writes d k blocks block b out
      → out.1.partition ≡ v.io.partition
      → Stores blocks block b v (done_or_eio out v)
  done_or_eio-Stores blocks block b v (false, io) (left, a, r) p = record {
    left = left;
    outcome = inl refl;
    stands = record { represents = r; same_partition = p; rest = refl };
  }
  done_or_eio-Stores blocks block b v (true, io) (left, inl e, r) p = absurd cc
  done_or_eio-Stores blocks block b v (true, io) (left, inr e, r) p = record {
    left = left;
    outcome = inr (refl, e);
    stands = record { represents = r; same_partition = p; rest = refl };
  }

  -- A write changes one block, to what is written or, if the device fails, to anything.
  pub store-Stores :
      (blocks : ℕ → Bytes) (block : ℕ) (b : Bytes) (v : Volume d)
      → Represents k blocks v.io
      → InRange v.io.partition block
      → Stores blocks block b v (store block b v)
  unfolding store
  store-Stores blocks block b v r range =
      done_or_eio-Stores blocks block b v (block_write d v.io block b)
        (block_write-Writes d k blocks v.io block b r range) (block_write-partition d v.io block b)

  pub Stands-trans :
      {before after : ℕ → Bytes} {u v w : Volume d}
      → Stands k before u v
      → Stands k after v w
      → Stands k after u w
  Stands-trans {u} {v} {w} s t = record {
    represents = t.represents;
    same_partition = t.same_partition ∙ s.same_partition;
    rest = t.rest ∙ ap (λ (x : Volume d). record x { io = w.io }) s.rest;
  }
