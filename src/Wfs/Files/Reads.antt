-- ===== src/Wfs/Files/Reads.antt =====
-- `wfs_read` of kernel/fs/wfs.c as a whole: how much it reads, and what.
use wos.Prelude.{
  ℕ, zero, suc, ◌+◌, ◌-◌, ◌%◌, ◌^◌, ◌≤◌, ◌<◌, ◌≡◌, ◌∙◌, inl, inr, true, ◌&&◌, leb, ltb, min,
  if◌then◌else◌, arith,
}
use wos.Wfs.Device.{Device, Bytes, Keeps}
use wos.Wfs.Cache.Represented.{Represents}
use wos.Wfs.Layout.{Inode}
use wos.Wfs.Volume.{Volume}
use wos.Wfs.Volume.Gives.{Gives, Gives-pure, Gives-bind, Gives-if}
use wos.Wfs.Inodes.{wfs_read_inode}
use wos.Wfs.Inodes.Written.{inode_at, IsInTable, wfs_read_inode-ReadsInode}
use wos.Wfs.Files.{Progress, read_round, read_loop, wfs_read}
use wos.Wfs.Files.Runs.{IsPlaced, IsPlaced-after}
use wos.Wfs.Files.Contents.{file_byte, IsNext, read_round-Gives}

module _ {d : Device} (k : Keeps d) (blocks : ℕ → Bytes) (node : Inode) where
  -- All of the file from `offset` on has come into the buffer up to `len`.
  abbrev pub IsRead : (offset len : ℕ) → Progress → Progress → Type 0
  IsRead offset len p q =
      (q.done ≡ len)
      × ((j : ℕ)
          → q.buffer j ≡ (
              if leb p.done j && ltb j len then file_byte blocks node (offset + j) else p.buffer j))

  further-IsRead :
      (offset len : ℕ) (p q r : Progress)
      → p.done < len
      → IsNext k blocks node (offset + p.done) (len - p.done) p q
      → IsRead offset len q r
      → IsRead offset len p r
  further-IsRead offset len p q r more (further, enough, here) (all, there) = (
    all,
    λ j.
        let e : leb p.done j ≡ true → offset + p.done + (j - p.done) ≡ offset + j =
          λ h. ground arith in
        there j ∙ ground (arith, here j, e),
  )

  read_loop-Gives :
      (n offset len : ℕ) (p : Progress) (v : Volume d)
      → Represents k blocks v.io
      → IsPlaced blocks node v.io.partition
      → offset + len < 2 ^ 32
      → p.done ≤ len
      → len < p.done + n
      → Gives k blocks (IsRead offset len p) v (read_loop n node offset len p v)
  unfolding read_loop
  read_loop-Gives zero offset len p v r h small low fuel = absurd (omega arith)
  read_loop-Gives (suc n) offset len p v r h small low fuel =
      Gives-if (ltb p.done len) _ _ v
        (λ y.
          let place : (offset + p.done) % 2 ^ 32 ≡ offset + p.done = ground arith in
          rw place (
            Gives-bind (read_round node (offset + p.done) (len - p.done) p) _ v
              (read_round-Gives k blocks node (offset + p.done) (len - p.done) p v r h
                (ground arith))
              (λ q v' next s.
                let g =
                  read_loop-Gives n offset len q v' s.represents
                    (IsPlaced-after k blocks node v v' s h) small (ground (arith, next.1))
                    (ground (arith, next.0)) in
                record {
                  answer =
                      λ x e. further-IsRead offset len p q x (ground arith) next (g.answer x e);
                  stands = g.stands;
                })))
        (λ m. Gives-pure v p r (ground arith, λ j. ground arith))

module _ {d : Device} (k : Keeps d) (blocks : ℕ → Bytes) where
  read_inode-Gives :
      (ino : ℕ) (v : Volume d)
      → Represents k blocks v.io
      → IsInTable v ino
      → Gives k blocks (λ node. node ≡ inode_at v blocks ino) v (wfs_read_inode ino v)
  read_inode-Gives ino v r h =
      let (answer, stands) = wfs_read_inode-ReadsInode k blocks ino v r h in
      record { answer = λ node e. elim answer [ inl f ↦ absurd cc | inr f ↦ cc ]; stands = stands }

  -- What a read of `len` bytes from `offset` on leaves: as much as there is before the end of the file.
  abbrev pub ReadsFile : Inode → (offset : ℕ) → Bytes → (len : ℕ) → Progress → Type 0
  ReadsFile node offset buf len q =
      (q.done ≡ min len (node.size - offset))
      × ((j : ℕ)
          → q.buffer j ≡ (if ltb j q.done then file_byte blocks node (offset + j) else buf j))

  whole-ReadsFile :
      (node : Inode) (offset : ℕ) (buf : Bytes) (len len' : ℕ) (q : Progress)
      → len' ≡ min len (node.size - offset)
      → IsRead k blocks node offset len' (record { done = 0; buffer = buf }) q
      → ReadsFile node offset buf len q
  whole-ReadsFile node offset buf len len' q e (all, here) =
      (all ∙ e, λ j. here j ∙ ground (arith, all))

  -- On a driver that keeps its promises, for an inode of the table whose blocks have sectors with numbers of
  -- 32 bits, and a range that ends below 2 ^ 32: a read that does not fail reads exactly the bytes from
  -- `offset` on that are asked for and lie before the end of the file, as the tables and the blocks of
  -- the volume have them and with zeroes for the holes, whether a block comes from the cache, from the
  -- device or in a run of blocks at once; the rest of the buffer, the blocks of the volume and all of the
  -- state but the cache and the device stay as they are.
  pub wfs_read-Gives :
      (ino offset len : ℕ) (buf : Bytes) (v : Volume d)
      → Represents k blocks v.io
      → IsInTable v ino
      → IsPlaced blocks (inode_at v blocks ino) v.io.partition
      → offset + len < 2 ^ 32
      → Gives k blocks
          (ReadsFile (inode_at v blocks ino) offset buf len)
          v
          (wfs_read ino offset buf len v)
  unfolding wfs_read
  wfs_read-Gives ino offset len buf v r h placed small =
      Gives-bind (wfs_read_inode ino) _ v (read_inode-Gives ino v r h) (λ node v' e s.
        let node' = inode_at v blocks ino in
        rw e (
          Gives-if (leb node'.size offset) _ _ v'
            (λ y. Gives-pure v' _ s.represents (ground arith, λ j. ground arith))
            (λ n.
              let len' =
                if ltb node'.size ((offset + len) % 2 ^ 32) then node'.size - offset else len in
              let exact : len' ≡ min len (node'.size - offset) = ground arith in
              let g =
                read_loop-Gives k blocks node' (len' + 1) offset len'
                  (record { done = 0; buffer = buf }) v' s.represents
                  (IsPlaced-after k blocks node' v v' s placed) (ground arith) (omega arith)
                  (omega arith) in
              record {
                answer = λ q f. whole-ReadsFile node' offset buf len len' q exact (g.answer q f);
                stands = g.stands;
              })))
