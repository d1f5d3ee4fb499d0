-- ===== src/Wfs/Inodes/Written.antt =====
-- The table of inodes of kernel/fs/wfs.c: `write_inode` against later calls of `wfs_read_inode`.
use wos.Prelude.{
  ℕ, ◌+◌, ◌^◌, ◌<◌, ◌≡◌, ◌≢◌, ◌⊎◌, refl, sym, ap, subst, inl, inr, false, update, ◌==◌,
  if◌then◌else◌, arith, Bool-cases,
}
use wos.Abi.{eio, Result, ok, err}
use wos.Exec.{continue, pure, ◌>>=◌}
use wos.Wfs.Device.{Device, Bytes, Keeps}
use wos.Wfs.Cache.Coherent.{InRange, update-ne}
use wos.Wfs.Cache.Represented.{Represents, update-eq}
use wos.Wfs.Layout.{Inode, get_inode, put_inode}
use wos.Wfs.Layout.RoundTrip.{IsInode, get_inode-put_inode, get_inode-put_inode_apart}
use wos.Wfs.Volume.{Volume, load, store}
use wos.Wfs.Volume.Stored.{Stands, Loads, Stores, load-Loads, store-Stores, Stands-trans}
use wos.Wfs.Inodes.{is_bad, block_of, place_of, wfs_read_inode, write_inode}

module _ {d : Device} where
  -- The inode as the blocks of the volume have it.
  abbrev pub inode_at : Volume d → (ℕ → Bytes) → (ino : ℕ) → Inode
  inode_at v blocks ino = get_inode (blocks (block_of v ino)) (place_of ino)

  -- The table of inodes has an inode of this number, and its block has sectors with numbers of 32 bits.
  abbrev pub IsInTable : Volume d → (ino : ℕ) → Type 0
  IsInTable v ino =
      (0 < ino)
      × (ino < v.sb.total_inodes)
      × (v.sb.inode_start + v.sb.total_inodes < 2 ^ 32)
      × InRange v.io.partition (block_of v ino)

  got_inode : (ino : ℕ) → Result Bytes × Volume d → Result Inode × Volume d
  got_inode ino (ok b, v) = (ok (get_inode b (place_of ino)), v)
  got_inode ino (err e, v) = (err e, v)

  loaded :
      (ino : ℕ) (r : Result Bytes) (v : Volume d)
      → continue r (λ b. pure (get_inode b (place_of ino))) v ≡ got_inode ino (r, v)
  unfolding got_inode ◌>>=◌
  loaded ino (ok b) v = refl
  loaded ino (err e) v = refl

  wfs_read_inode_lem :
      (v : Volume d) (ino : ℕ)
      → is_bad v ino ≡ false
      → wfs_read_inode ino v ≡ got_inode ino (load (block_of v ino) v)
  unfolding wfs_read_inode ◌>>=◌
  wfs_read_inode_lem v ino good = let (r, v') = load (block_of v ino) v in rw good (loaded ino r v')

  stored_inode :
      (ino : ℕ) → Inode → Volume d → Result Bytes × Volume d → Result (Unit {0}) × Volume d
  stored_inode ino node v (ok b, v') = store (block_of v ino) (put_inode b (place_of ino) node) v'
  stored_inode ino node v (err e, v') = (err e, v')

  loaded_then :
      (ino : ℕ) (node : Inode) (v : Volume d) (r : Result Bytes) (v' : Volume d)
      → continue r (λ b. store (block_of v ino) (put_inode b (place_of ino) node)) v'
        ≡ stored_inode ino node v (r, v')
  unfolding stored_inode
  loaded_then ino node v (ok b) v' = refl
  loaded_then ino node v (err e) v' = refl

  write_inode_lem :
      (v : Volume d) (ino : ℕ) (node : Inode)
      → is_bad v ino ≡ false
      → write_inode ino node v ≡ stored_inode ino node v (load (block_of v ino) v)
  unfolding write_inode ◌>>=◌
  write_inode_lem v ino node good =
      let (r, v') = load (block_of v ino) v in rw good (loaded_then ino node v r v')

  module _ (k : Keeps d) where
    -- What a read of the inode can give.
    abbrev pub ReadsInode : (ℕ → Bytes) → (ino : ℕ) → Volume d → Result Inode × Volume d → Type 0
    ReadsInode blocks ino v out =
        ((out.0 ≡ err eio) ⊎ (out.0 ≡ ok (inode_at v blocks ino))) × Stands k blocks v out.1

    got_inode-ReadsInode :
        (blocks : ℕ → Bytes) (ino : ℕ) (v : Volume d) (out : Result Bytes × Volume d)
        → Loads k blocks (block_of v ino) v out
        → ReadsInode blocks ino v (got_inode ino out)
    unfolding got_inode
    got_inode-ReadsInode blocks ino v (ok b, v') (inl e, s) = absurd cc
    got_inode-ReadsInode blocks ino v (ok b, v') (inr e, s) =
        let same : b ≡ blocks (block_of v ino) = cc in
        (inr (ap (λ (x : Bytes). ok (get_inode x (place_of ino))) same), s)
    got_inode-ReadsInode blocks ino v (err e, v') (inl i, s) = (inl cc, s)
    got_inode-ReadsInode blocks ino v (err e, v') (inr i, s) = absurd cc

    good_ino : (v : Volume d) (ino : ℕ) → IsInTable v ino → is_bad v ino ≡ false
    good_ino v ino h = ground (arith, h.0, h.1)

    pub wfs_read_inode-ReadsInode :
        (blocks : ℕ → Bytes) (ino : ℕ) (v : Volume d)
        → Represents k blocks v.io
        → IsInTable v ino
        → ReadsInode blocks ino v (wfs_read_inode ino v)
    wfs_read_inode-ReadsInode blocks ino v r h =
        rw (wfs_read_inode_lem v ino (good_ino v ino h))
          (got_inode-ReadsInode blocks ino v _ (load-Loads k blocks (block_of v ino) v r h.3))

    -- What a write of the inode does to the table.
    pub record Written (blocks : ℕ → Bytes) (ino : ℕ) (node : Inode) (v : Volume d)
        (out : Result (Unit {0}) × Volume d) : Type 0 where
      pub after : ℕ → Bytes
      pub stands : Stands k after v out.1
      pub apart : (n : ℕ) → n ≢ block_of v ino → after n ≡ blocks n
      pub outcome :
          (out.0 ≡ err eio)
          ⊎ ((out.0 ≡ ok tt)
              × ((other : ℕ)
                  → IsInTable v other
                  → inode_at v after other
                    ≡ (if other == ino then node else inode_at v blocks other)))

    table_after :
        (blocks : ℕ → Bytes) (ino : ℕ) (node : Inode) (v : Volume d) (left : Bytes)
        → IsInode node
        → IsInTable v ino
        → left ≡ put_inode (blocks (block_of v ino)) (place_of ino) node
        → (other : ℕ) → IsInTable v other
        → inode_at v (update blocks (block_of v ino) left) other
          ≡ (if other == ino then node else inode_at v blocks other)
    table_after blocks ino node v left w h e other h' = elim (Bool-cases (other == ino)) [
      | inl y ↦
          let same : other ≡ ino = ground arith in
          rw (y, same, update-eq blocks (block_of v ino) left, e)
            (get_inode-put_inode (blocks (block_of v ino)) (place_of ino) node w)
      | inr n ↦ rw n (elim (Bool-cases (block_of v other == block_of v ino)) [
        | inl y ↦
            let same : block_of v other ≡ block_of v ino = ground arith in
            rw (same, update-eq blocks (block_of v ino) left, e)
              (get_inode-put_inode_apart (blocks (block_of v ino)) (place_of ino) (place_of other)
                node w (ground (arith, h.1, h.2, h'.1)))
        | inr m ↦ rw (update-ne blocks (block_of v ino) left (block_of v other) (ground arith)) refl
      ])
    ]

    stored-Written :
        (blocks : ℕ → Bytes) (ino : ℕ) (node : Inode) (v v' : Volume d)
        (out : Result (Unit {0}) × Volume d)
        → IsInode node
        → IsInTable v ino
        → Stands k blocks v v'
        → Stores k blocks
            (block_of v ino)
            (put_inode (blocks (block_of v ino)) (place_of ino) node)
            v'
            out
        → Written blocks ino node v out
    stored-Written blocks ino node v v' out w h s t = record {
      after = update blocks (block_of v ino) t.left;
      stands = Stands-trans k s t.stands;
      apart = update-ne blocks (block_of v ino) t.left;
      outcome = elim t.outcome [
        | inl e ↦ inl e
        | inr (e, same) ↦ inr (e, table_after blocks ino node v t.left w h same)
      ];
    }

    stored_inode-Written :
        (blocks : ℕ → Bytes) (ino : ℕ) (node : Inode) (v : Volume d) (out : Result Bytes × Volume d)
        → IsInode node
        → IsInTable v ino
        → Loads k blocks (block_of v ino) v out
        → Written blocks ino node v (stored_inode ino node v out)
    unfolding stored_inode
    stored_inode-Written blocks ino node v (err e, v') w h (inl i, s) = record {
      after = blocks;
      stands = s;
      apart = λ n m. refl;
      outcome = inl cc;
    }
    stored_inode-Written blocks ino node v (err e, v') w h (inr i, s) = absurd cc
    stored_inode-Written blocks ino node v (ok b, v') w h (inl i, s) = absurd cc
    stored_inode-Written blocks ino node v (ok b, v') w h (inr i, s) =
        let same : b ≡ blocks (block_of v ino) = cc in
        let range = subst (λ (p : ℕ). InRange p (block_of v ino)) (sym s.same_partition) h.3 in
        rw same (
          stored-Written blocks ino node v v' _ w h s
            (store-Stores k blocks (block_of v ino) _ v' s.represents range))

    -- On a driver that keeps its promises, a write of an inode of the table either fails with -W_EIO or
    -- leaves the table as it was but for that inode, which is then the one written, whatever else is in its
    -- block; and either way no other block of the volume, and nothing else of the state but the cache
    -- and the device, has changed.
    pub write_inode-Written :
        (blocks : ℕ → Bytes) (ino : ℕ) (node : Inode) (v : Volume d)
        → Represents k blocks v.io
        → IsInode node
        → IsInTable v ino
        → Written blocks ino node v (write_inode ino node v)
    write_inode-Written blocks ino node v r w h =
        rw (write_inode_lem v ino node (good_ino v ino h)) (
          stored_inode-Written blocks ino node v _ w h
            (load-Loads k blocks (block_of v ino) v r h.3))
