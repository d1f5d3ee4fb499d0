-- ===== src/Wfs/Files/WriteBack.antt =====
-- `wfs_write` of kernel/fs/wfs.c as a whole, into blocks that are there: what the file has afterwards.
use wos.Prelude.{
  ℕ, ◌+◌, ◌-◌, ◌/◌, ◌%◌, ◌^◌, ◌≤◌, ◌<◌, ◌≡◌, ◌≢◌, ◌⊎◌, refl, sym, ap, subst, ◌∙◌, inl, inr, true,
  false, ltb, Option, ◌==◌, if◌then◌else◌, arith, Bool-cases,
}
use wos.Abi.{Error, eio, efbig, Result, ok, err}
use wos.Exec.{continue, raise, ◌>>=◌}
use wos.Wfs.Device.{Device, Bytes, Keeps}
use wos.Wfs.Cache.Represented.{Represents}
use wos.Wfs.Cache.Coherent.{InRange}
use wos.Wfs.Layout.{Inode, block_size, max_file_size}
use wos.Wfs.Layout.RoundTrip.{IsInode}
use wos.Wfs.Volume.{Volume}
use wos.Wfs.Volume.Stored.{Stands, Stands-trans}
use wos.Wfs.Inodes.{wfs_read_inode, write_inode, block_of}
use wos.Wfs.Inodes.Written.{inode_at, IsInTable, write_inode-Written, wfs_read_inode-ReadsInode}
use wos.Wfs.Mapping.{Mapping}
use wos.Wfs.Mapping.Found.{block_at}
use wos.Wfs.Files.{with_node, write_loop, finish_write, write_all, wfs_write}
use wos.Wfs.Files.Runs.{IsPlaced}
use wos.Wfs.Files.Updated.{IsApart, Updated, unchanged-Updated}
use wos.Wfs.Files.Writes.{At}
use wos.Wfs.Files.WriteLoop.{LoopAt, write_loop-At}
use wos.Wfs.Files.WriteEnd.{grown_node, result_is, finish_result, finish_lem}
use wos.Wfs.Files.Outside.{IsOutside, HasNew, outside-HasNew}

module _ {d : Device} (k : Keeps d) where
  Stands-IsInTable :
      (blocks : ℕ → Bytes) (v v' : Volume d) (ino : ℕ)
      → Stands k blocks v v'
      → IsInTable v ino
      → IsInTable v' ino
  Stands-IsInTable blocks v v' ino s h =
      let moved : IsInTable (record v { io = v'.io }) ino =
        (h.0, h.1, h.2, subst (λ (p : ℕ). InRange p (block_of v ino)) (sym s.same_partition) h.3) in
      subst (λ (x : Volume d). IsInTable x ino) (sym s.rest) moved

  -- What a write of `n` bytes has done: the bytes are in the file and its other bytes have not changed;
  -- and the inode has its new size and time, unless the write of the inode failed, which is the last thing
  -- that the call did: from a volume `u` that differs from `v` in the cache and the device only.
  pub record Wrote (blocks : ℕ → Bytes) (ino offset : ℕ) (src : Bytes) (v : Volume d) (n : ℕ)
      (v' : Volume d) : Type 0 where
    pub after : ℕ → Bytes
    pub represents : Represents k after v'.io
    pub has_new : HasNew blocks (inode_at v blocks ino) src offset n after
    pub inode :
        (inode_at v after ino ≡ grown_node v.now offset n (inode_at v blocks ino))
        ⊎ ((u : Volume d) × (cur : ℕ → Bytes) × Stands k cur v u
            × ((write_inode ino (grown_node v.now offset n (inode_at v blocks ino)) u).0 ≡ err eio)
            × (v' ≡ (write_inode ino (grown_node v.now offset n (inode_at v blocks ino)) u).1))

  grown-IsInode :
      (now offset n : ℕ) (node : Inode)
      → IsInode node
      → now < 2 ^ 32
      → offset + n < 2 ^ 32
      → IsInode (grown_node now offset n node)
  grown-IsInode now offset n node h time small = record {
    type_fits = h.type_fits;
    links_fit = h.links_fit;
    size_fits = ground (arith, h.size_fits);
    blocks_fit = h.blocks_fit;
    mtime_fits = time;
    direct_fit = h.direct_fit;
    ten_direct = h.ten_direct;
    indirect_fits = h.indirect_fits;
    double_fits = h.double_fits;
  }

  -- What the write needs of the volume and the file: the blocks for the bytes are there, and no block
  -- of the file or of its tables serves twice.
  pub record CanWrite (blocks : ℕ → Bytes) (ino offset len : ℕ) (v : Volume d) : Type 0 where
    pub in_table : IsInTable v ino
    pub is_inode : IsInode (inode_at v blocks ino)
    pub placed : IsPlaced blocks (inode_at v blocks ino) v.io.partition
    pub apart : IsApart blocks (inode_at v blocks ino)
    pub outside : IsOutside blocks (inode_at v blocks ino) (block_of v ino)
    pub there :
        (i : ℕ) → i < len → block_at blocks (inode_at v blocks ino) ((offset + i) / block_size) ≢ 0
    pub small : offset + len < 2 ^ 32
    pub time : v.now < 2 ^ 32

  range_there :
      (blocks : ℕ → Bytes) (ino offset len n : ℕ) (v : Volume d)
      → CanWrite blocks ino offset len v
      → n ≤ len
      → (i : ℕ) → offset ≤ i
      → i < offset + n
      → block_at blocks (inode_at v blocks ino) (i / block_size) ≢ 0
  range_there blocks ino offset len n v c high i low below =
      let at : offset + (i - offset) ≡ i = omega arith in
      subst (λ (j : ℕ). block_at blocks (inode_at v blocks ino) (j / block_size) ≢ 0) at
        (c.there (i - offset) (omega arith))

  finished-Wrote :
      (blocks cur : ℕ → Bytes) (ino offset len n : ℕ) (src : Bytes) (v : Volume d) (s : Mapping d)
      → CanWrite blocks ino offset len v
      → n ≤ len
      → Stands k cur v s.volume
      → s.node ≡ inode_at v blocks ino
      → Updated blocks (inode_at v blocks ino) src offset cur n
      → Wrote blocks ino offset src v n
          (write_inode ino (grown_node s.volume.now offset n s.node) s.volume).1
  finished-Wrote blocks cur ino offset len n src v s c high st e u =
      let node = inode_at v blocks ino in
      let now : s.volume.now ≡ v.now = ap (λ (x : Volume d). x.now) st.rest in
      let block : block_of s.volume ino ≡ block_of v ino =
        ap (λ (x : Volume d). block_of x ino) st.rest in
      let table = Stands-IsInTable cur v s.volume ino st c.in_table in
      let fits = grown-IsInode v.now offset n node c.is_inode c.time (omega (arith, c.small)) in
      let w =
        write_inode-Written k cur ino (grown_node v.now offset n node) s.volume st.represents fits
          table in
      let same : grown_node s.volume.now offset n s.node ≡ grown_node v.now offset n node =
        ap (λ (t : ℕ). grown_node t offset n s.node) now ∙ ap (grown_node v.now offset n) e in
      let table_of : inode_at s.volume w.after ino ≡ inode_at v w.after ino =
        ap (λ (x : Volume d). inode_at x w.after ino) st.rest in
      let this : (ino == ino) ≡ true = ground arith in
      subst (λ (g : Inode). Wrote blocks ino offset src v n (write_inode ino g s.volume).1)
        (sym same)
        (record {
          after = w.after;
          represents = w.stands.represents;
          has_new =
              outside-HasNew blocks node src offset cur w.after n (block_of v ino) c.apart c.outside
                u (λ b h. w.apart b (λ f. h (f ∙ block)))
                (range_there blocks ino offset len n v c high);
          inode = elim w.outcome [
            | inl lost ↦ inr (s.volume, cur, st, lost, refl)
            | inr (fine, all) ↦ inl (sym table_of ∙ all ino table ∙ rw this refl)
          ];
        })

  ended-Wrote :
      (blocks cur : ℕ → Bytes) (ino offset len n m : ℕ) (src : Bytes) (v v1 : Volume d)
      (o : Option Error) (s : Mapping d)
      → CanWrite blocks ino offset len v
      → 0 < n
      → Stands k blocks v v1
      → m ≤ len
      → At k blocks (inode_at v blocks ino) src offset v1 cur m s
      → (finish_write ino offset len (m, o) s).0 ≡ ok n
      → (n ≤ len) × Wrote blocks ino offset src v n (finish_write ino offset len (m, o) s).1.volume
  ended-Wrote blocks cur ino offset len n m src v v1 o s c some_bytes st high a f =
      elim (Bool-cases (ltb 0 m)) [
        | inr nothing ↦
            let same : m ≡ n = result_is m len n o (sym (finish_result ino offset len m o s) ∙ f) in
            absurd (ground arith)
        | inl y ↦
            let fin = finish_lem ino offset len m o s (ground arith) (omega (arith, c.small)) in
            let same : m ≡ n = result_is m len n o (sym fin.0 ∙ f) in
            let high' : n ≤ len = omega arith in
            (
              high',
              subst (Wrote blocks ino offset src v n) (sym fin.1) (
                  subst
                    (λ (i : ℕ).
                      Wrote blocks ino offset src v n
                        (write_inode ino (grown_node s.volume.now offset i s.node) s.volume).1)
                    (sym same)
                    (finished-Wrote blocks cur ino offset len n src v s c high'
                      (Stands-trans k st a.stands) a.same_node
                      (subst (Updated blocks (inode_at v blocks ino) src offset cur) same
                        a.updated))),
            )
      ]

  looped-Wrote :
      (blocks : ℕ → Bytes) (ino offset len n : ℕ) (src : Bytes) (v v1 : Volume d)
      (loop : Result (ℕ × Option Error) × Mapping d)
      → CanWrite blocks ino offset len v
      → 0 < n
      → Stands k blocks v v1
      → LoopAt k blocks (inode_at v blocks ino) src offset v1 0 len loop
      → (continue loop.0 (finish_write ino offset len) loop.1).0 ≡ ok n
      → (n ≤ len)
        × Wrote blocks ino offset src v n
            (continue loop.0 (finish_write ino offset len) loop.1).1.volume
  looped-Wrote blocks ino offset len n src v v1 (err e, s) c some_bytes st l f = absurd cc
  looped-Wrote blocks ino offset len n src v v1 (ok (m, o), s) c some_bytes st l f =
      let (low, high, (cur, a)) = l m o refl in
      ended-Wrote blocks cur ino offset len n m src v v1 o s c some_bytes st high a f

  written :
      (blocks : ℕ → Bytes) (ino offset len n : ℕ) (src : Bytes) (v v1 : Volume d)
      → CanWrite blocks ino offset len v
      → 0 < n
      → Stands k blocks v v1
      → (with_node (inode_at v blocks ino) (write_all ino offset src len) v1).0 ≡ ok n
      → (n ≤ len)
        × Wrote blocks ino offset src v n
            (with_node (inode_at v blocks ino) (write_all ino offset src len) v1).1
  unfolding with_node write_all ◌>>=◌
  written blocks ino offset len n src v v1 c some_bytes st f =
      let node = inode_at v blocks ino in
      let s1 : Mapping d = record { volume = v1; node = node; dirty = false } in
      let begun : At k blocks node src offset v1 blocks 0 s1 = record {
        stands = record { represents = st.represents; same_partition = refl; rest = refl };
        same_node = refl;
        updated = unchanged-Updated blocks node src offset;
      } in
      let placed = subst (IsPlaced blocks node) (sym st.same_partition) c.placed in
      let l =
        write_loop-At k blocks node src offset v1 (len + 1) len blocks 0 s1 placed c.apart c.there
          c.small (omega arith) begun in
      looped-Wrote blocks ino offset len n src v v1 (write_loop (len + 1) offset len 0 src s1) c
        some_bytes st l f

  guarded :
      (blocks : ℕ → Bytes) (ino offset len n : ℕ) (src : Bytes) (v : Volume d)
      (out : Result Inode × Volume d)
      → CanWrite blocks ino offset len v
      → 0 < n
      → (out.0 ≡ err eio) ⊎ (out.0 ≡ ok (inode_at v blocks ino))
      → Stands k blocks v out.1
      → (continue out.0
          (λ node.
            if ltb max_file_size ((offset + len) % 2 ^ 32)
            then raise efbig
            else with_node node (write_all ino offset src len))
          out.1).0
        ≡ ok n
      → (n ≤ len)
        × Wrote blocks ino offset src v n
            (continue out.0
              (λ node.
                if ltb max_file_size ((offset + len) % 2 ^ 32)
                then raise efbig
                else with_node node (write_all ino offset src len))
              out.1).1
  unfolding ◌>>=◌
  guarded blocks ino offset len n src v (err e, v1) c some_bytes r st = λ f. absurd cc
  guarded blocks ino offset len n src v (ok node, v1) c some_bytes (inl r) st = λ f. absurd cc
  guarded blocks ino offset len n src v (ok node, v1) c some_bytes (inr r) st =
      let same : node ≡ inode_at v blocks ino = cc in
      rw same (elim (Bool-cases (ltb max_file_size ((offset + len) % 2 ^ 32))) [
        | inl y ↦ rw y (λ f. absurd cc)
        | inr m ↦ rw m (written blocks ino offset len n src v v1 c some_bytes st)
      ])

  -- On a driver that keeps its promises, for a file whose blocks and tables are all different ones, and a
  -- range for which the blocks are there: a write that returns a number of at least 1 returns no more
  -- than was asked for, and afterwards the file has these bytes of the source from the offset on and
  -- all its other bytes as before, those of its holes included; its inode has the later end as its size and
  -- the time of the clock, unless the write of the inode at the end of the call failed.
  pub wfs_write-Wrote :
      (blocks : ℕ → Bytes) (ino offset len n : ℕ) (src : Bytes) (v : Volume d)
      → Represents k blocks v.io
      → CanWrite blocks ino offset len v
      → 0 < n
      → (wfs_write ino offset src len v).0 ≡ ok n
      → (n ≤ len) × Wrote blocks ino offset src v n (wfs_write ino offset src len v).1
  unfolding wfs_write ◌>>=◌
  wfs_write-Wrote blocks ino offset len n src v r c some_bytes f =
      let (answer, st) = wfs_read_inode-ReadsInode k blocks ino v r c.in_table in
      guarded blocks ino offset len n src v (wfs_read_inode ino v) c some_bytes answer st f
