-- ===== src/Wfs/Files/Contents.antt =====
-- `wfs_read` of kernel/fs/wfs.c, a run of blocks at a time, against the file byte by byte.
use wos.Prelude.{
  ℕ, ◌+◌, ◌-◌, ◌*◌, ◌/◌, ◌%◌, ◌^◌, ◌≤◌, ◌<◌, ◌≡◌, refl, sym, ap, subst, inl, inr, true, false, ◌&&◌,
  leb, ltb, ◌==◌, if◌then◌else◌, arith, Bool-cases,
}
use wos.Wfs.Device.{Device, Bytes, Keeps}
use wos.Wfs.Cache.Coherent.{InRange}
use wos.Wfs.Cache.Represented.{Represents}
use wos.Wfs.Words.{zeroes, copy_into}
use wos.Wfs.Layout.{Inode, block_size}
use wos.Wfs.Volume.{Volume, load}
use wos.Wfs.Volume.Gives.{Gives, Gives-pure, Gives-bind, Gives-if}
use wos.Wfs.Mapping.Found.{block_at}
use wos.Wfs.Files.{Progress, chunk_of, filled, find_block, run_of, load_run, read_round}
use wos.Wfs.Files.Runs.{
  IsPlaced, find_block-Gives, run_of-Gives, load_run-Gives, load-Gives, IsPlaced-after, IsRunAt,
  HoldsRun,
}

-- The byte at the place `i` of a file, from the blocks of the volume.
unfoldable pub file_byte : (ℕ → Bytes) → Inode → (i : ℕ) → ℕ
file_byte blocks node i =
    let block = block_at blocks node (i / block_size) in
    if block == 0 then 0 else blocks block (i % block_size)

module _ {d : Device} (k : Keeps d) (blocks : ℕ → Bytes) (node : Inode) where
  -- The part of the file at `at` has come into the buffer, at least a byte and no more than `left`.
  abbrev pub IsNext : (at left : ℕ) → Progress → Progress → Type 0
  IsNext at left p q =
      (p.done < q.done)
      × (q.done ≤ p.done + left)
      × ((j : ℕ)
          → q.buffer j ≡ (
              if leb p.done j && ltb j q.done
              then file_byte blocks node (at + (j - p.done))
              else p.buffer j))

  filled-IsNext :
      (at left count from : ℕ) (b : Bytes) (p : Progress)
      → 0 < count
      → count ≤ left
      → ((x : ℕ) → x < count → b (from + x) ≡ file_byte blocks node (at + x))
      → IsNext at left p (filled p count b from)
  unfolding copy_into
  filled-IsNext at left count from b p some_bytes enough same = (
    omega arith,
    omega arith,
    λ j. elim (Bool-cases (leb p.done j && ltb j (p.done + count))) [
      | inl y ↦ rw y (same (j - p.done) (ground arith))
      | inr n ↦ rw n refl
    ],
  )

  run_byte :
      (at block left run : ℕ) (b : Bytes)
      → IsRunAt k blocks node at block left run
      → 1 < run
      → HoldsRun k blocks node block run b
      → (x : ℕ) → x < run * block_size
      → b (0 + x) ≡ file_byte blocks node (at + x)
  unfolding file_byte
  run_byte at block left run b (is_run, start) long holds x h =
      let (aligned, solid) = start long in
      let index : (at + x) / block_size ≡ at / block_size + x / block_size = omega arith in
      let rest : (at + x) % block_size ≡ x % block_size = omega arith in
      let split : 0 + x ≡ x / block_size * block_size + x % block_size = omega arith in
      let there : (block + x / block_size == 0) ≡ false = ground (arith, solid) in
      rw (index, rest, is_run.3 (x / block_size) (omega arith), there, split)
        (holds (x / block_size) (x % block_size) (omega arith) (omega arith))

  hole_byte :
      (at left block : ℕ)
      → block ≡ block_at blocks node (at / block_size)
      → (block == 0) ≡ true
      → (x : ℕ) → x < chunk_of at left
      → zeroes (0 + x) ≡ file_byte blocks node (at + x)
  unfolding file_byte
  hole_byte at left block e y x h =
      let index : (at + x) / block_size ≡ at / block_size = omega arith in
      let y' : (block_at blocks node (at / block_size) == 0) ≡ true =
        subst (λ (n : ℕ). (n == 0) ≡ true) e y in
      rw (index, y') refl

  block_byte :
      (at left block : ℕ) (b : Bytes)
      → block ≡ block_at blocks node (at / block_size)
      → (block == 0) ≡ false
      → b ≡ blocks block
      → (x : ℕ) → x < chunk_of at left
      → b (at % block_size + x) ≡ file_byte blocks node (at + x)
  unfolding file_byte
  block_byte at left block b e n same x h =
      let index : (at + x) / block_size ≡ at / block_size = omega arith in
      let rest : (at + x) % block_size ≡ at % block_size + x = omega arith in
      let n' : (block_at blocks node (at / block_size) == 0) ≡ false =
        subst (λ (n : ℕ). (n == 0) ≡ false) e n in
      rw (index, rest, n', same) (ap (λ (n : ℕ). blocks n (at % block_size + x)) e)

  small_block :
      (v : Volume d) (i block : ℕ)
      → IsPlaced blocks node v.io.partition
      → block ≡ block_at blocks node i
      → block < 2 ^ 31
  small_block v i block h e = elim (Bool-cases (block == 0)) [
    | inl y ↦ ground arith
    | inr n ↦ let range = h.contents i (ground arith) in omega (arith, range, e)
  ]

  run_placed :
      (v : Volume d) (at block left run : ℕ)
      → IsPlaced blocks node v.io.partition
      → IsRunAt k blocks node at block left run
      → 1 < run
      → (j : ℕ) → j < run
      → InRange v.io.partition (block + j)
  run_placed v at block left run h (is_run, start) long j l =
      let e = is_run.3 j l in
      let solid = (start long).1 in
      subst (InRange v.io.partition) e (h.contents (at / block_size + j) (ground (arith, solid, e)))

  pub read_round-Gives :
      (at left : ℕ) (p : Progress) (v : Volume d)
      → Represents k blocks v.io
      → IsPlaced blocks node v.io.partition
      → 0 < left
      → Gives k blocks (IsNext at left p) v (read_round node at left p v)
  unfolding read_round
  read_round-Gives at left p v r h more =
      Gives-bind (find_block node (at / block_size)) _ v
        (find_block-Gives k blocks node (at / block_size) v r h)
        (λ block v1 e s1.
          let h1 = IsPlaced-after k blocks node v v1 s1 h in
          Gives-bind (run_of node block (at / block_size) (at % block_size) left) _ v1
            (run_of-Gives k blocks node at block left v1 s1.represents h1
              (small_block v1 (at / block_size) block h1 e) e)
            (λ run v2 is_run s2.
              let h2 = IsPlaced-after k blocks node v1 v2 s2 h1 in
              Gives-if (ltb 1 run) _ _ v2
                (λ y.
                  let long : 1 < run = ground arith in
                  Gives-bind (load_run block run) _ v2
                    (load_run-Gives k blocks node block run v2 s2.represents (is_run.0.1)
                      (run_placed v2 at block left run h2 is_run long))
                    (λ b v3 holds s3. Gives-pure v3 _ s3.represents (
                      filled-IsNext at left (run * block_size) 0 b p (omega arith) (is_run.0.2 long)
                        (run_byte at block left run b is_run long holds))))
                (λ n.
                  Gives-if (block == 0) _ _ v2
                    (λ y. Gives-pure v2 _ s2.represents (
                      filled-IsNext at left (chunk_of at left) 0 zeroes p (omega arith)
                        (omega arith) (hole_byte at left block e y)))
                    (λ m.
                      Gives-bind (load block) _ v2
                        (load-Gives k blocks node block v2 s2.represents (
                          subst (InRange v2.io.partition) (sym e)
                            (h2.contents (at / block_size) (ground (arith, e, m)))))
                        (λ b v3 same s3. Gives-pure v3 _ s3.represents (
                          filled-IsNext at left (chunk_of at left) (at % block_size) b p
                            (omega arith) (omega arith) (block_byte at left block b e m same)))))))
