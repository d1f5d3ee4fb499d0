-- ===== src/Wfs/Files/Runs.antt =====
-- How `wfs_read` of kernel/fs/wfs.c finds and loads the blocks of a file, one or a run of them.
use wos.Prelude.{
  ℕ, zero, suc, ◌+◌, ◌*◌, ◌/◌, ◌%◌, ◌^◌, ◌≤◌, ◌<◌, ◌≡◌, ◌≢◌, refl, sym, ap, subst, ◌∙◌, inl, inr,
  true, false, not, ◌&&◌, leb, ltb, Option, none, some, ◌==◌, arith, Bool-cases,
}
use wos.Abi.{Result, ok, err}
use wos.Exec.{attempt}
use wos.Wfs.Device.{Device, Bytes, Keeps}
use wos.Wfs.Cache.{blocks_read, sector_of}
use wos.Wfs.Cache.Coherent.{InRange}
use wos.Wfs.Cache.Represented.{Represents}
use wos.Wfs.Layout.{Inode, block_size}
use wos.Wfs.Volume.{Volume, load}
use wos.Wfs.Volume.Stored.{Stands, load-Loads}
use wos.Wfs.Volume.Gives.{Gives, Gives-pure, Gives-bind, Gives-attempt, Gives-if}
use wos.Wfs.Mapping.Found.{block_at, HasTables, bmap-Finds}
use wos.Wfs.Files.{
  follows, or_failed, read_run_blocks, with_node, find_block, run_from, run_of, load_run,
}

-- The tables and the blocks of the file have sectors with numbers of 32 bits.
pub record IsPlaced (blocks : ℕ → Bytes) (node : Inode) (partition : ℕ) : Type 0 where
  pub tables : HasTables blocks node partition
  pub contents : (i : ℕ) → block_at blocks node i ≢ 0 → InRange partition (block_at blocks node i)

module _ {d : Device} (k : Keeps d) (blocks : ℕ → Bytes) (node : Inode) where
  pub find_block-Gives :
      (i : ℕ) (v : Volume d)
      → Represents k blocks v.io
      → IsPlaced blocks node v.io.partition
      → Gives k blocks (λ b. b ≡ block_at blocks node i) v (find_block node i v)
  unfolding find_block with_node
  find_block-Gives i v r h =
      let f =
        bmap-Finds k blocks i (record { volume = v; node = node; dirty = false }) r h.tables in
      record { answer = f.answer; stands = f.stands }

  -- From `index` on, so many blocks of the file lie one after the other on the volume, from `block` on.
  abbrev pub IsRun : (block index left run : ℕ) → Type 0
  IsRun block index left run =
      (1 ≤ run)
      × (run ≤ read_run_blocks)
      × (1 < run → run * block_size ≤ left)
      × ((j : ℕ) → j < run → block_at blocks node (index + j) ≡ block + j)

  pub IsPlaced-after :
      (v v' : Volume d)
      → Stands k blocks v v'
      → IsPlaced blocks node v.io.partition
      → IsPlaced blocks node v'.io.partition
  IsPlaced-after v v' s h = subst (IsPlaced blocks node) (sym s.same_partition) h

  longer-IsRun :
      (block index left run : ℕ)
      → IsRun block index left run
      → run < read_run_blocks
      → (run + 1) * block_size ≤ left
      → block_at blocks node (index + run) ≡ block + run
      → IsRun block index left (run + 1)
  longer-IsRun block index left run (low, high, fits, run_on) h fits' e = (
    omega arith,
    omega arith,
    λ _. fits',
    λ j l. elim (Bool-cases (j == run)) [
      | inl y ↦ let same : j ≡ run = ground arith in rw same e
      | inr n ↦ run_on j (ground arith)
    ],
  )

  followed :
      (block index run : ℕ) (res : Result ℕ)
      → block < 2 ^ 31
      → run ≤ read_run_blocks
      → ((b : ℕ) → res ≡ ok b → b ≡ block_at blocks node (index + run))
      → follows res ((block + run) % 2 ^ 32) ≡ true
      → block_at blocks node (index + run) ≡ block + run
  followed block index run (err e) small high q f = absurd cc
  followed block index run (ok b) small high q f = let e = q b refl in ground arith

  run_from-Gives :
      (n block index run left : ℕ) (v : Volume d)
      → Represents k blocks v.io
      → IsPlaced blocks node v.io.partition
      → block < 2 ^ 31
      → IsRun block index left run
      → Gives k blocks (IsRun block index left) v (run_from n node block index run left v)
  unfolding run_from
  run_from-Gives zero block index run left v r h small is_run = Gives-pure v run r is_run
  run_from-Gives (suc n) block index run left v r h small is_run =
      Gives-if (ltb run read_run_blocks && leb ((run + 1) * block_size) left) _ _ v
        (λ y.
          Gives-bind (attempt (find_block node (index + run))) _ v
            (Gives-attempt (find_block node (index + run)) v (find_block-Gives (index + run) v r h))
            (λ res v' q s.
              Gives-if (follows res ((block + run) % 2 ^ 32)) _ _ v'
                (λ f.
                  run_from-Gives n block index (run + 1) left v' s.represents
                    (IsPlaced-after v v' s h) small
                    (longer-IsRun block index left run is_run (ground arith) (ground arith)
                      (followed block index run res small (ground (arith, is_run.1)) q f)))
                (λ f. Gives-pure v' run s.represents is_run)))
        (λ m. Gives-pure v run r is_run)

  -- What is known of the run at a place of the file.
  abbrev pub IsRunAt : (at block left run : ℕ) → Type 0
  IsRunAt at block left run =
      IsRun block (at / block_size) left run × (1 < run → (at % block_size ≡ 0) × (block ≢ 0))

  one_block :
      (at block left : ℕ) → block ≡ block_at blocks node (at / block_size) → IsRunAt at block left 1
  one_block at block left e = (
    (
      omega arith,
      omega arith,
      λ h. absurd (omega arith),
      λ j h.
          let first : j ≡ 0 = omega arith in
          let here : at / block_size + 0 ≡ at / block_size = omega arith in
          rw (first, here) (omega (arith, e)),
    ),
    λ h. absurd (omega arith),
  )

  pub run_of-Gives :
      (at block left : ℕ) (v : Volume d)
      → Represents k blocks v.io
      → IsPlaced blocks node v.io.partition
      → block < 2 ^ 31
      → block ≡ block_at blocks node (at / block_size)
      → Gives k blocks
          (IsRunAt at block left)
          v
          (run_of node block (at / block_size) (at % block_size) left v)
  unfolding run_of
  run_of-Gives at block left v r h small e =
      Gives-if ((at % block_size == 0) && not (block == 0) && leb block_size left) _ _ v
        (λ y.
          let g =
            run_from-Gives read_run_blocks block (at / block_size) 1 left v r h small
              (one_block at block left e).0 in
          record {
            answer = λ run q. (g.answer run q, λ _. (ground arith, ground arith));
            stands = g.stands;
          })
        (λ m. Gives-pure v 1 r (one_block at block left e))

  -- The blocks of a run, in the order of the file.
  abbrev pub HoldsRun : (first count : ℕ) → Bytes → Type 0
  HoldsRun first count b =
      (j i : ℕ) → j < count → i < block_size → b (j * block_size + i) ≡ blocks (first + j) i

  read_run-holds :
      (first count : ℕ) (v : Volume d) (b : Bytes)
      → Represents k blocks v.io
      → count ≤ read_run_blocks
      → ((j : ℕ) → j < count → InRange v.io.partition (first + j))
      → d.read v.io.disk (sector_of d v.io first) (count * 2 % 256) ≡ some b
      → HoldsRun first count b
  read_run-holds first count v b r short range e j i h l =
      let whole : count * 2 % 256 ≡ count * 2 = omega arith in
      let e' : d.read v.io.disk (sector_of d v.io first) (count * 2) ≡ some b =
        subst (λ (n : ℕ). d.read v.io.disk (sector_of d v.io first) n ≡ some b) whole e in
      let place : sector_of d v.io first + j * 2 ≡ v.io.partition + (first + j) * 2 =
        omega (arith, range j h) in
      k.read_run v.io.disk (sector_of d v.io first) count b e' j i h l
      ∙ ap (λ (n : ℕ). k.content v.io.disk n i) place
      ∙ ap (λ (c : Bytes). c i) (r.on_device (first + j) (range j h))

  or_failed-some : (o : Option Bytes) (b : Bytes) → or_failed o ≡ ok b → o ≡ some b
  or_failed-some none b e = absurd cc
  or_failed-some (some a) b e = let same : a ≡ b = cc in ap some same

  pub load_run-Gives :
      (first count : ℕ) (v : Volume d)
      → Represents k blocks v.io
      → count ≤ read_run_blocks
      → ((j : ℕ) → j < count → InRange v.io.partition (first + j))
      → Gives k blocks (HoldsRun first count) v (load_run first count v)
  unfolding load_run blocks_read
  load_run-Gives first count v r short range = record {
    answer = λ b e. read_run-holds first count v b r short range (or_failed-some _ b e);
    stands = record { represents = r; same_partition = refl; rest = refl };
  }

  pub load-Gives :
      (block : ℕ) (v : Volume d)
      → Represents k blocks v.io
      → InRange v.io.partition block
      → Gives k blocks (λ b. b ≡ blocks block) v (load block v)
  load-Gives block v r range =
      let (answer, stands) = load-Loads k blocks block v r range in
      record { answer = λ b e. elim answer [ inl f ↦ absurd cc | inr f ↦ cc ]; stands = stands }
