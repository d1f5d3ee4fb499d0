-- ===== src/Wfs/Files/Writes.antt =====
-- `wfs_write` of kernel/fs/wfs.c into blocks that are there.
use wos.Prelude.{
  ℕ, ◌+◌, ◌-◌, ◌/◌, ◌%◌, ◌≤◌, ◌≡◌, ◌≢◌, refl, sym, ap, subst, ◌∙◌, inl, inr, true, update, ◌==◌,
  arith, Bool-cases,
}
use wos.Abi.{Result, ok, err}
use wos.Exec.{continue, ◌>>=◌}
use wos.Wfs.Device.{Device, Bytes, Keeps}
use wos.Wfs.Cache.Coherent.{InRange}
use wos.Wfs.Words.{copy_into}
use wos.Wfs.Layout.{Inode, block_size}
use wos.Wfs.Volume.{Volume, load, store}
use wos.Wfs.Volume.Stored.{Stands, Stores, load-Loads, store-Stores, Stands-trans}
use wos.Wfs.Mapping.{Mapping, on_volume, bmap}
use wos.Wfs.Mapping.Found.{block_at, HasTables, Finds}
use wos.Wfs.Mapping.There.{bmap_there-Finds}
use wos.Wfs.Files.{old_block, write_chunk}
use wos.Wfs.Files.Runs.{IsPlaced}
use wos.Wfs.Files.Updated.{IsApart, IsOld, Updated, same_block, same-HasTables, chunk-Updated}

module _ {d : Device} (k : Keeps d) (blocks : ℕ → Bytes) (node : Inode) (src : Bytes) (offset : ℕ)
    (start : Volume d) where
  -- How far the write has come: `done` bytes, from the state `start` on.
  pub record At (cur : ℕ → Bytes) (done : ℕ) (s : Mapping d) : Type 0 where
    pub stands : Stands k cur start s.volume
    pub same_node : s.node ≡ node
    pub updated : Updated blocks node src offset cur done

  -- The file has a block at this place.
  abbrev pub IsThere : (at : ℕ) → Type 0
  IsThere at = block_at blocks node (at / block_size) ≢ 0

  pub block_of_at : (done : ℕ) → ℕ
  block_of_at done = block_at blocks node ((offset + done) / block_size)

  pub found-At :
      (cur : ℕ → Bytes) (done : ℕ) (s : Mapping d)
      → IsPlaced blocks node start.io.partition
      → IsApart blocks node
      → IsThere (offset + done)
      → At cur done s
      → Finds k cur s (block_of_at done) (bmap ((offset + done) / block_size) true s)
  unfolding block_of_at
  found-At cur done s placed apart there a =
      let i = (offset + done) / block_size in
      let e : block_at cur s.node i ≡ block_at blocks node i =
        ap (λ (n : Inode). block_at cur n i) a.same_node
        ∙ same_block blocks node src offset cur done i apart a.updated in
      let tables : HasTables cur s.node s.volume.io.partition =
        subst (λ (p : ℕ). HasTables cur s.node p) (sym a.stands.same_partition)
          (subst (λ (n : Inode). HasTables cur n start.io.partition) (sym a.same_node)
            (same-HasTables blocks node src offset cur done start.io.partition apart a.updated
              placed.tables)) in
      let f = bmap_there-Finds k cur i s a.stands.represents tables (λ z. there (sym e ∙ z)) in
      subst (λ (b : ℕ). Finds k cur s b (bmap i true s)) e f

  stored-At :
      (cur : ℕ → Bytes) (done chunk : ℕ) (old : Bytes) (s : Mapping d)
      → IsPlaced blocks node start.io.partition
      → IsApart blocks node
      → IsThere (offset + done)
      → chunk ≤ block_size - (offset + done) % block_size
      → At cur done s
      → IsOld blocks node src offset cur (block_of_at done) chunk old
      → (out : Result (Unit {0}) × Volume d)
      → out
        ≡ store
            (block_of_at done)
            (copy_into old ((offset + done) % block_size) src done chunk)
            s.volume
      → out.0 ≡ ok tt
      → (after : ℕ → Bytes) × At after (done + chunk) (record s { volume = out.1 })
  unfolding block_of_at
  stored-At cur done chunk old s placed apart there small a is_old out e fine =
      let block = block_of_at done in
      let new = copy_into old ((offset + done) % block_size) src done chunk in
      let range =
        subst (λ (p : ℕ). InRange p block) (sym a.stands.same_partition)
          (placed.contents ((offset + done) / block_size) there) in
      let st : Stores k cur block new s.volume out =
        subst (Stores k cur block new s.volume) (sym e)
          (store-Stores k cur block new s.volume a.stands.represents range) in
      let same : st.left ≡ new = elim st.outcome [ inl f ↦ absurd cc | inr f ↦ f.1 ] in
      (
        update cur block st.left,
        record {
          stands = Stands-trans k a.stands st.stands;
          same_node = a.same_node;
          updated =
              chunk-Updated blocks node src offset cur done chunk old st.left apart a.updated there
                is_old small same;
        },
      )

  chunk_then :
      (cur : ℕ → Bytes) (done chunk : ℕ) (r : Result Bytes) (s : Mapping d)
      → IsPlaced blocks node start.io.partition
      → IsApart blocks node
      → IsThere (offset + done)
      → chunk ≤ block_size - (offset + done) % block_size
      → At cur done s
      → ((old : Bytes) → r ≡ ok old → IsOld blocks node src offset cur (block_of_at done) chunk old)
      → (out : Result (Unit {0}) × Mapping d)
      → out
        ≡ continue r
            (λ old. on_volume (
              store
                (block_of_at done)
                (copy_into old ((offset + done) % block_size) src done chunk)))
            s
      → out.0 ≡ ok tt
      → (after : ℕ → Bytes) × At after (done + chunk) out.1
  unfolding on_volume
  chunk_then cur done chunk (err e) s placed apart there small a is_old out same fine = absurd (
      let f : err e ≡ ok tt = sym (ap (λ (p : Result (Unit {0}) × Mapping d). p.0) same) ∙ fine in
      cc)
  chunk_then cur done chunk (ok old) s placed apart there small a is_old out same fine =
      let st =
        store (block_of_at done) (copy_into old ((offset + done) % block_size) src done chunk)
          s.volume in
      let fine' : st.0 ≡ ok tt =
        sym (ap (λ (p : Result (Unit {0}) × Mapping d). p.0) same) ∙ fine in
      let (after, at) =
        stored-At cur done chunk old s placed apart there small a (is_old old refl) st refl fine' in
      (
        after,
        subst (λ (m : Mapping d). At after (done + chunk) m)
            (sym (ap (λ (p : Result (Unit {0}) × Mapping d). p.1) same)) at,
      )

  placed_block :
      (done : ℕ)
      → IsPlaced blocks node start.io.partition
      → IsThere (offset + done)
      → InRange start.io.partition (block_of_at done)
  unfolding block_of_at
  placed_block done placed there = placed.contents ((offset + done) / block_size) there

  pub loaded-At :
      (cur : ℕ → Bytes) (done block : ℕ) (s : Mapping d) (v : Volume d)
      → At cur done s
      → Stands k cur s.volume v
      → At cur done (record s { volume = v })
  loaded-At cur done block s v a st = record {
    stands = Stands-trans k a.stands st;
    same_node = a.same_node;
    updated = a.updated;
  }

  pub chunk-At :
      (cur : ℕ → Bytes) (done chunk : ℕ) (s : Mapping d)
      → IsPlaced blocks node start.io.partition
      → IsApart blocks node
      → IsThere (offset + done)
      → chunk ≤ block_size - (offset + done) % block_size
      → At cur done s
      → (write_chunk (block_of_at done) (offset + done) done chunk src s).0 ≡ ok tt
      → (after : ℕ → Bytes) × At after
          (done + chunk)
          (write_chunk (block_of_at done) (offset + done) done chunk src s).1
  unfolding write_chunk old_block ◌>>=◌ on_volume
  chunk-At cur done chunk s placed apart there small a = elim (Bool-cases (chunk == block_size)) [
    | inl y ↦ rw y (λ fine.
        chunk_then cur done chunk (ok s.volume.junk) s placed apart there small a
          (λ old e. inl (ground arith)) _ refl fine)
    | inr n ↦ rw n (λ fine.
        let range =
          subst (λ (p : ℕ). InRange p (block_of_at done)) (sym a.stands.same_partition)
            (placed_block done placed there) in
        let (loads, st) = load-Loads k cur (block_of_at done) s.volume a.stands.represents range in
        let out = load (block_of_at done) s.volume in
        chunk_then cur done chunk out.0 (record s { volume = out.1 }) placed apart there small
          (loaded-At cur done (block_of_at done) s out.1 a st)
          (λ old e. inr (elim loads [ inl f ↦ absurd cc | inr f ↦ cc ])) _ refl fine)
  ]
