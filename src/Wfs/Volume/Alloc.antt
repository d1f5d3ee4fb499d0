-- ===== src/Wfs/Volume/Alloc.antt =====
-- `block_alloc` of kernel/fs/wfs.c.
use wos.Prelude.{
  ℕ, zero, suc, ◌+◌, ◌-◌, ◌*◌, ◌/◌, ◌%◌, ◌^◌, ◌≤◌, ◌<◌, ◌≡◌, ◌≢◌, ◌⊎◌, refl, sym, ap, subst, ◌∙◌,
  inl, inr, true, false, update, ◌==◌, arith, Bool-cases,
}
use wos.Abi.{Result, ok, err, eio}
use wos.Wfs.Device.{Device, Bytes, Keeps}
use wos.Wfs.Cache.Coherent.{InRange, update-ne}
use wos.Wfs.Cache.Represented.{Represents, update-eq}
use wos.Wfs.Layout.{Super, block_size, put_super}
use wos.Wfs.Words.{zeroes}
use wos.Wfs.Volume.{
  Volume, store, sync_superblock, sync_bitmap_for, sync_both, set_used, after_zeroing, take_block,
  block_alloc_from, block_alloc,
}
use wos.Wfs.Volume.Bitmap.{used, use_bit}
use wos.Wfs.Volume.Stored.{Stands, Stores, store-Stores, Stands-trans}

-- The blocks of the volume have sectors with numbers of 32 bits, and the superblock and the bitmap
-- lie below the data area.
pub record IsLaidOut {d : Device} (v : Volume d) : Type 0 where
  pub in_range : (n : ℕ) → n < v.sb.total_blocks → InRange v.io.partition n
  pub bitmap_below :
      (n : ℕ) → n < v.sb.total_blocks → v.sb.bitmap_start + n / (block_size * 8) < v.sb.data_start
  pub small : v.sb.total_blocks < 2 ^ 32

module _ {d : Device} (k : Keeps d) where
  -- Only blocks below the data area have changed, and nothing else but the cache and the device.
  pub record Synced (blocks : ℕ → Bytes) (v v' : Volume d) : Type 0 where
    pub after : ℕ → Bytes
    pub stands : Stands k after v v'
    pub contents : (n : ℕ) → v.sb.data_start ≤ n → after n ≡ blocks n

  stored-Synced :
      (blocks : ℕ → Bytes) (block : ℕ) (b : Bytes) (v : Volume d)
      → Represents k blocks v.io
      → InRange v.io.partition block
      → block < v.sb.data_start
      → Synced blocks v (store block b v).1
  stored-Synced blocks block b v r range below =
      let s = store-Stores k blocks block b v r range in
      record {
        after = update blocks block s.left;
        stands = s.stands;
        contents = λ n h. update-ne blocks block s.left n (omega arith);
      }

  sync_both-Synced :
      (blocks : ℕ → Bytes) (block : ℕ) (v : Volume d)
      → Represents k blocks v.io
      → IsLaidOut v
      → v.sb.data_start ≤ block
      → block < v.sb.total_blocks
      → Synced blocks v (sync_both block v)
  unfolding sync_both sync_bitmap_for sync_superblock
  sync_both-Synced blocks block v r laid low high =
      let below = laid.bitmap_below block high in
      let place : (v.sb.bitmap_start + block / (block_size * 8)) % 2 ^ 32
          ≡ v.sb.bitmap_start + block / (block_size * 8) =
        omega (arith, laid.small) in
      let bits : Bytes = λ i. v.bitmap (block / (block_size * 8) * block_size + i) in
      let one : Synced blocks v
          (store ((v.sb.bitmap_start + block / (block_size * 8)) % 2 ^ 32) bits v).1 =
        rw place (stored-Synced blocks _ bits v r (laid.in_range _ (omega arith)) below) in
      let v' = (store ((v.sb.bitmap_start + block / (block_size * 8)) % 2 ^ 32) bits v).1 in
      let same_sb : v'.sb ≡ v.sb = ap (λ (x : Volume d). x.sb) one.stands.rest in
      let range : InRange v'.io.partition 0 =
        subst (λ (p : ℕ). InRange p 0) (sym one.stands.same_partition)
          (laid.in_range 0 (omega arith)) in
      let start : v'.sb.data_start ≡ v.sb.data_start = ap (λ (x : Super). x.data_start) same_sb in
      let two =
        stored-Synced one.after 0 (put_super v'.sb) v' one.stands.represents range (omega arith) in
      record {
        after = two.after;
        stands = Stands-trans k one.stands two.stands;
        contents = λ n h. two.contents n (omega arith) ∙ one.contents n h;
      }

  Stands-IsLaidOut :
      (blocks : ℕ → Bytes) (v v' : Volume d) → IsLaidOut v → Stands k blocks v v' → IsLaidOut v'
  Stands-IsLaidOut blocks v v' laid s =
      let moved : IsLaidOut (record v { io = v'.io }) = record {
        in_range = λ n h. subst (λ (p : ℕ). InRange p n) (sym s.same_partition) (laid.in_range n h);
        bitmap_below = laid.bitmap_below;
        small = laid.small;
      } in
      subst IsLaidOut (sym s.rest) moved

  -- Block `b` is taken. Where the write of the zeroes to it failed, 0 is returned; else it is, and has
  -- only zeroes. No other block of the data area changes.
  pub record Taken (blocks : ℕ → Bytes) (v : Volume d) (b : ℕ) (out : ℕ × Volume d) : Type 0 where
    pub lower : v.sb.data_start ≤ b
    pub upper : b < v.sb.total_blocks
    pub was_free : used v.bitmap b ≡ false
    pub bitmap : out.1.bitmap ≡ use_bit v.bitmap b
    pub after : ℕ → Bytes
    pub represents : Represents k after out.1.io
    pub outcome :
        ((out.0 ≡ 0) × ((store b zeroes (set_used v b)).0 ≡ err eio))
        ⊎ ((out.0 ≡ b) × ((store b zeroes (set_used v b)).0 ≡ ok tt) × (after b ≡ zeroes))
    pub others : (n : ℕ) → v.sb.data_start ≤ n → n ≢ b → after n ≡ blocks n

  after_zeroing-Taken :
      (blocks : ℕ → Bytes) (v : Volume d) (b : ℕ) (out : Result (Unit {0}) × Volume d)
      → IsLaidOut v
      → v.sb.data_start ≤ b
      → b < v.sb.total_blocks
      → used v.bitmap b ≡ false
      → Stores k blocks b zeroes (set_used v b) out
      → out ≡ store b zeroes (set_used v b)
      → Taken blocks v b (after_zeroing b out)
  unfolding after_zeroing
  after_zeroing-Taken blocks v b (err e, v') laid low high free s same = record {
    lower = low;
    upper = high;
    was_free = free;
    bitmap = ap (λ (x : Volume d). x.bitmap) s.stands.rest;
    after = update blocks b s.left;
    represents = s.stands.represents;
    outcome = elim s.outcome [
      | inl lost ↦ inl (refl, ap (λ (x : Result (Unit {0}) × Volume d). x.0) (sym same) ∙ lost)
      | inr (fine, all) ↦ absurd cc
    ];
    others = λ n h m. update-ne blocks b s.left n m;
  }
  after_zeroing-Taken blocks v b (ok u, v') laid low high free s same =
      let laid_used : IsLaidOut (set_used v b) = record {
        in_range = laid.in_range;
        bitmap_below = laid.bitmap_below;
        small = laid.small;
      } in
      let laid' = Stands-IsLaidOut _ (set_used v b) v' laid_used s.stands in
      let same_sb : v'.sb ≡ (set_used v b).sb = ap (λ (x : Volume d). x.sb) s.stands.rest in
      let start : v'.sb.data_start ≡ v.sb.data_start = ap (λ (x : Super). x.data_start) same_sb in
      let total : v'.sb.total_blocks ≡ v.sb.total_blocks =
        ap (λ (x : Super). x.total_blocks) same_sb in
      let synced =
        sync_both-Synced (update blocks b s.left) b v' s.stands.represents laid' (omega arith)
          (omega arith) in
      let zeroed : s.left ≡ zeroes = elim s.outcome [ inl e ↦ absurd cc | inr (e, all) ↦ all ] in
      record {
        lower = low;
        upper = high;
        was_free = free;
        bitmap =
            ap (λ (x : Volume d). x.bitmap) synced.stands.rest
            ∙ ap (λ (x : Volume d). x.bitmap) s.stands.rest;
        after = synced.after;
        represents = synced.stands.represents;
        outcome = inr (
          refl,
          ap (λ (x : Result (Unit {0}) × Volume d). x.0) (sym same),
          synced.contents b (omega arith) ∙ update-eq blocks b s.left ∙ zeroed,
        );
        others = λ n h m. synced.contents n (omega arith) ∙ update-ne blocks b s.left n m;
      }

  take_block-Taken :
      (blocks : ℕ → Bytes) (v : Volume d) (b : ℕ)
      → Represents k blocks v.io
      → IsLaidOut v
      → v.sb.data_start ≤ b
      → b < v.sb.total_blocks
      → used v.bitmap b ≡ false
      → Taken blocks v b (take_block b v)
  unfolding take_block
  take_block-Taken blocks v b r laid low high free =
      after_zeroing-Taken blocks v b _ laid low high free
        (store-Stores k blocks b zeroes (set_used v b) r (laid.in_range b high)) refl

  -- Nothing is free among the blocks, or the first free one is taken.
  abbrev pub Allocates : (ℕ → Bytes) → Volume d → (from to : ℕ) → ℕ × Volume d → Type 0
  Allocates blocks v from to out =
      (((j : ℕ) → from ≤ j → j < to → used v.bitmap j ≡ true) × (out ≡ (0, v)))
      ⊎ ((b : ℕ) × ((j : ℕ) → from ≤ j → j < b → used v.bitmap j ≡ true)
          × (from ≤ b)
          × Taken blocks v b out)

  also-Allocates :
      (blocks : ℕ → Bytes) (v : Volume d) (from to : ℕ) (out : ℕ × Volume d)
      → used v.bitmap from ≡ true
      → Allocates blocks v (from + 1) to out
      → Allocates blocks v from to out
  also-Allocates blocks v from to out y (inl (full, e)) = inl (
    λ j low high. elim (Bool-cases (j == from)) [
      | inl same ↦ let e : j ≡ from = ground arith in rw e y
      | inr other ↦ full j (ground arith) high
    ],
    e,
  )
  also-Allocates blocks v from to out y (inr (b, full, low_b, taken)) = inr (
    b,
    λ j low high. elim (Bool-cases (j == from)) [
      | inl same ↦ let e : j ≡ from = ground arith in rw e y
      | inr other ↦ full j (ground arith) high
    ],
    omega arith,
    taken,
  )

  block_alloc_from-Allocates :
      (blocks : ℕ → Bytes) (n from : ℕ) (v : Volume d)
      → Represents k blocks v.io
      → IsLaidOut v
      → v.sb.data_start ≤ from
      → from + n ≤ v.sb.total_blocks
      → Allocates blocks v from (from + n) (block_alloc_from n from v)
  unfolding block_alloc_from
  block_alloc_from-Allocates blocks zero from v r laid low high =
      inl (λ j l h. absurd (omega arith), refl)
  block_alloc_from-Allocates blocks (suc n) from v r laid low high =
      elim (Bool-cases (used v.bitmap from)) [
        | inl y ↦
            let e : from + suc n ≡ from + 1 + n = omega arith in
            rw (y, e)
              (also-Allocates blocks v from (from + 1 + n) _ y (
                block_alloc_from-Allocates blocks n (from + 1) v r laid (omega arith)
                  (omega arith)))
        | inr m ↦ rw m (
            inr (
              from,
              λ j l h. absurd (omega arith),
              omega arith,
              take_block-Taken blocks v from r laid low (omega arith) m,
            ))
      ]

  -- On a driver that keeps its promises and a volume whose superblock and bitmap lie below its data area,
  -- `block_alloc` returns 0 and changes nothing where every block of the data area is taken. Else it marks
  -- the first free block in the bitmap and no other; where the write of zeroes to it fails it returns 0, and
  -- else it returns that block, with zeroes in it. No other block of the data area changes.
  pub block_alloc-Allocates :
      (blocks : ℕ → Bytes) (v : Volume d)
      → Represents k blocks v.io
      → IsLaidOut v
      → v.sb.data_start ≤ v.sb.total_blocks
      → Allocates blocks v v.sb.data_start v.sb.total_blocks (block_alloc v)
  unfolding block_alloc
  block_alloc-Allocates blocks v r laid h =
      let e : v.sb.data_start + (v.sb.total_blocks - v.sb.data_start) ≡ v.sb.total_blocks =
        omega arith in
      subst (λ (n : ℕ). Allocates blocks v v.sb.data_start n (block_alloc v)) e
        (block_alloc_from-Allocates blocks (v.sb.total_blocks - v.sb.data_start) v.sb.data_start v r
          laid (omega arith) (omega arith))
