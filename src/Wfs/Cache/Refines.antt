-- ===== src/Wfs/Cache/Refines.antt =====
-- Any sequence of `block_read` and `block_write` of kernel/fs/wfs.c, against a plain store of blocks.
use wos.Prelude.{
  ℕ, ◌≡◌, refl, sym, subst, inl, inr, List, [], ◌∷◌, Bool, true, false, Option, none, some, update,
}
use wos.Wfs.Device.{Device, Bytes, Keeps}
use wos.Wfs.Cache.{Io, sector_of, cache_find, fetch, read_at, block_read, after_write, block_write}
use wos.Wfs.Cache.Coherent.{InRange}
use wos.Wfs.Cache.Represented.{Represents, Reads, Writes, block_read-Reads, block_write-Writes}

pub data Op : Type 0 where
  read : (block : ℕ) → Op
  write : (block : ℕ) → Bytes → Op

pub data Answer : Type 0 where
  got : Option Bytes → Answer
  done : Bool → Answer

abbrev pub block_of : Op → ℕ
block_of (read b) = b
block_of (write b bytes) = b

-- A store without a cache, of which each operation can fail: a read then has no effect, a write leaves
-- anything in its own block.
pub data Plain (store : ℕ → Bytes) : Op → Answer → (ℕ → Bytes) → Type 0 where
  reads : (b : ℕ) → Plain store (read b) (got (some (store b))) store
  read_fails : (b : ℕ) → Plain store (read b) (got none) store
  writes : (b : ℕ) (bytes : Bytes) → Plain store (write b bytes) (done true) (update store b bytes)
  write_fails :
      (b : ℕ) (bytes left : Bytes) → Plain store (write b bytes) (done false) (update store b left)

pub data Plains : (ℕ → Bytes) → List Op → List Answer → (ℕ → Bytes) → Type 0 where
  rest : {store : ℕ → Bytes} → Plains store [] [] store
  before :
      {store mid last : ℕ → Bytes} {op : Op} {answer : Answer} {ops : List Op}
      {answers : List Answer}
      → Plain store op answer mid
      → Plains mid ops answers last
      → Plains store (op ∷ ops) (answer ∷ answers) last

abbrev pub AllInRange : (partition : ℕ) → List Op → Type 0
AllInRange partition [] = Unit {0}
AllInRange partition (op ∷ ops) = InRange partition (block_of op) × AllInRange partition ops

module _ (d : Device) where
  abbrev pub answer_read : Option Bytes × Io d → Answer × Io d
  answer_read out = (got out.0, out.1)

  abbrev pub answer_write : Bool × Io d → Answer × Io d
  answer_write out = (done out.0, out.1)

  abbrev pub step : Op → Io d → Answer × Io d
  step (read b) io = answer_read (block_read d io b)
  step (write b bytes) io = answer_write (block_write d io b bytes)

  abbrev pub run : List Op → Io d → List Answer × Io d
  run [] io = ([], io)
  run (op ∷ ops) io =
      let (answer, mid) = step op io in
      let (answers, last) = run ops mid in (answer ∷ answers, last)

  fetch-partition :
      (io : Io d) (block i : ℕ) (o : Option Bytes)
      → (fetch d io block i o).1.partition ≡ io.partition
  unfolding fetch
  fetch-partition io block i none = refl
  fetch-partition io block i (some b) = refl

  read_at-partition :
      (io : Io d) (block : ℕ) (o : Option ℕ) → (read_at d io block o).1.partition ≡ io.partition
  unfolding read_at
  read_at-partition io block none = fetch-partition io block _ _
  read_at-partition io block (some i) = refl

  after_write-partition :
      (io : Io d) (i : ℕ) (out : Bool × d.State)
      → (after_write d io i out).1.partition ≡ io.partition
  unfolding after_write
  after_write-partition io i (true, disk) = refl
  after_write-partition io i (false, disk) = refl

  pub block_read-partition : (io : Io d) (b : ℕ) → (block_read d io b).1.partition ≡ io.partition
  unfolding block_read
  block_read-partition io b = read_at-partition io b (cache_find b io.cache)

  pub block_write-partition :
      (io : Io d) (b : ℕ) (bytes : Bytes) → (block_write d io b bytes).1.partition ≡ io.partition
  unfolding block_write
  block_write-partition io b bytes =
      after_write-partition _ _ (d.write io.disk (sector_of d io b) 2 bytes)

  step-partition : (op : Op) (io : Io d) → (step op io).1.partition ≡ io.partition
  step-partition (read b) io = block_read-partition io b
  step-partition (write b bytes) io = block_write-partition io b bytes

  module _ (k : Keeps d) where
    -- The answer is one that the plain store can give, and the two agree afterwards.
    abbrev pub Matches : (ℕ → Bytes) → Op → Answer × Io d → Type 0
    Matches store op out =
        (after : ℕ → Bytes) × Plain store op out.0 after × Represents k after out.1

    read-Matches :
        (store : ℕ → Bytes) (b : ℕ) (out : Option Bytes × Io d)
        → Reads d k store b out
        → Matches store (read b) (answer_read out)
    read-Matches store b (o, io) (inl e, r) = (
      store,
      subst (λ (x : Option Bytes). Plain store (read b) (got x) store) (sym e) (read_fails b),
      r,
    )
    read-Matches store b (o, io) (inr e, r) = (
      store,
      subst (λ (x : Option Bytes). Plain store (read b) (got x) store) (sym e) (reads b),
      r,
    )

    write-Matches :
        (store : ℕ → Bytes) (b : ℕ) (bytes : Bytes) (out : Bool × Io d)
        → Writes d k store b bytes out
        → Matches store (write b bytes) (answer_write out)
    write-Matches store b bytes (false, io) (after, e, r) =
        (update store b after, write_fails b bytes after, r)
    write-Matches store b bytes (true, io) (after, inl e, r) = absurd (cc)
    write-Matches store b bytes (true, io) (after, inr e, r) = (
      update store b bytes,
      writes b bytes,
      subst (λ (x : Bytes). Represents k (update store b x) io) e r,
    )

    step-Matches :
        (store : ℕ → Bytes) (op : Op) (io : Io d)
        → Represents k store io
        → InRange io.partition (block_of op)
        → Matches store op (step op io)
    step-Matches store (read b) io r range =
        read-Matches store b (block_read d io b) (block_read-Reads d k store io b r range)
    step-Matches store (write b bytes) io r range =
        write-Matches store b bytes (block_write d io b bytes)
          (block_write-Writes d k store io b bytes r range)

    -- On a driver that keeps its promises, and with all the blocks in the range of 32-bit sector
    -- numbers, any sequence of block reads and writes gives answers that the plain store can give,
    -- each read the block as it was last written, whichever blocks are in the cache and whichever
    -- transfers fail; and device and cache together still stand for the plain store's blocks.
    pub run-Plains :
        (store : ℕ → Bytes) (ops : List Op) (io : Io d)
        → Represents k store io
        → AllInRange io.partition ops
        → (after : ℕ → Bytes) × Plains store ops (run ops io).0 after
          × Represents k after (run ops io).1
    run-Plains store [] io r range = (store, rest, r)
    run-Plains store (op ∷ ops) io r range =
        let (mid, plain, r') = step-Matches store op io r range.0 in
        let range' = subst (λ (p : ℕ). AllInRange p ops) (sym (step-partition op io)) range.1 in
        let (last, plains, r'') = run-Plains mid ops (step op io).1 r' range' in
        (last, before plain plains, r'')
