-- ===== src/Wfs/Layout/RoundTrip.antt =====
-- The superblock and the inodes of include/wfs.h, written into a block and read back.
use wos.Prelude.{
  ℕ, zero, suc, ◌+◌, ◌*◌, ◌/◌, ◌%◌, ◌^◌, ◌≤◌, ◌<◌, ◌≡◌, ◌⊎◌, refl, ap, subst, ◌∙◌, List, [], ◌∷◌,
  ◌++◌, length, length-append, get_or, arith,
}
use wos.Wfs.Device.{Bytes}
use wos.Wfs.Words.{get_word, put_words}
use wos.Wfs.Words.Laws.{
  AreWords, words_from, get_word-put_words_at, get_words-put_words, get_word-put_words_apart,
  get_words-put_words_apart,
}
use wos.Wfs.Layout.{Inode, put_inode, get_inode, direct_blocks, inode_size}

-- The fields have the widths of the structure.
pub record IsInode (node : Inode) : Type 0 where
  pub type_fits : node.type < 2 ^ 16
  pub links_fit : node.links < 2 ^ 16
  pub size_fits : node.size < 2 ^ 32
  pub blocks_fit : node.blocks < 2 ^ 32
  pub mtime_fits : node.mtime < 2 ^ 32
  pub direct_fit : AreWords node.direct
  pub ten_direct : length node.direct ≡ direct_blocks
  pub indirect_fits : node.indirect < 2 ^ 32
  pub double_fits : node.double_indirect < 2 ^ 32

AreWords-append : (xs ys : List ℕ) → AreWords xs → AreWords ys → AreWords (xs ++ ys)
AreWords-append [] ys hx hy = hy
AreWords-append (x ∷ xs) ys hx hy = (hx.0, AreWords-append xs ys hx.1 hy)

abbrev words : Inode → List ℕ
words node =
    (node.type + node.links * 2 ^ 16)
    ∷ node.size
    ∷ node.blocks
    ∷ node.mtime
    ∷ (node.direct ++ (node.indirect ∷ node.double_indirect ∷ []))

words-AreWords : (node : Inode) → IsInode node → AreWords (words node)
words-AreWords node h =
    let first : node.type + node.links * 2 ^ 16 < 2 ^ 32 =
      omega (arith, h.type_fits, h.links_fit) in
    let tail = AreWords-append node.direct _ h.direct_fit (h.indirect_fits, (h.double_fits, tt)) in
    (first, (h.size_fits, (h.blocks_fit, (h.mtime_fits, tail))))

words_from-cons :
    (x : ℕ) (xs : List ℕ) (j n : ℕ) → words_from (x ∷ xs) (suc j) n ≡ words_from xs j n
words_from-cons x xs j zero = refl
words_from-cons x xs j (suc n) =
    ap (λ (l : List ℕ). get_or xs j 0 ∷ l) (words_from-cons x xs (suc j) n)

words_from-skip :
    (x y z w : ℕ) (xs : List ℕ) (n : ℕ) → words_from (x ∷ y ∷ z ∷ w ∷ xs) 4 n ≡ words_from xs 0 n
words_from-skip x y z w xs n =
    words_from-cons x (y ∷ z ∷ w ∷ xs) 3 n
    ∙ words_from-cons y (z ∷ w ∷ xs) 2 n
    ∙ words_from-cons z (w ∷ xs) 1 n
    ∙ words_from-cons w xs 0 n

words_from-append : (xs ys : List ℕ) → words_from (xs ++ ys) 0 (length xs) ≡ xs
words_from-append [] ys = refl
words_from-append (x ∷ xs) ys =
    ap (λ (l : List ℕ). x ∷ l)
      (words_from-cons x (xs ++ ys) 0 (length xs) ∙ words_from-append xs ys)

get_or-append : (xs ys : List ℕ) (j : ℕ) → get_or (xs ++ ys) (length xs + j) 0 ≡ get_or ys j 0
get_or-append [] ys j = ap (λ (n : ℕ). get_or ys n 0) (omega arith)
get_or-append (x ∷ xs) ys j =
    let e : suc (length xs) + j ≡ suc (length xs + j) = omega arith in rw e (get_or-append xs ys j)

words-length : (node : Inode) → IsInode node → length (words node) ≡ 16
words-length node h =
    omega
      (arith, length-append node.direct (node.indirect ∷ node.double_indirect ∷ []), h.ten_direct)

direct_words : (node : Inode) → IsInode node → words_from (words node) 4 10 ≡ node.direct
direct_words node h =
    let tail = node.direct ++ (node.indirect ∷ node.double_indirect ∷ []) in
    words_from-skip (node.type + node.links * 2 ^ 16) node.size node.blocks node.mtime tail 10
    ∙ subst (λ (n : ℕ). words_from tail 0 n ≡ node.direct) h.ten_direct
        (words_from-append node.direct _)

last_word :
    (node : Inode) (j : ℕ)
    → IsInode node
    → get_or (node.direct ++ (node.indirect ∷ node.double_indirect ∷ [])) (10 + j) 0
      ≡ get_or (node.indirect ∷ node.double_indirect ∷ []) j 0
last_word node j h =
    let tail = node.indirect ∷ node.double_indirect ∷ [] in
    subst (λ (n : ℕ). get_or (node.direct ++ tail) (n + j) 0 ≡ get_or tail j 0) h.ten_direct
      (get_or-append node.direct tail j)

-- An inode that is written into a block is read back from there.
pub get_inode-put_inode :
    (b : Bytes) (at : ℕ) (node : Inode) → IsInode node → get_inode (put_inode b at node) at ≡ node
unfolding get_inode put_inode
get_inode-put_inode b at node h =
    let word = λ (j o : ℕ) (l : j < 16) (e : o ≡ at + j * 4).
      get_word-put_words_at b at (words node) j o (words-AreWords node h)
        (omega (arith, l, words-length node h)) e in
    let first : get_word (put_words b at (words node)) at ≡ node.type + node.links * 2 ^ 16 =
      word 0 at (omega arith) (omega arith) in
    let type_back : get_word (put_words b at (words node)) at % 2 ^ 16 ≡ node.type =
      omega (arith, first, h.type_fits) in
    let links_back : get_word (put_words b at (words node)) at / 2 ^ 16 ≡ node.links =
      omega (arith, first, h.type_fits) in
    rw
      (
        type_back,
        links_back,
        word 1 (at + 4) (omega arith) refl,
        word 2 (at + 8) (omega arith) refl,
        word 3 (at + 12) (omega arith) refl,
        get_words-put_words b at (words node) 10 4 (at + 16) (words-AreWords node h)
            (omega (arith, words-length node h)) refl,
        direct_words node h,
        word 14 (at + 56) (omega arith) refl ∙ last_word node 0 h,
        word 15 (at + 60) (omega arith) refl ∙ last_word node 1 h,
      )
      refl

-- The other inodes of the block stay as they are.
pub get_inode-put_inode_apart :
    (b : Bytes) (at o : ℕ) (node : Inode)
    → IsInode node
    → (at + inode_size ≤ o) ⊎ (o + inode_size ≤ at)
    → get_inode (put_inode b at node) o ≡ get_inode b o
unfolding get_inode put_inode
get_inode-put_inode_apart b at o node h apart =
    let word = λ (p : ℕ) (l : (o ≤ p) × (p + 4 ≤ o + inode_size)).
      get_word-put_words_apart b at (words node) p
        (ground (arith, words-length node h, l, apart)) in
    rw
      (
        word o (omega arith, omega arith),
        word (o + 4) (omega arith, omega arith),
        word (o + 8) (omega arith, omega arith),
        word (o + 12) (omega arith, omega arith),
        word (o + 56) (omega arith, omega arith),
        word (o + 60) (omega arith, omega arith),
        get_words-put_words_apart b at (words node) (o + 16) 10
            (ground (arith, words-length node h, apart)),
      )
      refl
