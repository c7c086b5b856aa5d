-- ===== src/Ext2/Reading.antt =====
-- What `read_file` of XERN/fs/file.h gives.
use xern.Base.{
  ℕ, zero, suc, ◌+◌, ◌-◌, ◌*◌, ltb, subst, ◌/◌, ◌%◌, ◌<◌, ◌≤◌, min, ◌≡◌, refl, sym, ap, ◌∙◌, arith,
  ◌||◌, ◌==◌, Bool-cases, inl, inr, some, [], ◌∷◌, ◌++◌, length,
}
use xern.Kernel.{InodePtr}
use xern.Files.{set_oft, curr_fd}
use xern.Permissions.{Inode}
use xern.Ext2.{Fs, blocksize, getblock, get32, minode}
use xern.Ext2.Data.{Filing, block_of, bytes_from, round_len, read_run, read_file}

-- The byte at place `i` of the file.
abbrev pub content : Fs → Inode → ℕ → ℕ
content fs ip i = getblock fs (block_of fs ip (i / blocksize)) (i % blocksize)

bytes_from_same :
    (n : ℕ) (f g : ℕ → ℕ) (a b : ℕ)
    → ((i : ℕ) → i < n → f (a + i) ≡ g (b + i))
    → bytes_from n f a ≡ bytes_from n g b
unfolding bytes_from
bytes_from_same zero f g a b h = refl
bytes_from_same (suc n) f g a b h =
    cc (first, bytes_from_same n f g (suc a) (suc b) (λ i l. next i (h (suc i) (omega arith))))
  where
    first : f a ≡ g b
    first = ground (arith, h 0 (omega arith))

    next : (i : ℕ) → f (a + suc i) ≡ g (b + suc i) → f (suc a + i) ≡ g (suc b + i)
    next i e = ground (arith, e)

bytes_from_append :
    (m n : ℕ) (f : ℕ → ℕ) (a : ℕ)
    → bytes_from (m + n) f a ≡ bytes_from m f a ++ bytes_from n f (a + m)
unfolding bytes_from
bytes_from_append zero n f a =
    ap (λ k. bytes_from k f a) {x = 0 + n} {y = n} (omega arith)
    ∙ ap (bytes_from n f) {x = a} {y = a + 0} (omega arith)
bytes_from_append (suc m) n f a =
    ap (λ k. bytes_from k f a) {x = suc m + n} {y = suc (m + n)} (omega arith)
    ∙ (ap (λ xs. f a ∷ xs) (bytes_from_append m n f (suc a))
        ∙ ap (λ k. f a ∷ (bytes_from m f (suc a) ++ bytes_from n f k)) {x = suc a + m}
            {y = a + suc m} (omega arith))

pub length-bytes_from : (n : ℕ) (f : ℕ → ℕ) (a : ℕ) → length (bytes_from n f a) ≡ n
unfolding bytes_from
length-bytes_from zero f a = refl
length-bytes_from (suc n) f a = omega (arith, length-bytes_from n f (suc a))

-- A round stays in its block.
round_content :
    (fs : Fs) (ip : Inode) (len offset : ℕ)
    → len ≤ blocksize - offset % blocksize
    → bytes_from len (getblock fs (block_of fs ip (offset / blocksize))) (offset % blocksize)
      ≡ bytes_from len (content fs ip) offset
round_content fs ip len offset h =
    bytes_from_same len _ (content fs ip) (offset % blocksize) offset
      (λ i l. same i (omega arith) (omega arith))
  where
    same :
        (i : ℕ)
        → (offset + i) / blocksize ≡ offset / blocksize
        → (offset + i) % blocksize ≡ offset % blocksize + i
        → getblock fs (block_of fs ip (offset / blocksize)) (offset % blocksize + i)
          ≡ content fs ip (offset + i)
    same i e e' = cc

-- With fuel for every byte, the loop gives the file's bytes from the offset on, as many as are asked for and
-- there are.
pub read_run_lem :
    (fuel : ℕ) (fs : Fs) (ip : Inode) (n size offset : ℕ)
    → n ≤ fuel
    → read_run fuel fs ip n size offset ≡ bytes_from (min n size) (content fs ip) offset
unfolding read_run bytes_from
read_run_lem zero fs ip n size offset h =
    ap (λ m. bytes_from m (content fs ip) offset) {x = 0} {y = min n size} (omega arith)
read_run_lem (suc fuel) fs ip n size offset h = elim (Bool-cases (n == 0 || size == 0)) [
  | inl e ↦
      rw e (ap (λ m. bytes_from m (content fs ip) offset) {x = 0} {y = min n size} (ground arith))
  | inr e ↦
      let len = round_len n size offset in
      rw
        (
          e,
          round_content fs ip len offset (omega arith),
          read_run_lem fuel fs ip (n - len) (size - len) (offset + len) (ground arith),
        )
        (sym (bytes_from_append len (min (n - len) (size - len)) (content fs ip) offset)
          ∙ ap (λ m. bytes_from m (content fs ip) offset) (omega arith))
]

-- `read_file` by the code's own numbering of blocks.
pub read_file-content :
    (s : Filing) (fd count o : ℕ) (p : InodePtr)
    → curr_fd s.kernel fd ≡ some o
    → (s.kernel.open_file_table o).m_ptr ≡ some p
    → let f = s.kernel.open_file_table o in
      let ip = (minode s.fs p).inode in
      let n = min count (ip.i_size - f.offset) in
      read_file s fd count
      ≡ some (
        n,
        bytes_from n (content s.fs ip) f.offset ++ (0 ∷ []),
        record s { kernel = set_oft s.kernel o (record f { offset = f.offset + n }) },
      )
unfolding read_file
read_file-content s fd count o p e e' =
    let f = s.kernel.open_file_table o in
    let ip = (minode s.fs p).inode in
    let size = ip.i_size - f.offset in
    rw
      (
        e,
        e',
        read_run_lem count s.fs ip count size f.offset (omega arith),
        length-bytes_from (min count size) (content s.fs ip) f.offset,
        read_file,
      )
      refl

-- Which block of the card holds block `l` of a file: the first twelve stand in the inode, 512 in the table that it names at
-- place 12, and 512 in each of the tables that the table at place 13 names. A number takes four bytes.
pub data BlockOf (fs : Fs) (ip : Inode) : ℕ → ℕ → Type 0 where
  direct : (l : ℕ) → l < 12 → BlockOf fs ip l (ip.i_block l)
  indirect :
      (j : ℕ) → j < 512 → BlockOf fs ip (12 + j) (get32 (getblock fs (ip.i_block 12)) (4 * j))
  double :
      (i j : ℕ)
      → i < 512
      → j < 512
      → BlockOf fs ip
          (524 + 512 * i + j)
          (get32 (getblock fs (get32 (getblock fs (ip.i_block 13)) (4 * i))) (4 * j))

-- `file` gives the bytes of the file, 2048 in each block.
abbrev pub IsContent : Fs → Inode → (ℕ → ℕ) → Type 0
IsContent fs ip file =
    (l b k : ℕ) → BlockOf fs ip l b → k < 2048 → file (l * 2048 + k) ≡ getblock fs b k

block_of-BlockOf : (fs : Fs) (ip : Inode) (l : ℕ) → l < 262668 → BlockOf fs ip l (block_of fs ip l)
unfolding block_of
block_of-BlockOf fs ip l h = elim (Bool-cases (ltb l 12)) [
  | inl first ↦ rw first (direct l (ground (arith, first)))
  | inr past ↦ elim (Bool-cases (ltb l 524)) [
    | inl second ↦
        let low : 12 ≤ l = ground (arith, past) in
        let high : l < 524 = ground (arith, second) in
        rw (past, second)
          (subst (λ m. BlockOf fs ip m (get32 (getblock fs (ip.i_block 12)) (4 * (l - 12))))
            (omega (arith, low)) (indirect (l - 12) (omega (arith, low, high))))
    | inr third ↦
        let low : 524 ≤ l = ground (arith, third) in
        let m = l - 524 in
        rw (past, third)
          (subst
            (λ x. BlockOf fs ip x (
              get32 (getblock fs (get32 (getblock fs (ip.i_block 13)) (4 * (m / 512))))
                (4 * (m % 512))))
            (omega (arith, low)) (double (m / 512) (m % 512) (omega (arith, low, h)) (omega arith)))
  ]
]

content-file :
    (fs : Fs) (ip : Inode) (file : ℕ → ℕ) (i : ℕ)
    → IsContent fs ip file
    → i < 537944064
    → content fs ip i ≡ file i
content-file fs ip file i c h =
    sym (
      c (i / 2048) (block_of fs ip (i / 2048)) (i % 2048)
        (block_of-BlockOf fs ip (i / 2048) (omega (arith, h))) (omega arith))
    ∙ ap file (omega arith)

-- On a descriptor of a file that is no longer than its blocks reach, `read_file` gives the bytes of the file from the offset
-- on, as many as are asked for and the file has left, and moves the offset behind them. It stores these bytes and one NUL
-- more, so `count + 1` bytes at most.
pub read_file-Sliced :
    (s : Filing) (fd count o : ℕ) (p : InodePtr) (file : ℕ → ℕ)
    → curr_fd s.kernel fd ≡ some o
    → (s.kernel.open_file_table o).m_ptr ≡ some p
    → IsContent s.fs (minode s.fs p).inode file
    → (minode s.fs p).inode.i_size ≤ 537944064
    → let f = s.kernel.open_file_table o in
      let ip = (minode s.fs p).inode in
      let n = min count (ip.i_size - f.offset) in
      read_file s fd count
      ≡ some (
        n,
        bytes_from n file f.offset ++ (0 ∷ []),
        record s { kernel = set_oft s.kernel o (record f { offset = f.offset + n }) },
      )
read_file-Sliced s fd count o p file e e' c h =
    let f = s.kernel.open_file_table o in
    let ip = (minode s.fs p).inode in
    read_file-content s fd count o p e e'
    ∙ rw
        (bytes_from_same (min count (ip.i_size - f.offset)) (content s.fs ip) file f.offset f.offset
          (λ i l. content-file s.fs ip file (f.offset + i) c (omega (arith, h, l))))
        refl
