-- ===== src/Ext2/Codec.antt =====
-- Inodes as bytes: what `memcpy` of a `struct ext2_inode` puts into a block and what a cast of the
-- block reads back.
use xern.Base.{ℕ, ◌+◌, ◌*◌, ◌^◌, ◌<◌, ◌≡◌, refl, ap, ◌∙◌, arith}
use xern.Bits.Maps.{IsBytes}
use xern.Ext2.{byte_of, get16, get32, inode_at, inode_byte, put_inode}
use xern.Permissions.{Inode}

-- A byte is below 256.
pub byte_of_lt : (v n : ℕ) → byte_of v n < 256
byte_of_lt v n = omega arith

pub put_inode-IsBytes :
    (buf : ℕ → ℕ) (p : ℕ) (ip : Inode) → IsBytes buf → IsBytes (put_inode buf p ip)
unfolding put_inode inode_byte
put_inode-IsBytes buf p ip h i = ground (arith, h i)

-- The bytes of the inode stand at their places.
place :
    (buf : ℕ → ℕ) (p : ℕ) (ip : Inode) (k : ℕ)
    → k < 128
    → put_inode buf p ip (p + k) ≡ inode_byte ip k
unfolding put_inode
place buf p ip k h = ground arith

two : (v : ℕ) → v < 2 ^ 16 → byte_of v 0 + 256 * byte_of v 1 ≡ v
two v h = omega arith

four :
    (v : ℕ)
    → v < 2 ^ 32
    → byte_of v 0 + 256 * byte_of v 1 + 65536 * byte_of v 2 + 16777216 * byte_of v 3 ≡ v
four v h = omega arith

field16 :
    (buf : ℕ → ℕ) (p : ℕ) (ip : Inode) (k v : ℕ)
    → k < 127
    → inode_byte ip k ≡ byte_of v 0
    → inode_byte ip (k + 1) ≡ byte_of v 1
    → v < 2 ^ 16
    → (q : ℕ) → q ≡ p + k
    → get16 (put_inode buf p ip) q ≡ v
unfolding get16
field16 buf p ip k v h a b r q at =
    ground (
      arith,
      at,
      place buf p ip k (omega arith),
      place buf p ip (k + 1) (omega arith),
      a,
      b,
      two v r,
    )

field32 :
    (buf : ℕ → ℕ) (p : ℕ) (ip : Inode) (k v : ℕ)
    → k < 125
    → inode_byte ip k ≡ byte_of v 0
    → inode_byte ip (k + 1) ≡ byte_of v 1
    → inode_byte ip (k + 2) ≡ byte_of v 2
    → inode_byte ip (k + 3) ≡ byte_of v 3
    → v < 2 ^ 32
    → (q : ℕ) → q ≡ p + k
    → get32 (put_inode buf p ip) q ≡ v
unfolding get32
field32 buf p ip k v h a b c d r q at = ground (
  arith,
  at,
  place buf p ip k (omega arith),
  place buf p ip (k + 1) (omega arith),
  place buf p ip (k + 2) (omega arith),
  place buf p ip (k + 3) (omega arith),
  a,
  b,
  c,
  d,
  four v r,
)

-- The numbers of an inode fit the widths of their fields.
pub record InRange (ip : Inode) : Type 0 where
  pub mode : ip.i_mode < 2 ^ 16
  pub uid : ip.i_uid < 2 ^ 16
  pub size : ip.i_size < 2 ^ 32
  pub atime : ip.i_atime < 2 ^ 32
  pub ctime : ip.i_ctime < 2 ^ 32
  pub mtime : ip.i_mtime < 2 ^ 32
  pub dtime : ip.i_dtime < 2 ^ 32
  pub gid : ip.i_gid < 2 ^ 16
  pub links : ip.i_links_count < 2 ^ 16
  pub blocks : ip.i_blocks < 2 ^ 32
  pub flags : ip.i_flags < 2 ^ 32
  pub osd1 : ip.i_osd1 < 2 ^ 32
  pub block : (j : ℕ) → j < 15 → ip.i_block j < 2 ^ 32
  pub pad : (j : ℕ) → j < 5 → ip.i_pad j < 2 ^ 32
  pub reserved : (j : ℕ) → j < 2 → ip.i_reserved j < 2 ^ 32

-- The two inodes agree in every field.
pub record SameInode (a b : Inode) : Type 0 where
  pub mode : a.i_mode ≡ b.i_mode
  pub uid : a.i_uid ≡ b.i_uid
  pub size : a.i_size ≡ b.i_size
  pub atime : a.i_atime ≡ b.i_atime
  pub ctime : a.i_ctime ≡ b.i_ctime
  pub mtime : a.i_mtime ≡ b.i_mtime
  pub dtime : a.i_dtime ≡ b.i_dtime
  pub gid : a.i_gid ≡ b.i_gid
  pub links : a.i_links_count ≡ b.i_links_count
  pub blocks : a.i_blocks ≡ b.i_blocks
  pub flags : a.i_flags ≡ b.i_flags
  pub osd1 : a.i_osd1 ≡ b.i_osd1
  pub block : (j : ℕ) → j < 15 → a.i_block j ≡ b.i_block j
  pub pad : (j : ℕ) → j < 5 → a.i_pad j ≡ b.i_pad j
  pub reserved : (j : ℕ) → j < 2 → a.i_reserved j ≡ b.i_reserved j

-- The bytes of the three arrays.
block_byte :
    (ip : Inode) (j c : ℕ)
    → j < 15
    → c < 4
    → inode_byte ip (40 + 4 * j + c) ≡ byte_of (ip.i_block j) c
unfolding inode_byte
block_byte ip j c h r = ground arith

pad_byte :
    (ip : Inode) (j c : ℕ)
    → j < 5
    → c < 4
    → inode_byte ip (100 + 4 * j + c) ≡ byte_of (ip.i_pad j) c
unfolding inode_byte
pad_byte ip j c h r = ground arith

reserved_byte :
    (ip : Inode) (j c : ℕ)
    → j < 2
    → c < 4
    → inode_byte ip (120 + 4 * j + c) ≡ byte_of (ip.i_reserved j) c
unfolding inode_byte
reserved_byte ip j c h r = ground arith

array :
    (buf : ℕ → ℕ) (p : ℕ) (ip : Inode) (b j v : ℕ)
    → b + 4 * j < 125
    → ((c : ℕ) → c < 4 → inode_byte ip (b + 4 * j + c) ≡ byte_of v c)
    → v < 2 ^ 32
    → (q : ℕ) → q ≡ p + (b + 4 * j)
    → get32 (put_inode buf p ip) q ≡ v
array buf p ip b j v h e r q at =
    field32 buf p ip (b + 4 * j) v h
      (ap (inode_byte ip) {x = b + 4 * j} {y = b + 4 * j + 0} (omega arith) ∙ e 0 (omega arith))
      (e 1 (omega arith)) (e 2 (omega arith)) (e 3 (omega arith)) r q at

-- What is read back is what was put.
pub inode_at-put_inode :
    (buf : ℕ → ℕ) (p : ℕ) (ip : Inode) → InRange ip → SameInode (inode_at (put_inode buf p ip) p) ip
unfolding inode_at inode_byte
inode_at-put_inode buf p ip r = record {
  mode = field16 buf p ip 0 ip.i_mode (omega arith) refl refl r.mode _ (omega arith);
  uid = field16 buf p ip 2 ip.i_uid (omega arith) refl refl r.uid _ (omega arith);
  size = field32 buf p ip 4 ip.i_size (omega arith) refl refl refl refl r.size _ (omega arith);
  atime = field32 buf p ip 8 ip.i_atime (omega arith) refl refl refl refl r.atime _ (omega arith);
  ctime = field32 buf p ip 12 ip.i_ctime (omega arith) refl refl refl refl r.ctime _ (omega arith);
  mtime = field32 buf p ip 16 ip.i_mtime (omega arith) refl refl refl refl r.mtime _ (omega arith);
  dtime = field32 buf p ip 20 ip.i_dtime (omega arith) refl refl refl refl r.dtime _ (omega arith);
  gid = field16 buf p ip 24 ip.i_gid (omega arith) refl refl r.gid _ (omega arith);
  links = field16 buf p ip 26 ip.i_links_count (omega arith) refl refl r.links _ (omega arith);
  blocks =
      field32 buf p ip 28 ip.i_blocks (omega arith) refl refl refl refl r.blocks _ (omega arith);
  flags = field32 buf p ip 32 ip.i_flags (omega arith) refl refl refl refl r.flags _ (omega arith);
  osd1 = field32 buf p ip 36 ip.i_osd1 (omega arith) refl refl refl refl r.osd1 _ (omega arith);
  block = λ j h.
      array buf p ip 40 j (ip.i_block j) (omega arith) (λ c l. block_byte ip j c h l) (r.block j h)
        _ (omega arith);
  pad = λ j h.
      array buf p ip 100 j (ip.i_pad j) (omega arith) (λ c l. pad_byte ip j c h l) (r.pad j h) _
        (omega arith);
  reserved = λ j h.
      array buf p ip 120 j (ip.i_reserved j) (omega arith) (λ c l. reserved_byte ip j c h l)
        (r.reserved j h) _ (omega arith);
}

-- The same 128 bytes are the same inode.
pub inode_at-Same :
    (b c : ℕ → ℕ) (p : ℕ)
    → ((k : ℕ) → k < 128 → b (p + k) ≡ c (p + k))
    → SameInode (inode_at b p) (inode_at c p)
unfolding inode_at get16 get32
inode_at-Same b c p h = record {
  mode = half 0 (omega arith) p (omega arith);
  uid = half 2 (omega arith) _ (omega arith);
  size = word 4 (omega arith) _ (omega arith);
  atime = word 8 (omega arith) _ (omega arith);
  ctime = word 12 (omega arith) _ (omega arith);
  mtime = word 16 (omega arith) _ (omega arith);
  dtime = word 20 (omega arith) _ (omega arith);
  gid = half 24 (omega arith) _ (omega arith);
  links = half 26 (omega arith) _ (omega arith);
  blocks = word 28 (omega arith) _ (omega arith);
  flags = word 32 (omega arith) _ (omega arith);
  osd1 = word 36 (omega arith) _ (omega arith);
  block = λ j l. word (40 + 4 * j) (omega arith) _ (omega arith);
  pad = λ j l. word (100 + 4 * j) (omega arith) _ (omega arith);
  reserved = λ j l. word (120 + 4 * j) (omega arith) _ (omega arith);
}
  where
    half : (k : ℕ) → k < 127 → (q : ℕ) → q ≡ p + k → get16 b q ≡ get16 c q
    half k l q at = ground (arith, at, h k (omega arith), h (k + 1) (omega arith))

    word : (k : ℕ) → k < 125 → (q : ℕ) → q ≡ p + k → get32 b q ≡ get32 c q
    word k l q at = ground (
      arith,
      at,
      h k (omega arith),
      h (k + 1) (omega arith),
      h (k + 2) (omega arith),
      h (k + 3) (omega arith),
    )
