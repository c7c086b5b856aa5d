-- ===== src/Ext2/Entries/Laid.antt =====
-- The entries that the bytes of a block of a directory stand for.
use xern.Base.{
  subst, ℕ, ◌+◌, ◌*◌, ◌%◌, ◌^◌, ◌<◌, ◌≤◌, ◌≡◌, ap, ◌∙◌, arith, ◌⊎◌, inl, List, [], ◌∷◌, ◌++◌,
  length, update,
}
use xern.Ext2.{blocksize, get16, get32, put16, put32, byte_of}
use xern.Ext2.Lookup.{rec_len, name_len, entry_name}
use xern.Ext2.Writing.{paste}
use xern.Ext2.Writing.Paste.{nth, paste-in, paste-out}
use xern.Ext2.Entries.{padded, put_entry}

-- An entry: the number of its inode, its length and its name.
pub record Dirent : Type 0 where
  pub ino : ℕ
  pub len : ℕ
  pub name : List ℕ

-- The entry stands at place `p`, and has room for its name.
pub record At (buf : ℕ → ℕ) (p : ℕ) (e : Dirent) : Type 0 where
  pub ino : get32 buf p ≡ e.ino
  pub len : rec_len buf p ≡ e.len
  pub size : name_len buf p ≡ length e.name
  pub name : (i : ℕ) → i < length e.name → entry_name buf p i ≡ nth e.name i
  pub room : padded (length e.name) ≤ e.len

-- The entries stand one behind the other from place `p` on.
abbrev pub Stand : (ℕ → ℕ) → ℕ → List Dirent → Type 0
Stand buf p [] = Unit
Stand buf p (e ∷ es) = At buf p e × Stand buf (p + e.len) es

-- The bytes that entries take up.
abbrev pub total : List Dirent → ℕ
total [] = 0
total (e ∷ es) = e.len + total es

-- The entries fill the block.
abbrev pub Laid : (ℕ → ℕ) → List Dirent → Type 0
Laid buf es = Stand buf 0 es × (total es ≡ blocksize)

pub total-append : (es fs : List Dirent) → total (es ++ fs) ≡ total es + total fs
total-append [] fs = omega arith
total-append (e ∷ es) fs = omega (arith, total-append es fs)

-- Only the bytes of the fields and of the name count.
pub At-same :
    (buf buf' : ℕ → ℕ) (p q : ℕ) (e : Dirent)
    → ((k : ℕ) → k < 8 + length e.name → buf' (q + k) ≡ buf (p + k))
    → At buf p e
    → At buf' q e
unfolding get16 get32
At-same buf buf' p q e h a = record {
  ino = ground (
    arith,
    a.ino,
    first buf p,
    first buf' q,
    h 0 (omega arith),
    h 1 (omega arith),
    h 2 (omega arith),
    h 3 (omega arith),
  );
  len = ground (arith, a.len, assoc buf p 4, assoc buf' q 4, h 4 (omega arith), h 5 (omega arith));
  size = h 6 (omega arith) ∙ a.size;
  name = λ i l.
      ap buf' {x = q + 8 + i} {y = q + (8 + i)} (omega arith)
      ∙ (h (8 + i) (omega arith)
          ∙ (ap buf {x = p + (8 + i)} {y = p + 8 + i} (omega arith) ∙ a.name i l));
  room = a.room;
}
  where
    first : (b : ℕ → ℕ) (r : ℕ) → b (r + 0) ≡ b r
    first b r = ap b (omega arith)

    assoc : (b : ℕ → ℕ) (r n : ℕ) → b (r + n + 1) ≡ b (r + (n + 1))
    assoc b r n = ap b (omega arith)

-- The bytes that `put_entry` writes.
pub put_entry-out :
    (buf : ℕ → ℕ) (p child len : ℕ) (name : List ℕ) (k : ℕ)
    → (k < p) ⊎ (p + 8 + length name ≤ k)
    → put_entry buf p child len name k ≡ buf k
unfolding put_entry put16 put32
put_entry-out buf p child len name k h = paste-out _ (p + 8) name k (further h) ∙ header h
  where
    further : (k < p) ⊎ (p + 8 + length name ≤ k) → (k < p + 8) ⊎ (p + 8 + length name ≤ k)
    further h = ground (arith, h)

    header :
        (k < p) ⊎ (p + 8 + length name ≤ k)
        → update (put16 (put32 buf p child) (p + 4) len) (p + 6) (length name % 256) k ≡ buf k
    header h = ground (arith, h)

pub put_entry-At :
    (buf : ℕ → ℕ) (p child len : ℕ) (name : List ℕ)
    → child < 2 ^ 32
    → len < 2 ^ 16
    → length name ≤ 255
    → padded (length name) ≤ len
    → At (put_entry buf p child len name) p (record { ino = child; len = len; name = name })
unfolding put_entry put16 put32 get16 get32
put_entry-At buf p child len name c l n r = record {
  ino = ground (
    arith,
    head 0 (omega arith),
    head 1 (omega arith),
    head 2 (omega arith),
    head 3 (omega arith),
    ap b {x = p + 0} {y = p} (omega arith),
    ap h {x = p + 0} {y = p} (omega arith),
    number,
  );
  len = ground (
    arith,
    head 4 (omega arith),
    head 5 (omega arith),
    ap b {x = p + 4 + 1} {y = p + 5} (omega arith),
    half,
  );
  size = head 6 (omega arith) ∙ ground arith;
  name = λ i s. paste-in h (p + 8) name i s;
  room = r;
}
  where
    h : ℕ → ℕ
    h = update (put16 (put32 buf p child) (p + 4) len) (p + 6) (length name % 256)

    b : ℕ → ℕ
    b = paste h (p + 8) name

    head : (k : ℕ) → k < 8 → b (p + k) ≡ h (p + k)
    head k s = paste-out h (p + 8) name (p + k) (inl (omega arith))

    number :
        byte_of child 0
          + 256 * byte_of child 1
          + 65536 * byte_of child 2
          + 16777216 * byte_of child 3
        ≡ child
    number = omega arith

    half : byte_of len 0 + 256 * byte_of len 1 ≡ len
    half = omega arith

-- The length of an entry is written anew.
pub At-resize :
    (buf : ℕ → ℕ) (p n : ℕ) (e : Dirent)
    → n < 2 ^ 16
    → padded (length e.name) ≤ n
    → At buf p e
    → At (put16 buf (p + 4) n) p (record e { len = n })
unfolding put16 get16 get32
At-resize buf p n e h r a = record {
  ino = ground (arith, a.ino);
  len = ground (arith, half);
  size = ground (arith, a.size);
  name = λ i l. ground (arith, a.name i l);
  room = r;
}
  where
    half : byte_of n 0 + 256 * byte_of n 1 ≡ n
    half = omega arith

pub put16-out : (buf : ℕ → ℕ) (p n k : ℕ) → (k < p) ⊎ (p + 2 ≤ k) → put16 buf p n k ≡ buf k
unfolding put16
put16-out buf p n k h = ground (arith, h)

-- Entries stand where their bytes stand.
pub Stand-same :
    (buf buf' : ℕ → ℕ) (p q : ℕ) (es : List Dirent)
    → ((k : ℕ) → k < total es → buf' (q + k) ≡ buf (p + k))
    → Stand buf p es
    → Stand buf' q es
Stand-same buf buf' p q [] h s = tt
Stand-same buf buf' p q (e ∷ es) h s = (
  At-same buf buf' p q e (λ k l. h k (omega (arith, s.0.room))) s.0,
  Stand-same buf buf' (p + e.len) (q + e.len) es (λ k l. moved k (h (e.len + k) (omega arith))) s.1,
)
  where
    moved :
        (k : ℕ)
        → buf' (q + (e.len + k)) ≡ buf (p + (e.len + k))
        → buf' (q + e.len + k) ≡ buf (p + e.len + k)
    moved k i =
        ap buf' {x = q + e.len + k} {y = q + (e.len + k)} (omega arith)
        ∙ (i ∙ ap buf {x = p + (e.len + k)} {y = p + e.len + k} (omega arith))

pub Stand-append :
    (buf : ℕ → ℕ) (p : ℕ) (es fs : List Dirent)
    → Stand buf p es
    → Stand buf (p + total es) fs
    → Stand buf p (es ++ fs)
Stand-append buf p [] fs s t = subst (λ q. Stand buf q fs) {x = p + 0} {y = p} (omega arith) t
Stand-append buf p (e ∷ es) fs s t = (
  s.0,
  Stand-append buf (p + e.len) es fs s.1 (
      subst (λ q. Stand buf q fs) {x = p + (e.len + total es)} {y = p + e.len + total es}
        (omega arith) t),
)

pub Stand-init :
    (buf : ℕ → ℕ) (p : ℕ) (es fs : List Dirent) → Stand buf p (es ++ fs) → Stand buf p es
Stand-init buf p [] fs s = tt
Stand-init buf p (e ∷ es) fs s = (s.0, Stand-init buf (p + e.len) es fs s.1)

pub Stand-rest :
    (buf : ℕ → ℕ) (p : ℕ) (es fs : List Dirent)
    → Stand buf p (es ++ fs)
    → Stand buf (p + total es) fs
Stand-rest buf p [] fs s = subst (λ q. Stand buf q fs) {x = p} {y = p + 0} (omega arith) s
Stand-rest buf p (e ∷ es) fs s =
    subst (λ q. Stand buf q fs) {x = p + e.len + total es} {y = p + (e.len + total es)}
      (omega arith) (Stand-rest buf (p + e.len) es fs s.1)
