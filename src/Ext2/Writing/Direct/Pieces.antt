-- ===== src/Ext2/Writing/Direct/Pieces.antt =====
-- What one round of `write_file` does to the contents of a file, and two of them.
use xern.Base.{
  ℕ, ◌+◌, ◌-◌, ◌*◌, ◌/◌, ◌%◌, ◌<◌, ◌≤◌, ◌≡◌, sym, ap, ◌∙◌, subst, arith, ◌==◌, false, ◌≢◌, ◌⊎◌, inl,
  inr, Bool-cases, ==_iff, List, length,
}
use xern.Permissions.{Inode}
use xern.Ext2.{Fs, putblock, blocksize}
use xern.Ext2.Writing.{paste}
use xern.Ext2.Writing.Paste.{nth, paste-in, paste-out}
use xern.Ext2.Writing.Direct.{own, Marked, Marked-disk, Placed}

-- The byte at a place of the file in its direct blocks.
abbrev pub direct_content : Fs → Inode → ℕ → ℕ
direct_content fs ip i = fs.disk (ip.i_block (i / blocksize)) (i % blocksize)

-- From `fs` and `ip` to `fs'` and `ip'`, the `m` bytes of the file from `offset` on became those of `g`, and every other
-- byte of a block that was there stayed.
pub record Wrote (map home : ℕ) (fs : Fs) (ip : Inode) (fs' : Fs) (ip' : Inode) (offset m : ℕ)
    (g : ℕ → ℕ) : Type 0 where
  pub marked : Marked fs'.disk map home ip'.i_block
  pub place : fs'.block_bitmap ≡ map
  pub start : fs'.inode_start ≡ fs.inode_start
  pub mode : ip'.i_mode ≡ ip.i_mode
  pub blocks : (j : ℕ) → j < 12 → ip.i_block j ≢ 0 → ip'.i_block j ≡ ip.i_block j
  pub there : (i : ℕ) → i < m → ip'.i_block ((offset + i) / blocksize) ≢ 0
  pub written : (i : ℕ) → i < m → direct_content fs' ip' (offset + i) ≡ g i
  pub kept :
      (i : ℕ)
      → i < 12 * blocksize
      → ip.i_block (i / blocksize) ≢ 0
      → (i < offset) ⊎ (offset + m ≤ i)
      → direct_content fs' ip' i ≡ direct_content fs ip i

lt_or_ge : (i m : ℕ) → (i < m) ⊎ (m ≤ i)
lt_or_ge i m = ground arith

behind : (offset m i : ℕ) → m ≤ i → offset + m + (i - m) ≡ offset + i
behind offset m i h = omega arith

-- One piece behind another.
pub join-Wrote :
    (map home : ℕ) (fs : Fs) (ip : Inode) (fs' : Fs) (ip' : Inode) (fs'' : Fs) (ip'' : Inode)
    (offset m n : ℕ) (g : ℕ → ℕ)
    → offset + m ≤ 12 * blocksize
    → Wrote map home fs ip fs' ip' offset m g
    → Wrote map home fs' ip' fs'' ip'' (offset + m) n (λ i. g (m + i))
    → Wrote map home fs ip fs'' ip'' offset (m + n) g
join-Wrote map home fs ip fs' ip' fs'' ip'' offset m n g room v w = record {
  marked = w.marked;
  place = w.place;
  start = w.start ∙ v.start;
  mode = w.mode ∙ v.mode;
  blocks = λ j l h. w.blocks j l (λ e. h (sym (v.blocks j l h) ∙ e)) ∙ v.blocks j l h;
  there = λ i l. elim (lt_or_ge i m) [
    | inl first ↦ λ e.
        v.there i first
          (sym (w.blocks ((offset + i) / blocksize) (omega arith) (v.there i first)) ∙ e)
    | inr later ↦
        subst (λ k. ip''.i_block (k / blocksize) ≢ 0) (behind offset m i later)
          (w.there (i - m) (omega arith))
  ];
  written = λ i l. elim (lt_or_ge i m) [
    | inl first ↦
        w.kept (offset + i) (omega arith) (v.there i first) (inl (omega arith)) ∙ v.written i first
    | inr later ↦
        subst (λ k. direct_content fs'' ip'' k ≡ g (m + (i - m))) (behind offset m i later)
          (w.written (i - m) (omega arith))
        ∙ ap g {x = m + (i - m)} {y = i} (omega arith)
  ];
  kept = λ i l h out.
      w.kept i l (λ e. h (sym (v.blocks (i / blocksize) (omega arith) h) ∙ e)) (ground (arith, out))
      ∙ v.kept i l h (ground (arith, out));
}

-- A block stored that the file does not have at another place.
put_same : (fs : Fs) (blk b : ℕ) (buf : ℕ → ℕ) → b ≢ blk → (putblock fs blk buf).disk b ≡ fs.disk b
put_same fs blk b buf h = ground arith

put_here : (fs : Fs) (blk : ℕ) (buf : ℕ → ℕ) → (putblock fs blk buf).disk blk ≡ buf
put_here fs blk buf = ground arith

not_map : (map home b : ℕ) → own map home b ≡ false → map ≢ b
not_map map home b e same = ground (arith, e, same)

-- A round of `write_file`: the block is found and the bytes are pasted.
pub round-Wrote :
    (fs : Fs) (ip : Inode) (fs' : Fs) (ip' : Inode) (map home blk offset : ℕ) (s : List ℕ)
    → offset + length s ≤ 12 * blocksize
    → offset % blocksize + length s ≤ blocksize
    → 1 ≤ length s
    → blk ≢ 0
    → Placed fs ip map home (offset / blocksize) blk ip' fs'
    → Wrote map home fs ip
        (putblock fs' blk (paste (fs'.disk blk) (offset % blocksize) s))
        ip'
        offset
        (length s)
        (nth s)
round-Wrote fs ip fs' ip' map home blk offset s room fits some_byte nz p = record {
  marked =
      Marked-disk fs'.disk fs2.disk map home ip'.i_block
        (put_same fs' blk map buf (not_map map home blk mine)) p.marked;
  place = p.place;
  start = p.start;
  mode = p.mode;
  blocks = p.kept;
  there = λ i l. subst (λ j. ip'.i_block j ≢ 0) (lbk_same i l) here_nz;
  written = λ i l.
      here ((offset + i) / blocksize) ((offset + i) % blocksize) (sym (lbk_same i l))
      ∙ (ap buf {x = (offset + i) % blocksize} {y = offset % blocksize + i} (omega arith)
          ∙ paste-in (fs'.disk blk) (offset % blocksize) s i l);
  kept = λ i l h out. elim (Bool-cases (i / blocksize == offset / blocksize)) [
    | inl e ↦
        here (i / blocksize) (i % blocksize) ((==_iff _ _).0 e)
        ∙ (paste-out (fs'.disk blk) (offset % blocksize) s (i % blocksize) (ground (arith, out, e))
            ∙ (ap (λ d. d (i % blocksize)) (p.same blk mine)
                ∙ ap (λ b. fs.disk b (i % blocksize))
                    (sym (at (i / blocksize) ((==_iff _ _).0 e))
                      ∙ p.kept (i / blocksize) (omega arith) h)))
    | inr e ↦
        ap (λ d. d (i % blocksize))
          (put_same fs' blk (ip'.i_block (i / blocksize)) buf (elsewhere i l h e))
        ∙ (ap (λ d. d (i % blocksize))
              (p.same (ip'.i_block (i / blocksize))
                (p.marked.apart (i / blocksize) (omega arith) (still i l h)))
            ∙ ap (λ b. fs.disk b (i % blocksize)) (p.kept (i / blocksize) (omega arith) h))
  ];
}
  where
    buf : ℕ → ℕ
    buf = paste (fs'.disk blk) (offset % blocksize) s

    fs2 : Fs
    fs2 = putblock fs' blk buf

    here_nz : ip'.i_block (offset / blocksize) ≢ 0
    here_nz e = nz (sym p.found ∙ e)

    mine : own map home blk ≡ false
    mine =
        subst (λ b. own map home b ≡ false) p.found
          (p.marked.apart (offset / blocksize) (omega arith) here_nz)

    lbk_same : (i : ℕ) → i < length s → offset / blocksize ≡ (offset + i) / blocksize
    lbk_same i l = omega arith

    at : (j : ℕ) → j ≡ offset / blocksize → ip'.i_block j ≡ blk
    at j e = ap ip'.i_block e ∙ p.found

    here : (j k : ℕ) → j ≡ offset / blocksize → fs2.disk (ip'.i_block j) k ≡ buf k
    here j k e = ap (λ b. fs2.disk b k) (at j e) ∙ ap (λ d. d k) (put_here fs' blk buf)

    still :
        (i : ℕ)
        → i < 12 * blocksize
        → ip.i_block (i / blocksize) ≢ 0
        → ip'.i_block (i / blocksize) ≢ 0
    still i l h e = h (sym (p.kept (i / blocksize) (omega arith) h) ∙ e)

    elsewhere :
        (i : ℕ)
        → i < 12 * blocksize
        → ip.i_block (i / blocksize) ≢ 0
        → (i / blocksize == offset / blocksize) ≡ false
        → ip'.i_block (i / blocksize) ≢ blk
    elsewhere i l h ne same = ground (
      arith,
      ne,
      p.marked.distinct (i / blocksize) (offset / blocksize) (omega arith) (omega arith)
          (still i l h) (same ∙ sym p.found),
    )
