-- ===== src/Ext2/Writing/Direct/Run.antt =====
-- What writing into the first twelve blocks of a file does to its contents.
use xern.Base.{
  ℕ, zero, suc, ◌+◌, ◌-◌, ◌*◌, ◌/◌, ◌%◌, ◌<◌, ◌≤◌, min, ◌≡◌, refl, ◌∙◌, subst, arith, ◌==◌, Bool,
  true, false, ◌||◌, ◌≢◌, inl, inr, Bool-cases, List, take, drop, length, length-take, length-drop,
}
use xern.Permissions.{Inode}
use xern.Ext2.{Fs, putblock, getblock, blocksize}
use xern.Ext2.Data.{round_len}
use xern.Ext2.Writing.{direct_block, place_block, paste, write_run}
use xern.Ext2.Writing.Paste.{nth, nth-drop, nth-take}
use xern.Ext2.Writing.Direct.Pieces.{Wrote, join-Wrote, round-Wrote}
use xern.Ext2.Writing.Direct.{Marked, Placed, direct_block-Placed}

empty-Wrote :
    (map home : ℕ) (fs : Fs) (ip : Inode) (offset : ℕ) (g : ℕ → ℕ)
    → fs.block_bitmap ≡ map
    → Marked fs.disk map home ip.i_block
    → Wrote map home fs ip fs ip offset 0 g
empty-Wrote map home fs ip offset g e m = record {
  marked = m;
  place = e;
  start = refl;
  mode = refl;
  blocks = λ j l h. refl;
  there = λ i l. absurd (omega arith);
  written = λ i l. absurd (omega arith);
  kept = λ i l h out. refl;
}

-- What the loop did when it found a block for every round.
abbrev pub RunWrote :
    (map home : ℕ) → Fs → Inode → (offset : ℕ) → List ℕ → (n : ℕ) → Bool × ℕ × Inode × Fs → Type 0
RunWrote map home fs ip offset text n (ok, m, ip', fs') =
    ok ≡ true → (m ≡ min n (length text)) × Wrote map home fs ip fs' ip' offset m (nth text)

direct_place :
    (fs : Fs) (ip : Inode) (lbk : ℕ) → lbk < 12 → place_block fs ip lbk ≡ direct_block fs ip lbk
unfolding place_block
direct_place fs ip lbk h = ground arith

same_bytes :
    (map home : ℕ) (fs : Fs) (ip : Inode) (fs' : Fs) (ip' : Inode) (offset m n : ℕ) (g g' : ℕ → ℕ)
    → m ≡ n
    → ((i : ℕ) → i < n → g i ≡ g' i)
    → Wrote map home fs ip fs' ip' offset m g
    → Wrote map home fs ip fs' ip' offset n g'
same_bytes map home fs ip fs' ip' offset m n g g' e h w = record {
  marked = w.marked;
  place = w.place;
  start = w.start;
  mode = w.mode;
  blocks = w.blocks;
  there = λ i l. w.there i (omega arith);
  written = λ i l. w.written i (omega arith) ∙ h i l;
  kept = λ i l h out. w.kept i l h (omega (arith, out));
}

-- A round and then the rest.
step-RunWrote :
    (map home : ℕ) (fs : Fs) (ip : Inode) (fs' : Fs) (ip' : Inode) (text : List ℕ)
    (n offset blk : ℕ)
    → offset + min n (length text) ≤ 12 * blocksize
    → 1 ≤ min n (length text)
    → blk ≢ 0
    → Placed fs ip map home (offset / blocksize) blk ip' fs'
    → (r : Bool × ℕ × Inode × Fs)
    → let len = round_len n (length text) offset in
      let fs2 = putblock fs' blk (paste (getblock fs' blk) (offset % blocksize) (take len text)) in
      (Marked fs2.disk map home ip'.i_block
        → RunWrote map home fs2 ip' (offset + len) (drop len text) (n - len) r)
      → RunWrote map home fs ip offset text n (r.0, len + r.1, r.2, r.3)
step-RunWrote map home fs ip fs' ip' text n offset blk room more nz p (all, m, ip'', fs'') rest ok =
    (
      omega (arith, (rest round.marked ok).0, length-drop len text),
      join-Wrote map home fs ip fs2 ip' fs'' ip'' offset len m (nth text) (omega arith) round (
          same_bytes map home fs2 ip' fs'' ip'' (offset + len) m m (nth (drop len text))
            (λ i. nth text (len + i)) refl (λ i l. nth-drop len text i) (rest round.marked ok).1),
    )
  where
    len : ℕ
    len = round_len n (length text) offset

    fs2 : Fs
    fs2 = putblock fs' blk (paste (fs'.disk blk) (offset % blocksize) (take len text))

    taken : length (take len text) ≡ len
    taken = omega (arith, length-take len text)

    round : Wrote map home fs ip fs2 ip' offset len (nth text)
    round =
        same_bytes map home fs ip fs2 ip' offset (length (take len text)) len (nth (take len text))
          (nth text) taken (λ i l. nth-take len text i l)
          (round-Wrote fs ip fs' ip' map home blk offset (take len text) (omega (arith, taken))
            (omega (arith, taken)) (omega (arith, taken)) nz p)

place_block-Placed :
    (map home : ℕ) (fs : Fs) (ip : Inode) (lbk : ℕ)
    → lbk < 12
    → fs.block_bitmap ≡ map
    → Marked fs.disk map home ip.i_block
    → let (blk, ip', fs') = place_block fs ip lbk in blk ≢ 0 → Placed fs ip map home lbk blk ip' fs'
place_block-Placed map home fs ip lbk l e m = rw (direct_place fs ip lbk l) (
    subst
      (λ q.
        Marked fs.disk q home ip.i_block
        → (direct_block fs ip lbk).0 ≢ 0
        → Placed fs ip q home lbk (direct_block fs ip lbk).0 (direct_block fs ip lbk).1
            (direct_block fs ip lbk).2)
      e (direct_block-Placed fs ip home lbk l) m)

pub write_run-Wrote :
    (fuel map home : ℕ) (fs : Fs) (ip : Inode) (text : List ℕ) (n offset : ℕ)
    → n ≤ fuel
    → offset + min n (length text) ≤ 12 * blocksize
    → fs.block_bitmap ≡ map
    → Marked fs.disk map home ip.i_block
    → RunWrote map home fs ip offset text n (write_run fuel fs ip text n offset)
unfolding write_run
write_run-Wrote zero map home fs ip text n offset h room e m =
    λ ok. (omega arith, empty-Wrote map home fs ip offset (nth text) e m)
write_run-Wrote (suc fuel) map home fs ip text n offset h room e m =
    elim (Bool-cases (n == 0 || length text == 0)) [
      | inl done ↦
          rw (done, write_run)
            (λ ok. (ground arith, empty-Wrote map home fs ip offset (nth text) e m))
      | inr more ↦ elim (Bool-cases ((place_block fs ip (offset / blocksize)).0 == 0)) [
        | inl full ↦ rw (more, full, write_run) (λ ok. absurd (never ok))
        | inr found ↦
            rw (more, found, write_run)
              (let lbk = offset / blocksize in
                let len = round_len n (length text) offset in
                let p =
                  place_block-Placed map home fs ip lbk (ground (arith, more)) e m
                    (apart (place_block fs ip lbk).0 found) in
                step-RunWrote map home fs ip (place_block fs ip lbk).2 (place_block fs ip lbk).1
                  text n offset (place_block fs ip lbk).0 room (ground (arith, more))
                  (apart (place_block fs ip lbk).0 found) p _
                  (λ m2.
                    write_run-Wrote fuel map home _ _ (drop len text) (n - len) (offset + len)
                      (ground (arith, more)) (omega (arith, length-drop len text)) p.place m2))
      ]
    ]
  where
    never : false ≡ true → ⊥
    never e = cc

    apart : (blk : ℕ) → (blk == 0) ≡ false → blk ≢ 0
    apart blk e same = ground (arith, e, same)
