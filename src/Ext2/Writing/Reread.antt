-- ===== src/Ext2/Writing/Reread.antt =====
-- What `write_file` wrote, read again by `read_file` behind a `klseek`.
use xern.Base.{
  ℕ, zero, suc, ◌+◌, ◌-◌, ◌*◌, ◌/◌, ◌<◌, ◌≤◌, min, ◌≡◌, refl, sym, ap, ◌∙◌, subst, arith, leb, Bool,
  true, false, Option, some, ==-refl, List, [], ◌∷◌, ◌++◌, take, length, ◌>>=◌, ℤ, pos, minus_one,
}
use xern.Kernel.{InodePtr, proc_fd_max, root_inode, minode_slot}
use xern.Files.{curr_fd, set_oft}
use xern.Permissions.{Inode}
use xern.Ext2.{Fs, Minode, blocksize, minode, set_minode, save_inode, inode_block}
use xern.Ext2.Codec.{InRange, SameInode}
use xern.Ext2.Cache.Saved.{card_inode, card-save}
use xern.Ext2.Data.{Filing, read_file, klseek, block_of, seek_set, is_reg, bytes_from}
use xern.Ext2.Reading.{content, read_file-content}
use xern.Ext2.Writing.{write_file, write_run, write_done}
use xern.Ext2.Writing.Paste.{nth}
use xern.Ext2.Writing.Direct.{Marked, own}
use xern.Ext2.Writing.Direct.Pieces.{Wrote, direct_content}
use xern.Ext2.Writing.Direct.Run.{write_run-Wrote}

-- The bytes of a text, one after the other.
bytes_from-take :
    (m : ℕ) (f : ℕ → ℕ) (a : ℕ) (text : List ℕ)
    → m ≤ length text
    → ((i : ℕ) → i < m → f (a + i) ≡ nth text i)
    → bytes_from m f a ≡ take m text
unfolding bytes_from
bytes_from-take zero f a text h e = refl
bytes_from-take (suc m) f a [] h e = absurd (omega arith)
bytes_from-take (suc m) f a (c ∷ s) h e =
    cc
      (first, bytes_from-take m f (suc a) s (omega arith) (λ i l. next i (e (suc i) (omega arith))))
  where
    first : f a ≡ c
    first = ap f {x = a} {y = a + 0} (omega arith) ∙ e 0 (omega arith)

    next : (i : ℕ) → f (a + suc i) ≡ nth s i → f (suc a + i) ≡ nth s i
    next i e' = ap f {x = suc a + i} {y = a + suc i} (omega arith) ∙ e'

-- The inode and the card after a write, saved: `minode` finds the changed one.
minode_set :
    (fs : Fs) (p : InodePtr) (mip : Minode) → minode (save_inode (set_minode fs p mip) mip) p ≡ mip
unfolding save_inode
minode_set fs root_inode mip = refl
minode_set fs (minode_slot i) mip = rw (==-refl i) refl

-- Saving the inode leaves what the file holds in its direct blocks.
saved_content :
    (map home : ℕ) (fs : Fs) (ip : Inode) (p : InodePtr) (mip : Minode) (i : ℕ)
    → i < 12 * blocksize
    → mip.inode.i_block ≡ ip.i_block
    → inode_block fs mip.ino ≡ home
    → own map home (ip.i_block (i / blocksize)) ≡ false
    → content (save_inode (set_minode fs p mip) mip) mip.inode i ≡ direct_content fs ip i
unfolding save_inode block_of
saved_content map home fs ip root_inode mip i l e h o = ground (arith, e, h, o)
saved_content map home fs ip (minode_slot q) mip i l e h o = ground (arith, e, h, o)

-- Seeking to a place within the file.
klseek_set :
    (s : Filing) (fd offset o : ℕ) (p : InodePtr) (mip : Minode)
    → fd < proc_fd_max
    → curr_fd s.kernel fd ≡ some o
    → (s.kernel.open_file_table o).m_ptr ≡ some p
    → minode s.fs p ≡ mip
    → is_reg mip.inode.i_mode ≡ true
    → offset ≤ mip.inode.i_size
    → klseek s fd offset seek_set
      ≡ some (
        pos offset,
        record s {
          kernel = set_oft s.kernel o (record (s.kernel.open_file_table o) { offset = offset });
        },
      )
unfolding klseek
klseek_set s fd offset o p mip h e e' e'' reg small =
    rw (open_fd fd h, e, e', e'', reg, whole offset mip.inode.i_size small, klseek) refl
  where
    open_fd : (fd : ℕ) → fd < proc_fd_max → leb proc_fd_max fd ≡ false
    open_fd fd h = ground arith

    whole : (a b : ℕ) → a ≤ b → min a b ≡ a
    whole a b h = omega arith

-- What `read_file` stores, and how much it says it is.
abbrev pub reread : Filing → (fd offset n : ℕ) → Option (ℕ × List ℕ)
reread s fd offset n = klseek s fd offset seek_set >>= λ (r, s').
    read_file s' fd n >>= λ (k, bytes, s''). some (k, bytes)

reread_lem :
    (s : Filing) (fd offset m o : ℕ) (p : InodePtr) (mip : Minode) (bytes : List ℕ)
    → fd < proc_fd_max
    → curr_fd s.kernel fd ≡ some o
    → (s.kernel.open_file_table o).m_ptr ≡ some p
    → minode s.fs p ≡ mip
    → is_reg mip.inode.i_mode ≡ true
    → mip.inode.i_size ≡ offset + m
    → bytes_from m (content s.fs mip.inode) offset ≡ bytes
    → reread s fd offset m ≡ some (m, bytes ++ (0 ∷ []))
reread_lem s fd offset m o p mip bytes h e e' e'' reg size same =
    let f = s.kernel.open_file_table o in
    let s' = record s { kernel = set_oft s.kernel o (record f { offset = offset }) } in
    rw
      (
        klseek_set s fd offset o p mip h e e' e'' reg (omega (arith, size)),
        read_file-content s' fd m o p e (rw (==-refl o) e'),
        ==-refl o,
        e'',
        whole mip.inode.i_size size,
        same,
      )
      refl
  where
    whole : (a : ℕ) → a ≡ offset + m → min m (a - offset) ≡ m
    whole a h = omega arith

-- The state that `write_file` leaves when the loop found its blocks.
abbrev after_write : Filing → (o : ℕ) → InodePtr → (m : ℕ) → Inode → Fs → Filing
after_write s o p m ip fs' =
    let f = s.kernel.open_file_table o in
    let mip = record (minode s.fs p) { inode = record ip { i_size = f.offset + m } } in
    record {
      kernel = set_oft s.kernel o (record f { offset = f.offset + m });
      fs = save_inode (set_minode fs' p mip) mip;
    }

failed :
    (m : ℕ) (s s' : Filing)
    → ◌≡◌ {A = Option (ℤ × Filing)} (some (minus_one, s)) (some (pos m, s'))
    → ⊥
failed m s s' e = cc

written :
    (m n : ℕ) (s s' : Filing)
    → ◌≡◌ {A = Option (ℤ × Filing)} (some (pos n, s)) (some (pos m, s'))
    → (n ≡ m) × (s ≡ s')
written m n s s' e = (cc, cc)

outcome :
    (s s' : Filing) (o m : ℕ) (p : InodePtr) (r : Bool × ℕ × Inode × Fs)
    → some (write_done s o p r) ≡ some (pos m, s')
    → (r.0 ≡ true) × (r.1 ≡ m) × (after_write s o p r.1 r.2 r.3 ≡ s')
unfolding write_done
outcome s s' o m p (false, n, ip, fs') e = absurd (failed m _ s' e)
outcome s s' o m p (true, n, ip, fs') e = (
  refl,
  (written m n (after_write s o p n ip fs') s' e).0,
  (written m n (after_write s o p n ip fs') s' e).1,
)

reread-after_write :
    (s : Filing) (fd o : ℕ) (p : InodePtr) (m map home : ℕ) (ip : Inode) (fs' : Fs) (text : List ℕ)
    → fd < proc_fd_max
    → curr_fd s.kernel fd ≡ some o
    → (s.kernel.open_file_table o).m_ptr ≡ some p
    → is_reg (minode s.fs p).inode.i_mode ≡ true
    → inode_block s.fs (minode s.fs p).ino ≡ home
    → m ≤ length text
    → (s.kernel.open_file_table o).offset + m ≤ 12 * blocksize
    → Wrote map home s.fs
        (minode s.fs p).inode
        fs'
        ip
        (s.kernel.open_file_table o).offset
        m
        (nth text)
    → reread (after_write s o p m ip fs') fd (s.kernel.open_file_table o).offset m
      ≡ some (m, take m text ++ (0 ∷ []))
reread-after_write s fd o p m map home ip fs' text h e e' reg at short room w =
    let f = s.kernel.open_file_table o in
    let mip = record (minode s.fs p) { inode = record ip { i_size = f.offset + m } } in
    let s' = after_write s o p m ip fs' in
    reread_lem s' fd f.offset m o p mip (take m text) h e (rw (==-refl o) e') (minode_set fs' p mip)
      (ap is_reg w.mode ∙ reg) refl
      (bytes_from-take m (content s'.fs mip.inode) f.offset text short (λ i l.
        saved_content map home fs' ip p mip (f.offset + i) (omega arith) refl
          (ap (λ b. (mip.ino - 1) / 16 + b) w.start ∙ at)
          (w.marked.apart ((f.offset + i) / blocksize) (omega arith) (w.there i l))
        ∙ w.written i l))

-- When `write_file` on a descriptor of a regular file, whose blocks are `Marked` and which it keeps within the first
-- twelve blocks, returns `m` and not -1, then `m` is the smaller of `count` and the length of the text, and
-- seeking back to the old offset and reading `m` bytes gives the first `m` bytes of the text.
pub reread-write_file :
    (s s' : Filing) (fd count m o : ℕ) (text : List ℕ) (p : InodePtr)
    → fd < proc_fd_max
    → curr_fd s.kernel fd ≡ some o
    → (s.kernel.open_file_table o).m_ptr ≡ some p
    → is_reg (minode s.fs p).inode.i_mode ≡ true
    → (s.kernel.open_file_table o).offset + min count (length text) ≤ 12 * blocksize
    → Marked s.fs.disk s.fs.block_bitmap
        (inode_block s.fs (minode s.fs p).ino)
        (minode s.fs p).inode.i_block
    → write_file s fd text count ≡ some (pos m, s')
    → (m ≡ min count (length text))
      × (reread s' fd (s.kernel.open_file_table o).offset m ≡ some (m, take m text ++ (0 ∷ [])))
unfolding write_file
reread-write_file s s' fd count m o text p h e e' reg room marked done =
    let f = s.kernel.open_file_table o in
    let ip = (minode s.fs p).inode in
    let map = s.fs.block_bitmap in
    let home = inode_block s.fs (minode s.fs p).ino in
    let r = write_run count s.fs ip text count f.offset in
    let (all, len, after) = outcome s s' o m p r (rw (e, e', write_file) at done) in
    let (bound, w) =
      write_run-Wrote count map home s.fs ip text count f.offset (omega arith) room refl marked
        all in
    (
      sym len ∙ bound,
      subst (λ q. reread q fd f.offset m ≡ some (m, take m text ++ (0 ∷ []))) after
          (subst
            (λ k.
              reread (after_write s o p r.1 r.2 r.3) fd f.offset k
              ≡ some (k, take k text ++ (0 ∷ [])))
            len
            (reread-after_write s fd o p r.1 map home r.2 r.3 text h e e' reg refl
              (omega (arith, bound)) (omega (arith, bound)) w)),
    )

-- When `write_file` returns `m` and not -1, the offset stands `m` bytes further on and the size of the file is
-- that offset, whatever the file held behind it; on the card the inode, whose numbers fit their fields, is
-- the one in memory.
pub write_file-Ended :
    (s s' : Filing) (fd count m o : ℕ) (text : List ℕ) (p : InodePtr)
    → curr_fd s.kernel fd ≡ some o
    → (s.kernel.open_file_table o).m_ptr ≡ some p
    → write_file s fd text count ≡ some (pos m, s')
    → InRange (minode s'.fs p).inode
    → ((s'.kernel.open_file_table o).offset ≡ (s.kernel.open_file_table o).offset + m)
      × ((minode s'.fs p).inode.i_size ≡ (s.kernel.open_file_table o).offset + m)
      × SameInode (card_inode s'.fs (minode s'.fs p).ino) (minode s'.fs p).inode
unfolding write_file save_inode
write_file-Ended s s' fd count m o text p e e' done range =
    let f = s.kernel.open_file_table o in
    let r = write_run count s.fs (minode s.fs p).inode text count f.offset in
    let (all, len, after) = outcome s s' o m p r (rw (e, e', write_file) at done) in
    let s2 = after_write s o p r.1 r.2 r.3 in
    let mip = record (minode s.fs p) { inode = record r.2 { i_size = f.offset + r.1 } } in
    let at : (s2.kernel.open_file_table o).offset ≡ f.offset + r.1 = rw (==-refl o) refl in
    let found : minode s'.fs p ≡ mip = ap (λ q. minode q.fs p) (sym after) ∙ minode_set r.3 p mip in
    (
      ap (λ q. (q.kernel.open_file_table o).offset) (sym after) ∙ (at ∙ ap (λ k. f.offset + k) len),
      ap (λ q. q.inode.i_size) found ∙ ap (λ k. f.offset + k) len,
      subst (λ q. SameInode (card_inode s'.fs q.ino) q.inode) (sym found)
          (subst (λ q. SameInode (card_inode q.fs mip.ino) mip.inode) after
            (card-save (set_minode r.3 p mip) mip (subst (λ q. InRange q.inode) found range))),
    )
