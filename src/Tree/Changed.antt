-- ===== src/Tree/Changed.antt =====
-- What `kchmod` of XERN/fs/chmod.h and `kchown` of XERN/fs/chown.h do to an inode.
use xern.Base.{
  ℕ, ◌/◌, ◌%◌, ◌^◌, ◌<◌, ◌≡◌, refl, subst, ap, ◌∙◌, sym, arith, ◌⊎◌, inl, inr, ◌≢◌, List, some,
  true, false, Bool-cases, ==-refl, pos, minus_one,
}
use xern.Kernel.{InodePtr, root_inode, minode_slot}
use xern.Permissions.{Inode}
use xern.Ext2.{Fs, Minode, minode, set_minode, save_inode}
use xern.Ext2.Codec.{InRange, SameInode}
use xern.Ext2.Cache.Saved.{card_inode, card-save}
use xern.Tree.{>>=-some, Sys, caller, lookup, foreign}
use xern.Tree.Attributes.{with_mode, change_found, kchmod}

-- The access bits are the new ones, and the bits above them, which say what the file is, stay.
with_mode_bits :
    (old mode : ℕ)
    → old < 2 ^ 16
    → (with_mode old mode % 512 ≡ mode % 512)
      × (with_mode old mode / 512 ≡ old / 512)
      × (with_mode old mode < 2 ^ 16)
with_mode_bits old mode h = (omega arith, omega arith, omega arith)

-- The state after the mode of the inode at `p` was changed: its access bits are those of `mode`, the bits above and every
-- other field are as before, the card holds the inode as it stands in memory, and the kernel did not change.
pub record Remoded (s s' : Sys) (p : InodePtr) (mode : ℕ) : Type 0 where
  pub access : (minode s'.fs p).inode.i_mode % 512 ≡ mode % 512
  pub kind : (minode s'.fs p).inode.i_mode / 512 ≡ (minode s.fs p).inode.i_mode / 512
  pub others :
      record (minode s'.fs p).inode { i_mode = (minode s.fs p).inode.i_mode }
      ≡ (minode s.fs p).inode
  pub number : (minode s'.fs p).ino ≡ (minode s.fs p).ino
  pub saved : SameInode (card_inode s'.fs (minode s'.fs p).ino) (minode s'.fs p).inode
  pub kernel : s'.kernel ≡ s.kernel

abbrev remoded : Sys → InodePtr → ℕ → Minode
remoded s p mode =
    let mip = minode s.fs p in
    record mip { inode = record mip.inode { i_mode = with_mode mip.inode.i_mode mode } }

abbrev after : Sys → InodePtr → ℕ → Sys
after s p mode =
    let fs = set_minode s.fs p (remoded s p mode) in record s { fs = save_inode fs (minode fs p) }

minode_set : (fs : Fs) (p : InodePtr) (mip : Minode) → minode (set_minode fs p mip) p ≡ mip
minode_set fs root_inode mip = refl
minode_set fs (minode_slot i) mip = rw (==-refl i) refl

minode_save : (fs : Fs) (p : InodePtr) (mip : Minode) → minode (save_inode fs mip) p ≡ minode fs p
unfolding save_inode
minode_save fs root_inode mip = refl
minode_save fs (minode_slot i) mip = refl

InRange-mode : (ip : Inode) (m : ℕ) → m < 2 ^ 16 → InRange ip → InRange (record ip { i_mode = m })
InRange-mode ip m h r = record {
  mode = h;
  uid = r.uid;
  size = r.size;
  atime = r.atime;
  ctime = r.ctime;
  mtime = r.mtime;
  dtime = r.dtime;
  gid = r.gid;
  links = r.links;
  blocks = r.blocks;
  flags = r.flags;
  osd1 = r.osd1;
  block = r.block;
  pad = r.pad;
  reserved = r.reserved;
}

after-Remoded :
    (s : Sys) (p : InodePtr) (mode : ℕ)
    → InRange (minode s.fs p).inode
    → Remoded s (after s p mode) p mode
after-Remoded s p mode r =
    let fs = set_minode s.fs p (remoded s p mode) in
    let bits = with_mode_bits (minode s.fs p).inode.i_mode mode r.mode in
    let now : minode (after s p mode).fs p ≡ remoded s p mode =
      minode_save fs p (minode fs p) ∙ minode_set s.fs p (remoded s p mode) in
    record {
      access = ap (λ q. q.inode.i_mode % 512) now ∙ bits.0;
      kind = ap (λ q. q.inode.i_mode / 512) now ∙ bits.1;
      others = ap (λ q. record q.inode { i_mode = (minode s.fs p).inode.i_mode }) now;
      number = ap (λ q. q.ino) now;
      saved =
          subst (λ q. SameInode (card_inode (after s p mode).fs q.ino) q.inode)
            (sym (minode_save fs p (minode fs p)))
            (subst (λ q. SameInode (card_inode (save_inode fs q) q.ino) q.inode)
              (sym (minode_set s.fs p (remoded s p mode)))
              (card-save fs (remoded s p mode) (
                InRange-mode (minode s.fs p).inode (with_mode (minode s.fs p).inode.i_mode mode)
                  bits.2 r)));
      kernel = refl;
    }

refused :
    (s : Sys) (ip : Inode)
    → foreign s ip ≡ true
    → ((caller s).uid ≢ 0) × ((caller s).uid ≢ ip.i_uid)
refused s ip h = (λ e. ground (arith, h, e), λ e. ground (arith, h, e))

allowed :
    (s : Sys) (ip : Inode)
    → foreign s ip ≡ false
    → ((caller s).uid ≡ 0) ⊎ ((caller s).uid ≡ ip.i_uid)
allowed s ip h = ground (arith, h)

-- By root or the owner the mode is changed; by anybody else it is not.
abbrev pub Moded : List ℕ → (mode : ℕ) → (s s1 : Sys) → InodePtr → Type 0
Moded path mode s s1 p =
    let uid = (caller s1).uid in
    let owner = (minode s1.fs p).inode.i_uid in
    (((uid ≡ 0) ⊎ (uid ≡ owner))
      × (s2 : Sys) × (kchmod path mode s ≡ some (pos 0, s2))
      × Remoded s1 s2 p mode)
    ⊎ ((uid ≢ 0) × (uid ≢ owner) × (kchmod path mode s ≡ some (minus_one, s1)))

-- When the look-up of the path leads to an inode, whose numbers fit their fields, `kchmod` by root or by its owner returns 0
-- and gives the inode the nine access bits of `mode`, in memory and on the card, and changes nothing else of the inode or
-- of the kernel; by anybody else it returns -1 and changes nothing beyond the look-up.
pub kchmod-Remoded :
    (path : List ℕ) (mode : ℕ) (s s1 : Sys) (p : InodePtr)
    → lookup path s ≡ some (some p, s1)
    → InRange (minode s1.fs p).inode
    → Moded path mode s s1 p
unfolding kchmod change_found
kchmod-Remoded path mode s s1 p e r =
    let found = >>=-some (lookup path) _ s e in
    elim (Bool-cases (foreign s1 (minode s1.fs p).inode)) [
      | inl f ↦
          let no_right = refused s1 (minode s1.fs p).inode f in
          inr (no_right.0, no_right.1, found ∙ rw f refl)
      | inr f ↦ inl (
        allowed s1 (minode s1.fs p).inode f,
        after s1 p mode,
        found ∙ rw f refl,
        after-Remoded s1 p mode r,
      )
    ]
