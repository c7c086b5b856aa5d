-- ===== src/Ext2/Entries/Names/Whole.antt =====
-- The blocks of a directory one after the other.
use mathlib.Core.Path.{ap₂}
use xern.Base.{
  ℕ, zero, suc, ◌+◌, ◌^◌, ◌<◌, ◌≤◌, ◌≡◌, refl, ap, ◌∙◌, sym, arith, ◌⊎◌, inl, inr, ◌≢◌, List, [],
  ◌∷◌, length, take, none, some, Bool, true, false, Bool-cases, ◌==◌, ==-refl,
}
use xern.Kernel.{InodePtr, root_inode, minode_slot}
use xern.Bits.{tstbit}
use xern.Permissions.{Inode}
use xern.Ext2.{Fs, Minode, blocksize, getblock, putblock, alloc_block, minode, set_minode}
use xern.Ext2.Alloc.Fresh.{alloc_block-Fresh}
use xern.Ext2.Cache.{get_inode}
use xern.Ext2.Writing.{with_block}
use xern.Ext2.Writing.Direct.{Marked, own}
use xern.Ext2.Lookup.{
  found, then_visit, find_in_block, find_in_blocks, find_entry, find_inode, is_dir,
}
use xern.Ext2.Entries.{
  returns, insert_entry, insert_direct, insert_child, fresh_block, grown, set_inode,
}
use xern.Ext2.Entries.Added.{insert_entry-Added}
use xern.Ext2.Entries.Again.{remove-insert_entry}
use xern.Ext2.Entries.Names.{
  Without, Without-passed, fresh_found, Put, direct_full, direct_new, direct_room, direct_on,
  search_here, search_on,
}

differ : (f : ℕ → Bool) (a b : ℕ) → f a ≡ true → f b ≡ false → a ≢ b
differ f a b t e same = ground (arith, t, e, same)

apart_own : (map home b : ℕ) → own map home b ≡ false → (2 ≤ b) × (b ≢ map)
apart_own map home b e = ground (arith, e)

other_block :
    (fs : Fs) (blk b : ℕ) (buf : ℕ → ℕ) → b ≢ blk → (putblock fs blk buf).disk b ≡ fs.disk b
other_block fs blk b buf ne = ground arith

this_block : (fs : Fs) (blk : ℕ) (buf : ℕ → ℕ) → (putblock fs blk buf).disk blk ≡ buf
this_block fs blk buf = ground arith

-- How `insert_direct` ends from place `i` on: with the name put in, or with no block left.
abbrev Ended : Fs → Inode → (i n child : ℕ) → List ℕ → Type 0
Ended fs ip i n child name =
    ((ip' : Inode) × (fs' : Fs) × (insert_direct n fs ip i child name ≡ returns true ip' fs')
      × Put fs ip i n child name ip' fs')
    ⊎ ((insert_direct n fs ip i child name ≡ returns false ip (alloc_block fs).1)
        × ((alloc_block fs).0 ≡ 0))

module _ (fs : Fs) (ip : Inode) (home child : ℕ) (name : List ℕ)
    (m : Marked fs.disk fs.block_bitmap home ip.i_block)
    (w : (j : ℕ) → j < 12 → ip.i_block j ≢ 0 → Without name (fs.disk (ip.i_block j)))
    (c : child < 2 ^ 32) (l : length name ≤ 255) where
  Put-new :
      (n i : ℕ)
      → ((alloc_block fs).0 == 0) ≡ false
      → Put fs ip i
          (suc n)
          child
          name
          (grown (with_block ip i (alloc_block fs).0))
          (putblock (alloc_block fs).1 (alloc_block fs).0 (fresh_block child name))
  Put-new n i z =
      let blk = (alloc_block fs).0 in
      let fs1 = (alloc_block fs).1 in
      let fresh = alloc_block-Fresh fs m.low m.bytes (λ e. absurd (ground (arith, e, z))) in
      let fs' = putblock fs1 blk (fresh_block child name) in
      let at : (grown (with_block ip i blk)).i_block i ≡ blk = ground arith in
      record {
        finds =
            search_here n fs' (with_block ip i blk).i_block i name (ap (λ b. b == 0) at ∙ z) child (
              ap (λ b. find_in_block (suc blocksize) b 0 name)
                (ap (getblock fs') at ∙ this_block fs1 blk (fresh_block child name))
              ∙ fresh_found child name c l);
        places = λ j h. ground arith;
        mode = refl;
        kept = λ b low ne taken others.
            other_block fs1 blk b (fresh_block child name)
              (differ (tstbit (fs.disk fs.block_bitmap)) b blk taken fresh.free)
            ∙ fresh.others b low ne;
      }

  Put-room :
      (n i : ℕ) (buf : ℕ → ℕ)
      → i < 12
      → (ip.i_block i == 0) ≡ false
      → find_in_block (suc blocksize) buf 0 name ≡ found child
      → Put fs ip i (suc n) child name ip (putblock fs (ip.i_block i) buf)
  Put-room n i buf h z f = record {
    finds =
        search_here n (putblock fs (ip.i_block i) buf) ip.i_block i name z child
          (ap (λ b. find_in_block (suc blocksize) b 0 name) (this_block fs (ip.i_block i) buf) ∙ f);
    places = λ j k. refl;
    mode = refl;
    kept = λ b low ne taken others.
        other_block fs (ip.i_block i) b buf (λ e. others i (omega arith) h (sym e));
  }

  Put-on :
      (n i : ℕ) (ip' : Inode) (fs' : Fs)
      → i < 12
      → (ip.i_block i == 0) ≡ false
      → Put fs ip (suc i) n child name ip' fs'
      → Put fs ip i (suc n) child name ip' fs'
  Put-on n i ip' fs' h z p =
      let there : ip.i_block i ≢ 0 = λ e. absurd (ground (arith, e, z)) in
      let own' = apart_own fs.block_bitmap home (ip.i_block i) (m.apart i h there) in
      let same : fs'.disk (ip.i_block i) ≡ fs.disk (ip.i_block i) =
        p.kept (ip.i_block i) own'.0 own'.1 (m.taken i h there)
          (λ j low high e. absurd (omega (arith, m.distinct i j h high there (sym e)))) in
      let place = p.places i (omega arith) in
      record {
        finds =
            search_on n fs' ip'.i_block i name (ap (λ b. b == 0) place ∙ z) (
              ap (λ b. find_in_block (suc blocksize) b 0 name) (ap (getblock fs') place ∙ same)
              ∙ Without-passed (fs.disk (ip.i_block i)) name (w i h there))
            ∙ p.finds;
        places = λ j k. p.places j (omega arith);
        mode = p.mode;
        kept = λ b low ne taken others. p.kept b low ne taken (λ j a b. others j (omega arith) b);
      }

  -- A block that holds entries: the name goes in or does not.
  entered :
      (buf : ℕ → ℕ)
      → Without name buf
      → ((buf' : ℕ → ℕ) × (insert_entry buf child name ≡ some (some buf'))
          × (find_in_block (suc blocksize) buf' 0 name ≡ found child))
        ⊎ (insert_entry buf child name ≡ some none)
  entered buf (es, e, laid, d) = elim (insert_entry-Added buf es e child name laid c l) [
    | inl (r, buf', q, laid') ↦
        inl (buf', q, (remove-insert_entry buf es e child name buf' laid c l q d).0)
    | inr (r, q) ↦ inr q
  ]

  inserts :
      (n i k : ℕ) → i + n ≡ 12 → i ≤ k → k < 12 → ip.i_block k ≡ 0 → Ended fs ip i n child name
  inserts zero i k t low high z = absurd (omega arith)
  inserts (suc n) i k t low high z = elim (Bool-cases (ip.i_block i == 0)) [
    | inl e ↦ elim (Bool-cases ((alloc_block fs).0 == 0)) [
      | inl f ↦
          let g : (alloc_block fs).0 ≡ 0 = ground (arith, f) in
          inr (direct_full n fs ip i child name e g, g)
      | inr f ↦ inl (_, _, direct_new n fs ip i child name e f, Put-new n i f)
    ]
    | inr e ↦
        let there : ip.i_block i ≢ 0 = λ z. absurd (ground (arith, e, z)) in
        elim (entered (fs.disk (ip.i_block i)) (w i (omega arith) there)) [
          | inl (buf', q, f) ↦ inl (
            ip,
            _,
            direct_room n fs ip i child name buf' e q,
            Put-room n i buf' (omega arith) e f,
          )
          | inr q ↦
              on e (direct_on n fs ip i child name e q)
                (inserts n (suc i) k (omega arith) (later e) high z)
        ]
  ]
    where
      later : (ip.i_block i == 0) ≡ false → suc i ≤ k
      later e = elim (Bool-cases (i == k)) [
        | inl same ↦
            absurd
              (ground (arith, e, z, same, ap ip.i_block {x = i} {y = k} (ground (arith, same))))
        | inr other ↦ ground (arith, other)
      ]

      on :
          (ip.i_block i == 0) ≡ false
          → insert_direct (suc n) fs ip i child name ≡ insert_direct n fs ip (suc i) child name
          → Ended fs ip (suc i) n child name
          → Ended fs ip i (suc n) child name
      on e q (inl (ip', fs', r, p)) = inl (ip', fs', q ∙ r, Put-on n i ip' fs' (omega arith) e p)
      on e q (inr (r, f)) = inr (q ∙ r, f)

-- The search reads the card alone.
find_in_blocks-disk :
    (n : ℕ) (fs fs' : Fs) (blocks : ℕ → ℕ) (i : ℕ) (name : List ℕ)
    → fs'.disk ≡ fs.disk
    → find_in_blocks n fs' blocks i name ≡ find_in_blocks n fs blocks i name
unfolding find_in_blocks
find_in_blocks-disk zero fs fs' blocks i name e = refl
find_in_blocks-disk (suc n) fs fs' blocks i name e = elim (Bool-cases (blocks i == 0)) [
  | inl z ↦ rw (z, find_in_blocks) refl
  | inr z ↦
      rw (z, find_in_blocks)
        (ap₂ then_visit (ap (λ d. find_in_block (suc blocksize) (d (blocks i)) 0 name) e)
          (find_in_blocks-disk n fs fs' blocks (suc i) name e))
]

set_minode-disk : (fs : Fs) (p : InodePtr) (mip : Minode) → (set_minode fs p mip).disk ≡ fs.disk
set_minode-disk fs root_inode mip = refl
set_minode-disk fs (minode_slot i) mip = refl

minode-set_minode : (fs : Fs) (p : InodePtr) (mip : Minode) → minode (set_minode fs p mip) p ≡ mip
minode-set_minode fs root_inode mip = refl
minode-set_minode fs (minode_slot i) mip = rw (==-refl i) refl

take_whole : (n : ℕ) (s : List ℕ) → length s ≤ n → take n s ≡ s
take_whole zero [] h = refl
take_whole zero (c ∷ s) h = absurd (omega arith)
take_whole (suc n) [] h = refl
take_whole (suc n) (c ∷ s) h = ap (λ t. c ∷ t) (take_whole n s (omega arith))

child_ended :
    (fs : Fs) (p : InodePtr) (child : ℕ) (name : List ℕ) (ok : Bool) (ip' : Inode) (fs' : Fs)
    → length name ≤ 255
    → insert_direct 12 fs (minode fs p).inode 0 child name ≡ returns ok ip' fs'
    → insert_child fs p child name ≡ some (ok, set_inode fs' p ip')
unfolding insert_child
child_ended fs p child name ok ip' fs' l e = rw (take_whole 255 name l, e) refl

finds_inode :
    (fs : Fs) (mip : Minode) (child : ℕ) (name : List ℕ)
    → is_dir mip.inode.i_mode ≡ true
    → find_in_blocks 12 fs mip.inode.i_block 0 name ≡ found child
    → find_inode fs name mip ≡ get_inode fs child
unfolding find_inode find_entry
finds_inode fs mip child name d f = rw (d, find_inode, f) refl

-- The name is in the directory, or the card is full.
abbrev pub Entered : Fs → InodePtr → (child : ℕ) → List ℕ → Type 0
Entered fs p child name =
    ((fs' : Fs) × (insert_child fs p child name ≡ some (true, fs'))
      × (find_inode fs' name (minode fs' p) ≡ get_inode fs' child))
    ⊎ ((fs' : Fs) × (insert_child fs p child name ≡ some (false, fs')) × ((alloc_block fs).0 ≡ 0))

-- Let the first twelve blocks of a directory, of which place `k` is free, be laid out in entries of whose names none is a
-- beginning of a name of at most 255 bytes. Then `insert_child` of the name with a number of 32 bits neither faults nor
-- loops: it returns true, and from then on `find_inode` of the name gives the inode of that number, or it returns false
-- and no block is free.
pub find_inode-insert_child :
    (fs : Fs) (p : InodePtr) (home child k : ℕ) (name : List ℕ)
    → let ip = (minode fs p).inode in
      is_dir ip.i_mode ≡ true
      → Marked fs.disk fs.block_bitmap home ip.i_block
      → ((j : ℕ) → j < 12 → ip.i_block j ≢ 0 → Without name (fs.disk (ip.i_block j)))
      → k < 12
      → ip.i_block k ≡ 0
      → child < 2 ^ 32
      → length name ≤ 255
      → Entered fs p child name
find_inode-insert_child fs p home child k name dir m w h z c l =
    elim (inserts fs (minode fs p).inode home child name m w c l 12 0 k (omega arith) (omega arith)
      h z) [
        | inl (ip', fs', r, put) ↦
            let mip : Minode = record (minode fs' p) { inode = ip' } in
            let done = set_minode fs' p mip in
            inl (
              done,
              child_ended fs p child name true ip' fs' l r,
              finds_inode done (minode done p) child name
                  (ap (λ q. is_dir q.inode.i_mode) (minode-set_minode fs' p mip)
                    ∙ (ap is_dir put.mode ∙ dir))
                  (ap (λ q. find_in_blocks 12 done q.inode.i_block 0 name)
                      (minode-set_minode fs' p mip)
                    ∙ (find_in_blocks-disk 12 fs' done ip'.i_block 0 name
                          (set_minode-disk fs' p mip)
                        ∙ put.finds)),
            )
        | inr (r, none_left) ↦
            inr (_, child_ended fs p child name false (minode fs p).inode _ l r, none_left)
      ]
