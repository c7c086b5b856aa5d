-- ===== src/Tree/Cwd/Named.antt =====
-- The name that `getname` of XERN/fs/utils.h finds in a block of entries.
use xern.Base.{
  ℕ, zero, suc, ◌+◌, ◌-◌, ◌^◌, some, none, sym, subst, append_assoc, inl, inr, ◌<◌, ◌≤◌, ◌≡◌, ◌≢◌,
  refl, ap, ◌∙◌, arith, true, false, List, [], ◌∷◌, ◌++◌, ◌==◌, leb, length, All,
}
use xern.Ext2.{blocksize, get32}
use xern.Ext2.Data.{bytes_from}
use xern.Ext2.Writing.Paste.{nth}
use xern.Ext2.Entries.Laid.{Dirent, At, Stand, Laid, total}
use xern.Ext2.Entries.{padded, insert_entry}
use xern.Ext2.Entries.Added.{insert_entry-Added}
use xern.Tree.Cwd.{named, name_in_block}

bytes-named :
    (name : List ℕ) (buf : ℕ → ℕ) (p : ℕ)
    → ((i : ℕ) → i < length name → buf (p + i) ≡ nth name i)
    → bytes_from (length name) buf p ≡ name
unfolding bytes_from
bytes-named [] buf p h = refl
bytes-named (c ∷ name) buf p h =
    ap (λ x. x ∷ bytes_from (length name) buf (suc p)) first
    ∙ ap (λ x. c ∷ x)
        (bytes-named name buf (suc p) (λ i l.
          ap buf {x = suc p + i} {y = p + suc i} (omega arith) ∙ h (suc i) (omega (arith, l))))
  where
    first : buf p ≡ c
    first = ap buf {x = p} {y = p + 0} (omega arith) ∙ h 0 (omega arith)

-- The round at an entry with the number.
ends_here :
    (n : ℕ) (buf : ℕ → ℕ) (p : ℕ) (d : Dirent)
    → At buf p d
    → p < blocksize
    → name_in_block (suc n) buf p d.ino ≡ named d.name
unfolding name_in_block
ends_here n buf p d a l = rw (before l, here, a.size, bytes-named d.name buf (p + 8) a.name) refl
  where
    before : p < blocksize → leb blocksize p ≡ false
    before l = ground (arith, l)

    here : (get32 buf p == d.ino) ≡ true
    here = ground (arith, a.ino)

-- The round at an entry with another number.
pub steps_on :
    (n : ℕ) (buf : ℕ → ℕ) (p ino : ℕ) (e : Dirent)
    → At buf p e
    → p < blocksize
    → e.ino ≢ ino
    → name_in_block (suc n) buf p ino ≡ name_in_block n buf (p + e.len) ino
unfolding name_in_block
steps_on n buf p ino e a l ne = rw (before l, other, a.len) refl
  where
    before : p < blocksize → leb blocksize p ≡ false
    before l = ground (arith, l)

    other : (get32 buf p == ino) ≡ false
    other = ground (arith, a.ino, ne)

-- An entry is not empty.
pub filled : (buf : ℕ → ℕ) (p : ℕ) (e : Dirent) → At buf p e → 1 ≤ e.len
filled buf p e a = omega (arith, a.room)

reaches_name :
    (n : ℕ) (buf : ℕ → ℕ) (p : ℕ) (before after : List Dirent) (d : Dirent)
    → Stand buf p (before ++ d ∷ after)
    → p + total (before ++ d ∷ after) ≡ blocksize
    → blocksize ≤ p + n
    → All (λ e. e.ino ≢ d.ino) before
    → name_in_block n buf p d.ino ≡ named d.name
reaches_name zero buf p [] after d (x, s) t l a = absurd (omega (arith, t, l, filled buf p d x))
reaches_name zero buf p (e ∷ before) after d (x, s) t l a =
    absurd (omega (arith, t, l, filled buf p e x))
reaches_name (suc n) buf p [] after d (x, s) t l a =
    ends_here n buf p d x (omega (arith, t, filled buf p d x))
reaches_name (suc n) buf p (e ∷ before) after d (x, s) t l (ne, a) =
    steps_on n buf p d.ino e x (omega (arith, t, filled buf p e x)) ne
    ∙ reaches_name n buf (p + e.len) before after d s (omega (arith, t))
        (omega (arith, l, filled buf p e x)) a

-- In a block that is laid out in entries, of which none before `d` has the number of `d`, the search of `getname` for this
-- number gives the name of `d`.
pub name_in_block-Laid :
    (buf : ℕ → ℕ) (before after : List Dirent) (d : Dirent)
    → Laid buf (before ++ d ∷ after)
    → All (λ e. e.ino ≢ d.ino) before
    → name_in_block (suc blocksize) buf 0 d.ino ≡ named d.name
name_in_block-Laid buf before after d (s, t) a =
    reaches_name (suc blocksize) buf 0 before after d s (omega (arith, t)) (omega arith) a

-- An entry of the length that its name needs.
abbrev cut_down : Dirent → Dirent
cut_down e = record e { len = padded (length e.name) }

-- When a number of 32 bits, which no entry of a block has that is laid out in entries, was put into the block with a name of
-- at most 255 bytes, the search of `getname` for the number gives that name.
pub name_in_block-insert_entry :
    (buf buf' : ℕ → ℕ) (es : List Dirent) (e : Dirent) (child : ℕ) (name : List ℕ)
    → Laid buf (es ++ e ∷ [])
    → child < 2 ^ 32
    → length name ≤ 255
    → insert_entry buf child name ≡ some (some buf')
    → All (λ f. f.ino ≢ child) (es ++ e ∷ [])
    → name_in_block (suc blocksize) buf' 0 child ≡ named name
name_in_block-insert_entry buf buf' es e child name l c n i d =
    elim (insert_entry-Added buf es e child name l c n) [
      | inl (r, b, j, laid) ↦
          let newest : Dirent = record {
            ino = child;
            len = e.len - padded (length e.name);
            name = name;
          } in
          name_in_block-Laid buf' (es ++ cut_down e ∷ []) [] newest
            (subst (Laid buf') (sym (append_assoc es (cut_down e ∷ []) (newest ∷ [])))
              (subst (λ x. Laid x (es ++ (cut_down e ∷ newest ∷ []))) (same b j) laid))
            (other es d)
      | inr (r, j) ↦ absurd (never j)
    ]
  where
    other :
        (fs : List Dirent)
        → All (λ f. f.ino ≢ child) (fs ++ e ∷ [])
        → All (λ f. f.ino ≢ child) (fs ++ cut_down e ∷ [])
    other [] d = (d.0, tt)
    other (f ∷ fs) d = (d.0, other fs d.1)

    same : (b : ℕ → ℕ) → insert_entry buf child name ≡ some (some b) → b ≡ buf'
    same b j = cc (i, j)

    never : insert_entry buf child name ≡ some none → ⊥
    never j = cc (i, j)
