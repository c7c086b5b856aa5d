-- ===== src/Ext2/Entries/Again.antt =====
-- A name that was put into a block of a directory is found there, and taking it out again restores the entries.
use xern.Base.{
  ℕ, zero, suc, ◌+◌, ◌-◌, ◌^◌, ◌<◌, ◌≤◌, ◌≡◌, ap, ◌∙◌, sym, arith, inl, inr, List, [], ◌∷◌, ◌++◌,
  length, ltb, if◌then◌else◌, none, some, true, false, subst, append_assoc, append-nil, ◌≢◌, Bool,
  Bool-cases, All,
}
use xern.Ext2.{blocksize, get32}
use xern.Ext2.Lookup.{rec_len, entry_name, same_bytes, same_name, found, find_in_block}
use xern.Ext2.Lookup.Names.{same_bytes_back, same_bytes_forth}
use xern.Ext2.Writing.Paste.{nth}
use xern.Ext2.Entries.{padded, insert_entry, left, remove_entry}
use xern.Ext2.Entries.Laid.{Dirent, At, Stand, Laid, total, total-append, Stand-rest, Stand-init}
use xern.Ext2.Entries.Added.{added, insert_entry-Added}
use xern.Ext2.Entries.Removed.{Misses, absorb, Removed, absorb-append, remove_entry-Removed}

-- An entry counts as its own name.
pub At-same_name : (buf : ℕ → ℕ) (p : ℕ) (e : Dirent) → At buf p e → same_name buf p e.name ≡ true
unfolding same_name
At-same_name buf p e a =
    rw (a.size, itself (length e.name)) (same_bytes_back (length e.name) _ _ a.name)
  where
    itself : (n : ℕ) → ltb n n ≡ false
    itself n = ground arith

-- The entry has a byte in its name that the other name has not at that place, so it is no beginning of it.
abbrev pub Differs : List ℕ → Dirent → Type 0
Differs name e = (i : ℕ) × (i < length e.name) × (nth e.name i ≢ nth name i)

Differs-same_name :
    (buf : ℕ → ℕ) (p : ℕ) (e : Dirent) (name : List ℕ)
    → At buf p e
    → Differs name e
    → same_name buf p name ≡ false
unfolding same_name
Differs-same_name buf p e name a (i, l, ne) = rw a.size (elim (Bool-cases test) [
  | inl same ↦ absurd (
      ne (
        sym (a.name i l)
        ∙ same_bytes_forth longer (entry_name buf p) (nth name) same i (ground arith)))
  | inr other ↦ other
])
  where
    longer : ℕ
    longer = if ltb (length e.name) (length name) then length name else length e.name

    test : Bool
    test = same_bytes longer (entry_name buf p) (nth name)

pub Stand-Misses :
    (buf : ℕ → ℕ) (p : ℕ) (es : List Dirent) (name : List ℕ)
    → Stand buf p es
    → All (Differs name) es
    → Misses buf p es name
Stand-Misses buf p [] name s d = tt
Stand-Misses buf p (e ∷ es) name s d =
    (Differs-same_name buf p e name s.0 d.0, Stand-Misses buf (p + e.len) es name s.1 d.1)

pub find_once :
    (n : ℕ) (buf : ℕ → ℕ) (p : ℕ) (name : List ℕ)
    → p < blocksize
    → same_name buf p name ≡ false
    → find_in_block (suc n) buf p name ≡ find_in_block n buf (p + rec_len buf p) name
unfolding find_in_block
find_once n buf p name h m = ground (arith, h, m)

find_here :
    (n : ℕ) (buf : ℕ → ℕ) (p : ℕ) (name : List ℕ)
    → p < blocksize
    → same_name buf p name ≡ true
    → find_in_block (suc n) buf p name ≡ found (get32 buf p)
unfolding find_in_block
find_here n buf p name h m = ground (arith, h, m)

-- The search finds the first entry that counts as the name.
pub find_in_block-found :
    (n : ℕ) (buf : ℕ → ℕ) (p : ℕ) (before after : List Dirent) (d : Dirent) (name : List ℕ)
    → Stand buf p (before ++ d ∷ after)
    → p + total (before ++ d ∷ after) ≡ blocksize
    → blocksize ≤ p + n
    → Misses buf p before name
    → same_name buf (p + total before) name ≡ true
    → find_in_block (suc n) buf p name ≡ found d.ino
find_in_block-found n buf p [] after d name s t h m y =
    find_here n buf p name (omega (arith, s.0.room))
      (ap (λ q. same_name buf q name) {x = p} {y = p + 0} (omega arith) ∙ y)
    ∙ ap found s.0.ino
find_in_block-found zero buf p (e ∷ es) after d name s t h m y = absurd (omega (arith, s.0.room))
find_in_block-found (suc n) buf p (e ∷ es) after d name s t h m y =
    find_once (suc n) buf p name (omega (arith, s.0.room)) m.0
    ∙ (ap (λ q. find_in_block (suc n) buf q name) {x = p + rec_len buf p} {y = p + e.len}
          (omega (arith, s.0.len))
        ∙ find_in_block-found n buf (p + e.len) es after d name s.1 (omega arith)
            (omega (arith, s.0.room)) m.1
            (ap (λ q. same_name buf q name) {x = p + e.len + total es} {y = p + (e.len + total es)}
                (omega arith)
              ∙ y))

module _ (buf : ℕ → ℕ) (es : List Dirent) (e : Dirent) (child : ℕ) (name : List ℕ) where
  -- All entries but the new one.
  abbrev pub older : List Dirent
  older = es ++ record e { len = padded (length e.name) } ∷ []

  abbrev newest : Dirent
  newest = record { ino = child; len = e.len - padded (length e.name); name = name }

  -- What the search and the removal of the name give.
  abbrev pub FoundAgain : (ℕ → ℕ) → Type 0
  FoundAgain buf' =
      (find_in_block (suc blocksize) buf' 0 name ≡ found child)
      × ((buf'' : ℕ → ℕ) × (remove_entry (suc blocksize) buf' 0 0 name ≡ left buf'')
          × Laid buf'' (es ++ e ∷ []))

  restored :
      (buf' : ℕ → ℕ)
      → padded (length e.name) ≤ e.len
      → Removed older newest [] (remove_entry (suc blocksize) buf' 0 0 name)
      → (buf'' : ℕ → ℕ) × (remove_entry (suc blocksize) buf' 0 0 name ≡ left buf'')
        × Laid buf'' (es ++ e ∷ [])
  restored buf' r (inl (no_other, q)) = absurd (
      omega (
        arith,
        ap total no_other,
        total-append older [],
        total-append es (record e { len = padded (length e.name) } ∷ []),
      ))
  restored buf' r (inr (buf'', q, l)) = (
    buf'',
    q,
    subst (Laid buf'')
        (ap (absorb newest.len) (append-nil older)
          ∙ (absorb-append newest.len es (record e { len = padded (length e.name) })
              ∙ ap (λ n. es ++ record e { len = n } ∷ []) (omega arith)))
        l,
  )

  again :
      (buf' : ℕ → ℕ)
      → padded (length e.name) ≤ e.len
      → Laid buf' (added es e child name)
      → Misses buf' 0 older name
      → FoundAgain buf'
  again buf' r l m =
      let joined : added es e child name ≡ older ++ newest ∷ [] =
        sym (append_assoc es (record e { len = padded (length e.name) } ∷ []) (newest ∷ [])) in
      let l' : Laid buf' (older ++ newest ∷ []) = subst (Laid buf') joined l in
      let hit =
        At-same_name buf' (0 + total older) newest (Stand-rest buf' 0 older (newest ∷ []) l'.0).0 in
      (
        find_in_block-found blocksize buf' 0 older [] newest name l'.0 (omega (arith, l'.1))
            (omega arith) m hit,
        restored buf' r (
            remove_entry-Removed buf' older [] newest name l' m (
              ap (λ q. same_name buf' q name) {x = total older} {y = 0 + total older} (omega arith)
              ∙ hit)),
      )

  older-Differs : All (Differs name) (es ++ e ∷ []) → All (Differs name) older
  older-Differs d = shorter es d
    where
      shorter :
          (es : List Dirent)
          → All (Differs name) (es ++ e ∷ [])
          → All (Differs name) (es ++ record e { len = padded (length e.name) } ∷ [])
      shorter [] d = (d.0, tt)
      shorter (f ∷ fs) d = (d.0, shorter fs d.1)

  -- When a number of 32 bits and a name of at most 255 bytes, of which no name in the block is a beginning, were put into a
  -- block that is laid out in entries, the search of `find_inode` finds the number by the name in the block, and what
  -- `remove_child` leaves when it takes the name out again is laid out in the very entries that were there before.
  pub remove-insert_entry :
      (buf' : ℕ → ℕ)
      → Laid buf (es ++ e ∷ [])
      → child < 2 ^ 32
      → length name ≤ 255
      → insert_entry buf child name ≡ some (some buf')
      → All (Differs name) (es ++ e ∷ [])
      → FoundAgain buf'
  remove-insert_entry buf' l c n i d = elim (insert_entry-Added buf es e child name l c n) [
    | inl (r, b, j, laid) ↦
        let laid' = subst (λ b. Laid b (added es e child name)) (same b j) laid in
        again buf' (omega arith) laid' (misses laid')
    | inr (r, j) ↦ absurd (never j)
  ]
    where
      misses : Laid buf' (added es e child name) → Misses buf' 0 older name
      misses (s, t) =
          Stand-Misses buf' 0 older name
            (Stand-init buf' 0 older (newest ∷ []) (
              subst (Stand buf' 0)
                (sym
                  (append_assoc es (record e { len = padded (length e.name) } ∷ []) (newest ∷ [])))
                s))
            (older-Differs d)

      same : (b : ℕ → ℕ) → insert_entry buf child name ≡ some (some b) → b ≡ buf'
      same b j = cc (i, j)

      never : insert_entry buf child name ≡ some none → ⊥
      never j = cc (i, j)
