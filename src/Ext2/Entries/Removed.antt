-- ===== src/Ext2/Entries/Removed.antt =====
-- What `remove_child` does to the entries of one block.
use xern.Base.{
  ℕ, zero, suc, ◌+◌, ◌<◌, ◌≤◌, ◌≡◌, refl, ap, ◌∙◌, sym, arith, ◌⊎◌, inl, inr, List, [], ◌∷◌, ◌++◌,
  ltb, some, true, false, subst, append_assoc, ◌==◌, append-nil,
}
use xern.Ext2.{blocksize}
use xern.Ext2.Lookup.{rec_len, same_name}
use xern.Ext2.Entries.{
  last_entry, Removal, alone, left, lengthen, move_down, drop_entry, remove_entry,
}
use xern.Ext2.Entries.Laid.{Dirent, Stand, Laid, total, total-append, Stand-init, Stand-rest}
use xern.Ext2.Entries.Added.{last_entry_lem}
use xern.Ext2.Entries.Moved.{lengthen-Stand, moved_block, moved_block-Laid}

-- The last of the entries takes `n` bytes more.
abbrev pub absorb : ℕ → List Dirent → List Dirent
absorb n [] = []
absorb n (e ∷ []) = record e { len = e.len + n } ∷ []
absorb n (e ∷ d ∷ es) = e ∷ absorb n (d ∷ es)

pub absorb-append :
    (n : ℕ) (es : List Dirent) (e : Dirent)
    → absorb n (es ++ e ∷ []) ≡ es ++ record e { len = e.len + n } ∷ []
absorb-append n [] e = refl
absorb-append n (d ∷ []) e = refl
absorb-append n (d ∷ f ∷ es) e = ap (λ l. d ∷ l) (absorb-append n (f ∷ es) e)

-- A list is empty or has a last element.
data Ends (es : List Dirent) : Type 0 where
  empty : es ≡ [] → Ends es
  last : (init : List Dirent) (e : Dirent) → es ≡ init ++ e ∷ [] → Ends es

ends : (es : List Dirent) → Ends es
ends [] = empty refl
ends (e ∷ es) = more (ends es)
  where
    more : Ends es → Ends (e ∷ es)
    more (empty i) = last [] e (ap (λ l. e ∷ l) i)
    more (last init d i) = last (e ∷ init) d (ap (λ l. e ∷ l) i)

-- None of the entries from place `p` on counts as the name.
abbrev pub Misses : (ℕ → ℕ) → ℕ → List Dirent → List ℕ → Type 0
Misses buf p [] name = Unit
Misses buf p (e ∷ es) name = (same_name buf p name ≡ false) × Misses buf (p + e.len) es name

-- The place of the last entry, and `prev` where there is none.
abbrev behind : (prev p : ℕ) → List Dirent → ℕ
behind prev p [] = prev
behind prev p (e ∷ es) = behind p (p + e.len) es

behind-last :
    (prev p : ℕ) (es : List Dirent) (e : Dirent) → behind prev p (es ++ e ∷ []) ≡ p + total es
behind-last prev p [] e = omega arith
behind-last prev p (d ∷ es) e = behind-last p (p + d.len) es e ∙ omega arith

misses_once :
    (n : ℕ) (buf : ℕ → ℕ) (prev p : ℕ) (name : List ℕ)
    → p < blocksize
    → same_name buf p name ≡ false
    → remove_entry (suc n) buf prev p name ≡ remove_entry n buf p (p + rec_len buf p) name
unfolding remove_entry
misses_once n buf prev p name h m = ground (arith, h, m)

hits :
    (n : ℕ) (buf : ℕ → ℕ) (prev p : ℕ) (name : List ℕ)
    → p < blocksize
    → same_name buf p name ≡ true
    → remove_entry (suc n) buf prev p name ≡ drop_entry buf prev p
unfolding remove_entry
hits n buf prev p name h m = ground (arith, h, m)

-- The search comes to the first entry that counts as the name.
reaches :
    (n : ℕ) (buf : ℕ → ℕ) (prev p : ℕ) (before after : List Dirent) (d : Dirent) (name : List ℕ)
    → Stand buf p (before ++ d ∷ after)
    → p + total (before ++ d ∷ after) ≡ blocksize
    → blocksize ≤ p + n
    → Misses buf p before name
    → same_name buf (p + total before) name ≡ true
    → remove_entry (suc n) buf prev p name
      ≡ drop_entry buf (behind prev p before) (p + total before)
reaches n buf prev p [] after d name s t h m y =
    hits n buf prev p name (omega (arith, s.0.room))
      (ap (λ q. same_name buf q name) {x = p} {y = p + 0} (omega arith) ∙ y)
    ∙ ap (drop_entry buf prev) {x = p} {y = p + 0} (omega arith)
reaches zero buf prev p (e ∷ es) after d name s t h m y = absurd (omega (arith, s.0.room))
reaches (suc n) buf prev p (e ∷ es) after d name s t h m y =
    misses_once (suc n) buf prev p name (omega (arith, s.0.room)) m.0
    ∙ (ap (λ q. remove_entry (suc n) buf p q name) {x = p + rec_len buf p} {y = p + e.len}
          (omega (arith, s.0.len))
        ∙ (reaches n buf p (p + e.len) es after d name s.1 (omega arith) (omega (arith, s.0.room))
              m.1
              (ap (λ q. same_name buf q name) {x = p + e.len + total es}
                  {y = p + (e.len + total es)} (omega arith)
                ∙ y)
            ∙ ap (drop_entry buf (behind p (p + e.len) es)) {x = p + e.len + total es}
                {y = p + (e.len + total es)} (omega arith)))

-- How the search and what follows it end: with `alone` where there is no other entry, and otherwise with a block that is
-- laid out in the other entries, the last of which has taken the length over.
abbrev pub Removed : List Dirent → Dirent → List Dirent → Removal → Type 0
Removed before d after r =
    ((before ++ after ≡ []) × (r ≡ alone))
    ⊎ ((buf' : ℕ → ℕ) × (r ≡ left buf') × Laid buf' (absorb d.len (before ++ after)))

drop_alone : (buf : ℕ → ℕ) (prev p : ℕ) → rec_len buf p ≡ blocksize → drop_entry buf prev p ≡ alone
unfolding drop_entry
drop_alone buf prev p e = rw e refl

drop_last :
    (buf : ℕ → ℕ) (prev p del : ℕ)
    → rec_len buf p ≡ del
    → del < blocksize
    → p + del ≡ blocksize
    → drop_entry buf prev p ≡ left (lengthen buf prev del)
unfolding drop_entry
drop_last buf prev p del e h t = rw (e, differ h, ends_there t) refl
  where
    differ : del < blocksize → (del == blocksize) ≡ false
    differ h = ground arith

    ends_there : p + del ≡ blocksize → (p + del == blocksize) ≡ true
    ends_there t = ground arith

drop_middle :
    (buf : ℕ → ℕ) (prev p del l : ℕ)
    → rec_len buf p ≡ del
    → p + del < blocksize
    → last_entry blocksize buf 0 ≡ some l
    → drop_entry buf prev p ≡ left (move_down (lengthen buf l del) p del)
unfolding drop_entry
drop_middle buf prev p del l e h f = rw (e, differ h, goes_on h, f, e, inside h) refl
  where
    differ : p + del < blocksize → (del == blocksize) ≡ false
    differ h = ground arith

    goes_on : p + del < blocksize → (p + del == blocksize) ≡ false
    goes_on h = ground arith

    inside : p + del < blocksize → ltb blocksize (p + del) ≡ false
    inside h = ground arith

module _ (buf : ℕ → ℕ) (d : Dirent) where
  abbrev Drops : (before after : List Dirent) → Type 0
  Drops before after =
      Laid buf (before ++ d ∷ after)
      → Removed before d after (drop_entry buf (behind 0 0 before) (total before))

  Drops-only : Drops [] []
  Drops-only (s, t) = inl (refl, drop_alone buf 0 0 (s.0.len ∙ omega (arith, t)))

  Drops-last : (init : List Dirent) (q : Dirent) → Drops (init ++ q ∷ []) []
  Drops-last init q (s, t) =
      let at_d = (Stand-rest buf 0 (init ++ q ∷ []) (d ∷ []) s).0 in
      let st = Stand-init buf 0 (init ++ q ∷ []) (d ∷ []) s in
      let at_q = (Stand-rest buf 0 init (q ∷ []) st).0 in
      let size : total init + q.len + d.len ≡ blocksize =
        omega (arith, t, total-append (init ++ q ∷ []) (d ∷ []), total-append init (q ∷ [])) in
      inr (
        lengthen buf (0 + total init) d.len,
        drop_last buf (behind 0 0 (init ++ q ∷ [])) (total (init ++ q ∷ [])) d.len
              (ap (rec_len buf) {x = total (init ++ q ∷ [])} {y = 0 + total (init ++ q ∷ [])}
                  (omega arith)
                ∙ at_d.len)
              (omega (arith, at_q.room)) (omega (arith, total-append init (q ∷ [])))
            ∙ ap (λ x. left (lengthen buf x d.len)) (behind-last 0 0 init q),
        subst (λ es. Laid (lengthen buf (0 + total init) d.len) es)
            (sym (ap (absorb d.len) (append-nil (init ++ q ∷ [])) ∙ absorb-append d.len init q))
            (
              lengthen-Stand buf 0 init q d.len st (omega arith),
              omega (arith, total-append init (record q { len = q.len + d.len } ∷ [])),
            ),
      )

  Drops-middle : (before mid : List Dirent) (l : Dirent) → Drops before (mid ++ l ∷ [])
  Drops-middle before mid l (s, t) =
      let at_d = (Stand-rest buf 0 before (d ∷ (mid ++ l ∷ [])) s).0 in
      let joined = append_assoc before (d ∷ mid) (l ∷ []) in
      let at_l =
        (Stand-rest buf (0 + total before + d.len) mid (l ∷ [])
          (Stand-rest buf 0 before (d ∷ (mid ++ l ∷ [])) s).1).0 in
      let size : total before + d.len + total mid + l.len ≡ blocksize =
        omega (arith, t, total-append before (d ∷ (mid ++ l ∷ [])), total-append mid (l ∷ [])) in
      inr (
        moved_block buf before mid d l,
        drop_middle buf (behind 0 0 before) (total before) d.len (total before + d.len + total mid)
            (ap (rec_len buf) {x = total before} {y = 0 + total before} (omega arith) ∙ at_d.len)
            (omega (arith, at_l.room))
            (last_entry_lem blocksize buf 0 (before ++ d ∷ mid) l
                (subst (Stand buf 0) (sym joined) s) (omega (arith, ap total joined ∙ t))
                (omega arith)
              ∙ ap some (omega (arith, total-append before (d ∷ mid)))),
        subst (λ es. Laid (moved_block buf before mid d l) es)
            (sym (
              ap (absorb d.len) (sym (append_assoc before mid (l ∷ [])))
              ∙ (absorb-append d.len (before ++ mid) l ∙ append_assoc before mid _)))
            (moved_block-Laid buf before mid d l s size),
      )

  drop-Removed : (before after : List Dirent) → Ends before → Ends after → Drops before after
  drop-Removed before after (empty b) (empty a) =
      subst (λ x. Drops x after) (sym b) (subst (Drops []) (sym a) Drops-only)
  drop-Removed before after (last init q b) (empty a) =
      subst (λ x. Drops x after) (sym b)
        (subst (Drops (init ++ q ∷ [])) (sym a) (Drops-last init q))
  drop-Removed before after b (last mid l a) =
      subst (Drops before) (sym a) (Drops-middle before mid l)

-- In a block that is laid out in entries, of which none before `d` counts as the name but `d` does, the search of
-- `remove_child` takes out `d` and no other entry: the others keep their order, numbers and names, and the last of them
-- takes the length of `d` over; where there is no other, the block is to be freed.
pub remove_entry-Removed :
    (buf : ℕ → ℕ) (before after : List Dirent) (d : Dirent) (name : List ℕ)
    → Laid buf (before ++ d ∷ after)
    → Misses buf 0 before name
    → same_name buf (total before) name ≡ true
    → Removed before d after (remove_entry (suc blocksize) buf 0 0 name)
remove_entry-Removed buf before after d name h m y =
    subst (Removed before d after)
      (sym (
        reaches blocksize buf 0 0 before after d name h.0 (omega (arith, h.1)) (omega arith) m (
          ap (λ q. same_name buf q name) {x = 0 + total before} {y = total before} (omega arith)
          ∙ y)
        ∙ ap (drop_entry buf (behind 0 0 before)) {x = 0 + total before} {y = total before}
            (omega arith)))
      (drop-Removed buf d before after (ends before) (ends after) h)
