-- ===== src/Ext2/Entries/Moved.antt =====
-- Entries of a block whose lengths change and that move: what `remove_child` of XERN/fs/modentry.h does to the bytes.
use xern.Base.{ℕ, ◌+◌, ◌^◌, ◌<◌, ◌≡◌, ap, ◌∙◌, sym, arith, inl, List, [], ◌∷◌, ◌++◌, subst}
use xern.Ext2.{blocksize, put16}
use xern.Ext2.Entries.{lengthen, move_down}
use xern.Ext2.Entries.Laid.{
  Dirent, At, Stand, Laid, total, total-append, At-same, At-resize, Stand-same, Stand-append,
  Stand-init, Stand-rest, put16-out,
}

-- The entry before takes the length of the last one.
pub lengthen-Stand :
    (buf : ℕ → ℕ) (p : ℕ) (es : List Dirent) (e : Dirent) (n : ℕ)
    → Stand buf p (es ++ e ∷ [])
    → e.len + n < 2 ^ 16
    → Stand (lengthen buf (p + total es) n) p (es ++ record e { len = e.len + n } ∷ [])
lengthen-Stand buf p es e n s h =
    let at_e = (Stand-rest buf p es (e ∷ []) s).0 in
    Stand-append (lengthen buf (p + total es) n) p es _
      (Stand-same buf (lengthen buf (p + total es) n) p p es
        (λ k l. put16-out buf (p + total es + 4) _ (p + k) (inl (omega arith)))
        (Stand-init buf p es (e ∷ []) s))
      (
        subst
            (λ m.
              At (put16 buf (p + total es + 4) (m + n)) (p + total es)
                (record e { len = e.len + n }))
            (sym at_e.len)
            (At-resize buf (p + total es) (e.len + n) e h (omega (arith, at_e.room)) at_e),
        tt,
      )

-- The bytes that `move_down` leaves, and those that it moves.
unmoved : (buf : ℕ → ℕ) (p del k : ℕ) → k < p → move_down buf p del k ≡ buf k
unfolding move_down
unmoved buf p del k h = ground arith

moved :
    (buf : ℕ → ℕ) (p del k : ℕ)
    → p + k + del < blocksize
    → move_down buf p del (p + k) ≡ buf (p + del + k)
unfolding move_down
moved buf p del k h = ground (arith, ap buf {x = p + k + del} {y = p + del + k} (omega arith))

-- The entries behind the one at place `total before` move down over it, and the last one takes its length.
module _ (buf : ℕ → ℕ) (before mid : List Dirent) (d l : Dirent) where
  abbrev pub place : ℕ
  place = total before

  abbrev pub moved_block : ℕ → ℕ
  moved_block = move_down (lengthen buf (place + d.len + total mid) d.len) place d.len

  pub moved_block-Laid :
      Stand buf 0 (before ++ d ∷ (mid ++ l ∷ []))
      → place + d.len + total mid + l.len ≡ blocksize
      → Laid moved_block (before ++ (mid ++ record l { len = l.len + d.len } ∷ []))
  moved_block-Laid s t =
      let last = place + d.len + total mid in
      let l' : Dirent = record l { len = l.len + d.len } in
      let buf' = lengthen buf last d.len in
      let tail : Stand buf (place + d.len) (mid ++ l ∷ []) =
        subst (λ q. Stand buf (q + d.len) (mid ++ l ∷ [])) {x = 0 + place} {y = place} (omega arith)
          (Stand-rest buf 0 before (d ∷ (mid ++ l ∷ [])) s).1 in
      let longer : Stand buf' (place + d.len) (mid ++ l' ∷ []) =
        lengthen-Stand buf (place + d.len) mid l d.len tail (omega arith) in
      let at_l = (Stand-rest buf' (place + d.len) mid (l' ∷ []) longer).0 in
      let at_l0 = (Stand-rest buf (place + d.len) mid (l ∷ []) tail).0 in
      (
        Stand-append moved_block 0 before (mid ++ l' ∷ [])
            (Stand-same buf moved_block 0 0 before
              (λ k h.
                unmoved buf' place d.len (0 + k) (omega arith)
                ∙ put16-out buf (last + 4) _ (0 + k) (inl (omega arith)))
              (Stand-init buf 0 before _ s))
            (Stand-append moved_block (0 + place) mid (l' ∷ [])
              (Stand-same buf' moved_block (place + d.len) (0 + place) mid
                (λ k h.
                  ap moved_block {x = 0 + place + k} {y = place + k} (omega arith)
                  ∙ moved buf' place d.len k (omega arith))
                (Stand-init buf' (place + d.len) mid (l' ∷ []) longer))
              (
                At-same buf' moved_block last (0 + place + total mid) l'
                    (λ k h.
                      ap moved_block {x = 0 + place + total mid + k} {y = place + (total mid + k)}
                        (omega arith)
                      ∙ (moved buf' place d.len (total mid + k) (omega (arith, at_l0.room))
                          ∙ ap buf' {x = place + d.len + (total mid + k)} {y = last + k}
                              (omega arith)))
                    at_l,
                tt,
              )),
        omega (arith, total-append before (mid ++ l' ∷ []), total-append mid (l' ∷ [])),
      )
