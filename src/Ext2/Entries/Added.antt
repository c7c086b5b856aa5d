-- ===== src/Ext2/Entries/Added.antt =====
-- What `insert_child` does to the entries of one block.
use xern.Base.{
  ℕ, zero, suc, ◌+◌, ◌-◌, ◌^◌, ◌<◌, ◌≤◌, ◌≡◌, refl, ap, ◌∙◌, arith, ◌⊎◌, inl, inr, List, [], ◌∷◌,
  ◌++◌, length, ltb, leb, none, some, false, Bool-cases, subst,
}
use xern.Ext2.{blocksize, put16}
use xern.Ext2.Entries.{padded, put_entry, last_entry, insert_entry}
use xern.Ext2.Entries.Laid.{
  Dirent, At, Stand, Laid, total, total-append, At-same, At-resize, Stand-same, Stand-append,
  Stand-init, Stand-rest, put_entry-out, put_entry-At, put16-out,
}

pub last_entry_lem :
    (n : ℕ) (buf : ℕ → ℕ) (p : ℕ) (es : List Dirent) (e : Dirent)
    → Stand buf p (es ++ e ∷ [])
    → p + total (es ++ e ∷ []) ≡ blocksize
    → blocksize ≤ p + n
    → last_entry n buf p ≡ some (p + total es)
unfolding last_entry
last_entry_lem zero buf p es e s t h =
    absurd (omega (arith, total-append es (e ∷ []), (Stand-rest buf p es (e ∷ []) s).0.room))
last_entry_lem (suc n) buf p [] e s t h = ground (arith, s.0.len)
last_entry_lem (suc n) buf p (d ∷ es) e s t h =
    let r = Stand-rest buf p (d ∷ es) (e ∷ []) s in
    let i = last_entry_lem n buf (p + d.len) es e s.1 (omega arith) (omega (arith, s.0.room)) in
    ground (arith, s.0.len, r.0.room, total-append es (e ∷ []), i)

-- The entries with a new one: the last one is cut down, and the new one gets the rest.
abbrev pub added : List Dirent → Dirent → (child : ℕ) → List ℕ → List Dirent
added es e child name =
    let need = padded (length e.name) in
    es ++ record e { len = need } ∷ record { ino = child; len = e.len - need; name = name } ∷ []

-- The block after the new entry is written behind the last one.
abbrev grown_block : (ℕ → ℕ) → (p : ℕ) → Dirent → (child : ℕ) → List ℕ → ℕ → ℕ
grown_block buf p e child name =
    let need = padded (length e.name) in
    put_entry (put16 buf (p + 4) need) (p + need) child (e.len - need) name

module _ (buf : ℕ → ℕ) (es : List Dirent) (e : Dirent) (child : ℕ) (name : List ℕ) where
  grown_block-Laid :
      Laid buf (es ++ e ∷ [])
      → child < 2 ^ 32
      → length name ≤ 255
      → padded (length name) + padded (length e.name) ≤ e.len
      → Laid (grown_block buf (total es) e child name) (added es e child name)
  grown_block-Laid (s, t) c n r =
      let need = padded (length e.name) in
      let buf' = grown_block buf (total es) e child name in
      let mid = put16 buf (total es + 4) need in
      let size : total es + e.len ≡ blocksize = omega (arith, t, total-append es (e ∷ [])) in
      let out : (k : ℕ) → k < total es + need → buf' k ≡ mid k =
        λ k l. put_entry-out mid (total es + need) child (e.len - need) name k (inl l) in
      let last = Stand-rest buf 0 es (e ∷ []) s in
      let at_e : At buf (total es) e = subst (λ q. At buf q e) (omega arith) last.0 in
      (
        Stand-append buf' 0 es _
            (Stand-same buf buf' 0 0 es
              (λ k l.
                out (0 + k) (omega arith)
                ∙ put16-out buf (total es + 4) need (0 + k) (inl (omega arith)))
              (Stand-init buf 0 es (e ∷ []) s))
            (subst
              (λ q. Stand buf' q (
                record e { len = need }
                ∷ record { ino = child; len = e.len - need; name = name }
                ∷ []))
              {x = total es} {y = 0 + total es} (omega arith)
              (
                At-same mid buf' (total es) (total es) (record e { len = need })
                    (λ k l. out (total es + k) (omega arith))
                    (At-resize buf (total es) need e (omega arith) (omega arith) at_e),
                (
                  put_entry-At mid (total es + need) child (e.len - need) name c (omega arith) n
                      (omega arith),
                  tt,
                ),
              )),
        omega (
          arith,
          total-append es (
              record e { len = need }
              ∷ record { ino = child; len = e.len - need; name = name }
              ∷ []),
        ),
      )

  -- With room behind `e` there is a new block, laid out in the old entries and the new one; without room there is none.
  abbrev pub Added : Type 0
  Added =
      ((padded (length name) + padded (length e.name) ≤ e.len)
        × (buf' : ℕ → ℕ) × (insert_entry buf child name ≡ some (some buf'))
        × Laid buf' (added es e child name))
      ⊎ ((e.len < padded (length name) + padded (length e.name))
          × (insert_entry buf child name ≡ some none))

  -- In a block that is laid out in entries, the last of them `e`, `insert_entry` of a name of at most 255 bytes and a
  -- number of 32 bits writes nothing behind the block: when `e` is long enough for both names, the block afterwards is
  -- laid out in the same entries, `e` cut down to what its name needs, and the new one behind with the rest of the
  -- length; otherwise there is no room.
  pub insert_entry-Added : Laid buf (es ++ e ∷ []) → child < 2 ^ 32 → length name ≤ 255 → Added
  unfolding insert_entry
  insert_entry-Added (s, t) c n =
      let at_e : At buf (total es) e =
        subst (λ q. At buf q e) (omega arith) (Stand-rest buf 0 es (e ∷ []) s).0 in
      let found : last_entry blocksize buf 0 ≡ some (total es) =
        last_entry_lem blocksize buf 0 es e s (omega (arith, t)) (omega arith)
        ∙ ap some (omega arith) in
      let size : total es + e.len ≡ blocksize = omega (arith, t, total-append es (e ∷ [])) in
      elim (Bool-cases (leb (padded (length name) + padded (length e.name)) e.len)) [
        | inl fits ↦
            let r : padded (length name) + padded (length e.name) ≤ e.len = ground (arith, fits) in
            inl (
              r,
              grown_block buf (total es) e child name,
              rw (found, at_e.size, at_e.len, fits, inside r size) refl,
              grown_block-Laid (s, t) c n r,
            )
        | inr full ↦ inr (ground (arith, full), rw (found, at_e.size, at_e.len, full) refl)
      ]
    where
      inside :
          padded (length name) + padded (length e.name) ≤ e.len
          → total es + e.len ≡ blocksize
          → ltb blocksize (total es + padded (length e.name) + 8 + length name) ≡ false
      inside r z = ground arith
