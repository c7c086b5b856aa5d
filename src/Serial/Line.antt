-- ===== src/Serial/Line.antt =====
-- What `serial_read` makes of the keys.
use xern.Base.{
  ℕ, zero, suc, ◌+◌, ◌-◌, ◌<◌, ◌≤◌, ◌≡◌, refl, ap, ◌∙◌, sym, subst, arith, true, Bool-cases, inl,
  inr, Option, none, some, List, [], ◌∷◌, ◌++◌, ◌==◌, ltb, if◌then◌else◌, update, ℤ, pos, length,
  length-append,
}
use xern.Ext2.Writing.Paste.{nth}
use xern.Serial.{backspace, LineRead, echo, reached, line_end, serial_read}

-- A text without its last byte.
abbrev pub init : List ℕ → List ℕ
init [] = []
init (c ∷ []) = []
init (c ∷ d ∷ t) = c ∷ init (d ∷ t)

-- Editing of a line: a backspace takes the last byte away, the carriage return ends the line, and so does the byte with
-- which the line has `count` bytes. The line and the keys that are left, or `none` if the line goes on.
unfoldable pub edited : (keys : List ℕ) → ℤ → (line : List ℕ) → Option (List ℕ × List ℕ)
edited [] count line = none
edited (c ∷ keys) count line =
    let erased = edited keys count (init line) in
    let on = edited keys count (line ++ c ∷ []) in
    if c == backspace
    then erased
    else if c == b'\r'
    then some (line, keys)
    else if reached count (length line + 1)
    then some (line ++ c ∷ [], keys)
    else on

-- The bytes of a line stand at the start of a buffer.
abbrev pub Holds : (ℕ → ℕ) → List ℕ → Type 0
Holds buf line = (i : ℕ) → i < length line → buf i ≡ nth line i

-- A call for at most `m` bytes ends as the line does: with its length and the keys that are left; the buffer holds the
-- line and a NUL behind it, and nothing behind byte `m` was written.
abbrev pub AsEdited : (old : ℕ → ℕ) → (m : ℕ) → Option (List ℕ × List ℕ) → Option LineRead → Type 0
AsEdited old m none none = Unit
AsEdited old m none (some r) = ⊥
AsEdited old m (some e) none = ⊥
AsEdited old m (some (line, keys)) (some (n, buf, out, keys')) =
    (n ≡ length line)
    × (n ≤ m)
    × (keys' ≡ keys)
    × Holds buf line
    × (buf n ≡ 0)
    × ((k : ℕ) → m < k → buf k ≡ old k)

AsEdited-echo :
    (old : ℕ → ℕ) (m : ℕ) (out : List ℕ) (e : Option (List ℕ × List ℕ)) (r : Option LineRead)
    → AsEdited old m e r
    → AsEdited old m e (echo out r)
AsEdited-echo old m out none none h = h
AsEdited-echo old m out none (some r) h = h
AsEdited-echo old m out (some e) none h = h
AsEdited-echo old m out (some (line, keys)) (some (n, buf, out', keys')) h = h

length-init : (line : List ℕ) → length (init line) ≡ length line - 1
length-init [] = omega arith
length-init (c ∷ []) = omega arith
length-init (c ∷ d ∷ t) = omega (arith, length-init (d ∷ t))

nth-init : (line : List ℕ) (i : ℕ) → i < length line - 1 → nth (init line) i ≡ nth line i
nth-init [] i h = absurd (omega arith)
nth-init (c ∷ []) i h = absurd (omega arith)
nth-init (c ∷ d ∷ t) zero h = refl
nth-init (c ∷ d ∷ t) (suc i) h = nth-init (d ∷ t) i (omega arith)

nth-append : (line : List ℕ) (c i : ℕ) → i < length line → nth (line ++ c ∷ []) i ≡ nth line i
nth-append [] c i h = absurd (omega arith)
nth-append (d ∷ t) c zero h = refl
nth-append (d ∷ t) c (suc i) h = nth-append t c i (omega arith)

nth-last : (line : List ℕ) (c : ℕ) → nth (line ++ c ∷ []) (length line) ≡ c
nth-last [] c = refl
nth-last (d ∷ t) c = nth-last t c

Holds-init : (buf : ℕ → ℕ) (line : List ℕ) → Holds buf line → Holds buf (init line)
Holds-init buf line h i l =
    h i (omega (arith, length-init line)) ∙ sym (nth-init line i (omega (arith, length-init line)))

Holds-more :
    (buf : ℕ → ℕ) (line : List ℕ) (c : ℕ)
    → Holds buf line
    → Holds (update buf (length line) c) (line ++ c ∷ [])
Holds-more buf line c h i l = elim (Bool-cases (i == length line)) [
  | inl e ↦
      let at : i ≡ length line = ground (arith, e) in
      rw e (sym (nth-last line c) ∙ ap (nth (line ++ c ∷ [])) (sym at))
  | inr e ↦
      let inside : i < length line = ground (arith, e, l, length-append line (c ∷ [])) in
      rw e (h i inside ∙ sym (nth-append line c i inside))
]

-- The end of a line.
ends_line :
    (old buf : ℕ → ℕ) (m : ℕ) (line out keys : List ℕ) (n : ℕ)
    → n ≡ length line
    → n ≤ m
    → Holds buf line
    → ((k : ℕ) → m < k → buf k ≡ old k)
    → AsEdited old m (some (line, keys)) (some (line_end n buf out keys))
ends_line old buf m line out keys n e l h same =
    (e, l, refl, λ i s. ground (arith, h i s), ground arith, λ k s. ground (arith, same k s))

-- The two ways of a backspace.
erases :
    (old buf : ℕ → ℕ) (m : ℕ) (keys line : List ℕ) (out : List ℕ)
    → AsEdited old m
        (edited keys (pos m) (init line))
        (serial_read keys (pos m) buf (length (init line)))
    → AsEdited old m (edited keys (pos m) (init line)) (
        if ltb 0 (length line)
        then echo out (serial_read keys (pos m) buf (length line - 1))
        else serial_read keys (pos m) buf (length line))
erases old buf m keys [] out h = h
erases old buf m keys (c ∷ t) out h = rw (above t) (
    AsEdited-echo old m out (edited keys (pos m) (init (c ∷ t))) _ (
      subst
        (λ n. AsEdited old m (edited keys (pos m) (init (c ∷ t))) (serial_read keys (pos m) buf n))
        (length-init (c ∷ t)) h))
  where
    above : (t : List ℕ) → ltb 0 (suc (length t)) ≡ true
    above t = ground arith

-- When a line of fewer than `m` bytes stands in the buffer, `serial_read` for `m` bytes makes of the keys what editing the
-- line makes of them, whatever was taken back in between: it waits for more keys exactly if the line goes on, and otherwise
-- returns its length, at most `m`, leaves the keys behind it, and the buffer holds the line and a NUL. It writes to the
-- first `m + 1` bytes of the buffer only.
pub serial_read-AsEdited :
    (keys line : List ℕ) (m : ℕ) (buf old : ℕ → ℕ)
    → length line < m
    → Holds buf line
    → ((k : ℕ) → m < k → buf k ≡ old k)
    → AsEdited old m (edited keys (pos m) line) (serial_read keys (pos m) buf (length line))
unfolding edited serial_read
serial_read-AsEdited [] line m buf old l h same = tt
serial_read-AsEdited (c ∷ keys) line m buf old l h same = elim (Bool-cases (c == backspace)) [
  | inl e ↦ rw e (
      erases old buf m keys line (8 ∷ b' ' ∷ 8 ∷ []) (
        serial_read-AsEdited keys (init line) m buf old (omega (arith, length-init line))
          (Holds-init buf line h) same))
  | inr e ↦ elim (Bool-cases (c == b'\r')) [
    | inl f ↦ rw (e, f) (ends_line old buf m line [] keys (length line) refl (omega arith) h same)
    | inr f ↦ elim (Bool-cases (length line + 1 == m)) [
      | inl g ↦
          rw (e, f, g)
            (ends_line old (update buf (length line) c) m (line ++ c ∷ []) (c ∷ []) keys
              (length line + 1) (sym (length-append line (c ∷ []))) (omega arith)
              (Holds-more buf line c h) (λ k s. ground (arith, same k s)))
      | inr g ↦
          rw (e, f, g)
            (AsEdited-echo old m (c ∷ []) (edited keys (pos m) (line ++ c ∷ [])) _ (
              subst
                (λ n.
                  AsEdited old m (edited keys (pos m) (line ++ c ∷ []))
                    (serial_read keys (pos m) (update buf (length line) c) n))
                (length-append line (c ∷ []))
                (serial_read-AsEdited keys (line ++ c ∷ []) m (update buf (length line) c) old
                  (ground (arith, g, l, length-append line (c ∷ []))) (Holds-more buf line c h)
                  (λ k s. ground (arith, same k s)))))
    ]
  ]
]
