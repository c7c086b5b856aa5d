-- ===== src/Piping/Writing.antt =====
-- `write_pipe` against the queue of bytes that a pipe holds.
use xern.Base.{
  ℕ, ◌+◌, ◌≤◌, ◌≡◌, refl, ◌∙◌, sym, ap, subst, false, Option, some, List, [], ◌∷◌, ◌++◌, arith,
  if◌then◌else◌, ltb, length, take, ℤ, pos, is_zero, min, length-take,
}
use xern.Kernel.{Kernel, Pipe, pipe_event, pipesize}
use xern.Pipe.{read_loop, write_loop}
use xern.Pipe.Window.{window, length-window}
use xern.Pipe.Ring.{IsValid, contents, write_loop-Written, read_loop-Read}
use xern.Sync.Wakeup.{Queues, Queues-alike, Awake, wakeup-Awake}
use xern.Strings.{strlen}
use xern.Files.{set_pipe}
use xern.Piping.{write_pipe, write_bytes}
use xern.Piping.Reading.{OnPipe}

-- The kernel after `write_pipe` has copied the bytes, before it wakes the readers.
abbrev pub filled : Kernel → ℕ → List ℕ → Kernel
filled k q bytes = set_pipe k q (write_loop bytes (k.pipes q))

-- What a write of `bytes` to the pipe `q` returns: their number, and a kernel in which the pipe
-- holds them behind what it held and the readers asleep on it are awake.
pub record Sent (k : Kernel) (q : ℕ) (xs ys bytes : List ℕ) (out : Option (ℤ × Kernel))
    : Type 0 where
  pub next : Kernel
  pub done : out ≡ some (pos (length bytes), next)
  pub holds : contents (next.pipes q) ≡ contents (k.pipes q) ++ bytes
  pub valid : IsValid (next.pipes q)
  pub readers : Awake (filled k q bytes) (pipe_event q) xs ys (some next)

amount : (n len : ℕ) → (if ltb len n then len else n) ≡ min n len
amount n len = ground arith

to_write_bytes :
    (k : Kernel) (i q n len : ℕ) (buf : List ℕ)
    → OnPipe k i q
    → is_zero (k.pipes q).nread ≡ false
    → strlen buf ≡ some len
    → write_pipe k i buf (pos n) ≡ write_bytes q (pos n) len buf k
unfolding write_pipe
to_write_bytes k i q n len buf on readers text =
    rw on.open_at (rw on.pipe_of (rw (readers, text) refl))

write_bytes-Sent :
    (k : Kernel) (q n len : ℕ) (buf xs ys : List ℕ)
    → len ≤ length buf
    → IsValid (k.pipes q)
    → (k.pipes q).count + min n len ≤ pipesize
    → Queues k xs ys
    → Sent k q xs ys (take (min n len) buf) (write_bytes q (pos n) len buf k)
unfolding write_bytes
write_bytes-Sent k q n len buf xs ys inside v room qs =
    let bytes = take (min n len) buf in
    let number : length bytes ≡ min n len = omega (arith, length-take (min n len) buf) in
    let one = write_loop-Written bytes (k.pipes q) v (omega (arith, number)) in
    let w =
      wakeup-Awake (filled k q bytes) (pipe_event q) xs ys
        (Queues-alike k (filled k q bytes) refl refl (λ a. refl) (λ a. refl) qs) in
    let pipe : w.next.pipes q ≡ write_loop bytes (k.pipes q) =
      ap (λ (m : Kernel). m.pipes q) w.others ∙ ground arith in
    rw (amount n len, w.done)
      (record {
        next = w.next;
        done = rw number refl;
        holds = ap contents pipe ∙ one.bytes;
        valid = subst IsValid (sym pipe) one.valid;
        readers = rw w.done at w;
      })

-- A write of `n` bytes, of a text of `len` bytes before its NUL, to a pipe that has a reader and
-- room for the smaller of the two, returns that number; the pipe then holds those bytes of the
-- text behind what it held, and the processes asleep on it are awake.
pub write_pipe-Sent :
    (k : Kernel) (i q n len : ℕ) (buf xs ys : List ℕ)
    → OnPipe k i q
    → is_zero (k.pipes q).nread ≡ false
    → strlen buf ≡ some len
    → len ≤ length buf
    → IsValid (k.pipes q)
    → (k.pipes q).count + min n len ≤ pipesize
    → Queues k xs ys
    → Sent k q xs ys (take (min n len) buf) (write_pipe k i buf (pos n))
write_pipe-Sent k i q n len buf xs ys on readers text inside v room qs =
    rw (to_write_bytes k i q n len buf on readers text)
      (write_bytes-Sent k q n len buf xs ys inside v room qs)

-- A front of a list that is as long as the list is the list.
front_all : (ws bs s : List ℕ) → ws ++ bs ≡ s → length ws ≡ length s → ws ≡ s
front_all [] bs [] e n = refl
front_all [] bs (c ∷ s) e n = absurd (omega arith)
front_all (a ∷ ws) bs [] e n = absurd (omega arith)
front_all (a ∷ ws) bs (c ∷ s) e n =
    cc (front_all ws bs s (tail_of a c (ws ++ bs) s e) (omega arith))
  where
    tail_of : (a c : ℕ) (l m : List ℕ) → a ∷ l ≡ c ∷ m → l ≡ m
    tail_of a c l m h = cc

-- What is written to an empty pipe, at most PIPESIZE bytes, is what is read from it.
pub read-write_loop :
    (p : Pipe) (s : List ℕ)
    → IsValid p
    → p.count ≡ 0
    → length s ≤ pipesize
    → (read_loop (length s) (write_loop s p)).0 ≡ s
unfolding window
read-write_loop p s v empty room =
    let w = write_loop-Written s p v (omega (arith, empty)) in
    let nothing : contents p ≡ [] = ap (window p.buf p.r_off) empty in
    let holds : contents (write_loop s p) ≡ s = w.bytes ∙ ap (λ (l : List ℕ). l ++ s) nothing in
    let number : (write_loop s p).count ≡ length s =
      sym (length-window (write_loop s p).buf (write_loop s p).r_off (write_loop s p).count)
      ∙ ap length holds in
    let r = read_loop-Read (length s) (write_loop s p) w.valid (omega (arith, number)) in
    front_all (read_loop (length s) (write_loop s p)).0 _ s (sym r.bytes ∙ holds) r.number
