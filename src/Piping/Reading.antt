-- ===== src/Piping/Reading.antt =====
-- `read_pipe` and `write_pipe` against the queue of bytes that a pipe holds.
use xern.Base.{
  ℕ, ◌≡◌, refl, ap, inl, inr, some, List, [], ◌∷◌, ◌++◌, arith, if◌then◌else◌, Bool-cases, ltb,
  length, pos, minus_one, is_positive, min, Option-cases,
}
use xern.Kernel.{Kernel, Pipe, pipe_event}
use xern.Pipe.Ring.{IsValid, contents}
use xern.Sync.{sleep}
use xern.Files.{set_pipe, curr_fd}
use xern.Piping.{PipeRead, got, asleep, fault, try_again, read_pipe, read_from}

-- Descriptor `i` of the running process refers to an entry for the pipe `q`.
pub record OnPipe (k : Kernel) (i q : ℕ) : Type 0 where
  pub entry : ℕ
  pub open_at : curr_fd k i ≡ some entry
  pub pipe_of : (k.open_file_table entry).p_ptr ≡ some q

-- `read_pipe` returned `n` bytes, stored them with a NUL behind and took them off the front of the pipe `q`; other pipes, and all
-- else of the kernel, are as before.
pub record Delivered (k : Kernel) (q n : ℕ) (out : PipeRead) : Type 0 where
  pub bytes : List ℕ
  pub after : Pipe
  pub done : out ≡ got (pos n) (bytes ++ (0 ∷ [])) (set_pipe k q after)
  pub number : length bytes ≡ n
  pub front : contents (k.pipes q) ≡ bytes ++ contents after
  pub valid : IsValid after

-- The count with which `read_pipe` comes to `try_again`.
read_pipe-amount :
    (k : Kernel) (i q n : ℕ)
    → OnPipe k i q
    → read_pipe k i (pos n) ≡ try_again q (min n (k.pipes q).count) k
unfolding read_pipe read_from
read_pipe-amount k i q n on =
    rw on.open_at (rw on.pipe_of (ap (λ c. try_again q c k) (amount n (k.pipes q).count)))
  where
    amount : (n c : ℕ) → (if ltb n c then n else c) ≡ min n c
    amount n c = ground arith

-- How a read that sleeps goes on: it is chosen again in a kernel `k'` of which it knows nothing.
pub data Later (q : ℕ) : PipeRead → PipeRead → Type 0 where
  resumed :
      {r : PipeRead} (count : ℕ) (k k' : Kernel)
      → r ≡ try_again q count k'
      → Later q (asleep count k) r

pub data Reach (q : ℕ) (r : PipeRead) : PipeRead → Type 0 where
  here : Reach q r r
  later : {s t : PipeRead} → Reach q r s → Later q s t → Reach q r t

-- An error, or asleep with nothing asked for any more.
abbrev pub NoData : PipeRead → Type 0
NoData (got v bytes k) = (v ≡ minus_one) × (bytes ≡ [])
NoData (asleep count k) = count ≡ 0
NoData fault = Unit

try_again-NoData : (q : ℕ) (k : Kernel) → NoData (try_again q 0 k)
unfolding try_again
try_again-NoData q k = elim (Bool-cases (is_positive (k.pipes q).nwrite)) [
  | inl writers ↦ elim (Option-cases (sleep (pipe_event q) k)) [
    | inl dead ↦ rw (writers, dead) tt
    | inr (k', live) ↦ rw (writers, live) refl
  ]
  | inr alone ↦ rw alone (refl, refl)
]

Later-NoData : (q : ℕ) {r s : PipeRead} → Later q r s → NoData r → NoData s
Later-NoData q (resumed count k k' e) n = rw (e, n) (try_again-NoData q k')

Reach-NoData : (q : ℕ) {r s : PipeRead} → NoData r → Reach q r s → NoData s
Reach-NoData q n here = n
Reach-NoData q n (later r l) = Later-NoData q l (Reach-NoData q n r)

-- A read from a pipe that is empty when it starts never returns a byte, however often it is woken
-- and whatever was written in the meantime: each time it fails or sleeps again.
pub read_pipe-starves :
    (k : Kernel) (i q n : ℕ) (r : PipeRead)
    → OnPipe k i q
    → (k.pipes q).count ≡ 0
    → Reach q (read_pipe k i (pos n)) r
    → NoData r
read_pipe-starves k i q n r on empty reach = Reach-NoData q first reach
  where
    none_there : min n (k.pipes q).count ≡ 0
    none_there = omega (arith, empty)

    first : NoData (read_pipe k i (pos n))
    first = rw (read_pipe-amount k i q n on, none_there) (try_again-NoData q k)
