-- ===== src/Pipe/Ring.antt =====
-- A pipe that has not overflowed is a queue of bytes.
use xern.Base.{
  ℕ, zero, suc, ◌+◌, ◌-◌, ◌%◌, ◌≤◌, ◌<◌, ◌≡◌, refl, ◌∙◌, ap, List, [], ◌∷◌, ◌++◌, arith, update,
  length, append-nil, append_assoc,
}
use xern.Kernel.{Pipe, pipesize}
use xern.Pipe.{read_loop, write_loop}
use xern.Pipe.Window.{window, window-pos, window-snoc}

-- The write offset is the read offset and the number of bytes held, at most PIPESIZE.
pub record IsValid (p : Pipe) : Type 0 where
  pub offsets : p.w_off ≡ p.r_off + p.count
  pub fits : p.count ≤ pipesize

abbrev pub contents : Pipe → List ℕ
contents p = window p.buf p.r_off p.count

-- What writing `s` into a pipe with room for it has done.
pub record Written (p : Pipe) (s : List ℕ) (out : Pipe) : Type 0 where
  pub valid : IsValid out
  pub bytes : contents out ≡ contents p ++ s
  pub ends : (out.nread ≡ p.nread) × (out.nwrite ≡ p.nwrite) × (out.used ≡ p.used)

write_one-Written :
    (p : Pipe) (c : ℕ)
    → IsValid p
    → p.count < pipesize
    → Written p (c ∷ []) (record p {
      buf = update p.buf (p.w_off % pipesize) c;
      w_off = p.w_off + 1;
      count = p.count + 1;
    })
write_one-Written p c v room = record {
  valid = omega arith;
  bytes = rw v.offsets (window-snoc p.buf c p.r_off p.count room);
  ends = (refl, refl, refl);
}

-- The loop of `write_pipe`, on a valid pipe with room for all the bytes, appends them in order.
pub write_loop-Written :
    (s : List ℕ) (p : Pipe)
    → IsValid p
    → p.count + length s ≤ pipesize
    → Written p s (write_loop s p)
unfolding write_loop
write_loop-Written [] p v room = record {
  valid = v;
  bytes = ground (arith, append-nil (contents p));
  ends = (refl, refl, refl);
}
write_loop-Written (c ∷ s) p v room =
    let one = write_one-Written p c v (omega arith) in
    let rest =
      write_loop-Written s
        (record p {
          buf = update p.buf (p.w_off % pipesize) c;
          w_off = p.w_off + 1;
          count = p.count + 1;
        })
        one.valid (omega arith) in
    record {
      valid = rest.valid;
      bytes =
          rest.bytes ∙ ap (λ (l : List ℕ). l ++ s) one.bytes ∙ append_assoc (contents p) (c ∷ []) s;
      ends = rest.ends;
    }

-- What reading `n` bytes has done.
pub record Read (p : Pipe) (n : ℕ) (out : List ℕ × Pipe) : Type 0 where
  pub valid : IsValid out.1
  pub bytes : contents p ≡ out.0 ++ contents out.1
  pub number : length out.0 ≡ n
  pub ends : (out.1.nread ≡ p.nread) × (out.1.nwrite ≡ p.nwrite) × (out.1.used ≡ p.used)

-- The loop of `read_pipe`, on a valid pipe that holds at least `n` bytes, takes the `n` oldest bytes
-- off, in order, and leaves the rest.
pub read_loop-Read : (n : ℕ) (p : Pipe) → IsValid p → n ≤ p.count → Read p n (read_loop n p)
unfolding read_loop
read_loop-Read zero p v room = record {
  valid = v;
  bytes = refl;
  number = refl;
  ends = (refl, refl, refl);
}
read_loop-Read (suc n) p v room =
    let rest =
      read_loop-Read n (record p { r_off = p.r_off + 1; count = p.count - 1 }) (omega arith)
        (omega arith) in
    record {
      valid = rest.valid;
      bytes =
          window-pos p.buf p.r_off p.count (omega arith)
          ∙ ap (λ (l : List ℕ). p.buf (p.r_off % pipesize) ∷ l) rest.bytes;
      number = ap suc rest.number;
      ends = rest.ends;
    }

-- Into a pipe that is full, a further byte goes over the oldest one: the next byte read is the new
-- one, although the oldest was never read.
pub full-loses_oldest :
    (p : Pipe) (c : ℕ)
    → IsValid p
    → p.count ≡ pipesize
    → (read_loop 1 (write_loop (c ∷ []) p)).0 ≡ c ∷ []
unfolding read_loop write_loop
full-loses_oldest p c v full = ground (arith, same_place p.r_off)
  where
    same_place : (r : ℕ) → (r + pipesize) % pipesize ≡ r % pipesize
    same_place r = omega arith
