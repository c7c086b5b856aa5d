-- ===== src/Pipe.antt =====
-- The ring of bytes in a `struct pipe` and the two loops of XERN/pipe.c that move them.
pub mod Window
pub mod Ring
use xern.Base.{ℕ, zero, suc, ◌+◌, ◌-◌, ◌%◌, List, [], ◌∷◌, update}
use xern.Kernel.{Pipe, pipesize}

-- `n` rounds of the loop of `read_pipe`: the bytes for the caller's buffer, and the pipe.
unfoldable pub read_loop : ℕ → Pipe → List ℕ × Pipe
read_loop zero p = ([], p)
read_loop (suc n) p =
    let (bytes, p') = read_loop n (record p { r_off = p.r_off + 1; count = p.count - 1 }) in
    (p.buf (p.r_off % pipesize) ∷ bytes, p')

-- The loop of `write_pipe` over the bytes it takes from the caller's buffer. It does not ask
-- whether the pipe has room.
unfoldable pub write_loop : List ℕ → Pipe → Pipe
write_loop [] p = p
write_loop (c ∷ s) p = write_loop s (record p {
  buf = update p.buf (p.w_off % pipesize) c;
  w_off = p.w_off + 1;
  count = p.count + 1;
})
