-- ===== src/Files/Dropped.antt =====
-- What closing a descriptor does to the reference counts, however it is done.
use xern.Base.{
  ℕ, zero, suc, ◌+◌, ◌<◌, ◌≡◌, ◌∙◌, sym, ap, subst, ◌⊎◌, inl, inr, false, Option, none, some, arith,
  ◌==◌, if◌then◌else◌, pos, dec, Bool-cases, ==_iff,
}
use xern.Kernel.{Kernel, Proc, Oft, proc_fd_max}
use xern.Sync.{is_unused}
use xern.Files.{set_fd, curr_fd, read_pipe_mode, write_pipe_mode}
use xern.Files.Refs.{
  hits, refs, FilesSound, refs-set_fd, referred, refs-alike, hits_self, hits_other,
}

dec-pos : (n m : ℕ) → m + 1 ≡ n → dec (pos n) ≡ pos m
dec-pos zero m h = absurd (omega arith)
dec-pos (suc n) m h = ap pos (omega arith)

abbrev pub IsPipeMode : ℕ → Type 0
IsPipeMode m = (m ≡ read_pipe_mode) ⊎ (m ≡ write_pipe_mode)

-- What a process has of its place among the others, and its page directory.
abbrev pub family : Proc → ℕ × ℕ × Option ℕ × ℕ
family p = (p.pid, p.ppid, p.parent, p.pgdir)

-- What a kernel `k'` has of `k` after descriptor `i` on the entry `o` was closed.
pub record Dropped (k : Kernel) (i o : ℕ) (k' : Kernel) : Type 0 where
  pub same_proc : k'.curr_proc ≡ k.curr_proc
  pub fds : (p : ℕ) → (k'.procs p).fd ≡ ((set_fd k i none).procs p).fd
  pub count : (k'.open_file_table o).refcount ≡ dec (k.open_file_table o).refcount
  pub others : (a : ℕ) → (a == o) ≡ false → k'.open_file_table a ≡ k.open_file_table a
  pub mode : (k'.open_file_table o).mode ≡ (k.open_file_table o).mode
  pub pipe :
      IsPipeMode (k.open_file_table o).mode
      → (k'.open_file_table o).p_ptr ≡ (k.open_file_table o).p_ptr
  pub kin : (p : ℕ) → family (k'.procs p) ≡ family (k.procs p)
  pub live : (p : ℕ) → is_unused (k.procs p).state ≡ false → is_unused (k'.procs p).state ≡ false
  pub same_table : k'.ttbr ≡ k.ttbr

module _ (k : Kernel) (i o : ℕ) (k' : Kernel) (c : FilesSound k) (low : i < proc_fd_max)
    (used : curr_fd k i ≡ some o) (d : Dropped k i o k') where
  refs_after : (a : ℕ) → refs a k'.procs + hits a (some o) ≡ refs a k.procs
  refs_after a = omega (
    arith,
    refs-alike a (set_fd k i none).procs k'.procs d.fds,
    refs-set_fd k a i none c.running low,
    ap (hits a) used,
  )

  count_o : (k'.open_file_table o).refcount ≡ pos (refs o k'.procs)
  count_o =
      d.count
      ∙ ap dec (c.counts o)
      ∙ dec-pos (refs o k.procs) (refs o k'.procs) (omega (arith, refs_after o, hits_self o))

  -- A pipe's entry that is still referred to has its pipe.
  piped_after :
      (a : ℕ)
      → 0 < refs a k'.procs
      → IsPipeMode (k'.open_file_table a).mode
      → (q : ℕ) × ((k'.open_file_table a).p_ptr ≡ some q)
  piped_after a used_still m = elim (Bool-cases (a == o)) [
    | inl here ↦
        let at = (==_iff a o).0 here in
        let m' = subst (λ b. IsPipeMode (k'.open_file_table b).mode) at m in
        let old : IsPipeMode (k.open_file_table o).mode = subst IsPipeMode d.mode m' in
        let (q, e) = c.piped o (referred k o i c.running low used) old in
        (q, ap (λ b. (k'.open_file_table b).p_ptr) at ∙ d.pipe old ∙ e)
    | inr there ↦
        let same = d.others a there in
        let (q, e) =
          c.piped a (omega (arith, refs_after a)) (subst (λ (x : Oft). IsPipeMode x.mode) same m) in
        (q, ap (λ (x : Oft). x.p_ptr) same ∙ e)
  ]

  counts_after : (a : ℕ) → (k'.open_file_table a).refcount ≡ pos (refs a k'.procs)
  counts_after a = elim (Bool-cases (a == o)) [
    | inl here ↦
        subst (λ b. (k'.open_file_table b).refcount ≡ pos (refs b k'.procs))
          (sym ((==_iff a o).0 here)) count_o
    | inr there ↦
        ap (λ (e : Oft). e.refcount) (d.others a there)
        ∙ c.counts a
        ∙ ap pos (omega (arith, refs_after a, hits_other a o there))
  ]

  pub Dropped-FilesSound : FilesSound k'
  Dropped-FilesSound = record {
    counts = counts_after;
    piped = piped_after;
    running = omega (arith, d.same_proc, c.running);
  }

-- The descriptors of the running process afterwards.
pub Dropped-fd :
    (k : Kernel) (i o : ℕ) (k' : Kernel)
    → Dropped k i o k'
    → (m : ℕ) → curr_fd k' m ≡ (if m == i then none else curr_fd k m)
Dropped-fd k i o k' d m =
    ap (λ (p : ℕ). (k'.procs p).fd m) d.same_proc
    ∙ ap (λ (f : ℕ → Option ℕ). f m) (d.fds k.curr_proc)
    ∙ ground arith
