-- ===== src/Life/Kill.antt =====
-- `kkill` finds the process by its number.
use xern.Base.{
  ℕ, ◌-◌, ◌<◌, ◌≡◌, refl, ap, subst, inl, inr, true, false, Bool, arith, ◌==◌, ◌&&◌, not, ltb,
  if◌then◌else◌, Bool-cases, Option-cases, scan, scan-First, scan-none, First, NoneBefore, ℤ, pos,
  negsuc, minus_one,
}
use xern.Kernel.{Kernel, Proc, nprocs}
use xern.Sync.{is_unused}
use xern.Life.{kkill, is_target, is_zombie, send_to_exit}

-- Every process has its index as number, as `OS_init` sets it.
abbrev pub Numbered : Kernel → Type 0
Numbered k = (i : ℕ) → i < nprocs → (k.procs i).pid ≡ i

-- A process but 0 and 1 that has not ended.
abbrev pub may_end : Kernel → ℕ → Bool
may_end k pid =
    (ltb 1 pid && ltb pid nprocs)
    && (not (is_zombie (k.procs pid).state) && not (is_unused (k.procs pid).state))

-- The process returns to the exit call of user programs, at 0x80000004.
abbrev pub returning : Proc → Proc
returning p = record p { tf = record p.tf { lr = 0x80000004 } }

-- What `kkill` of a number is to come to.
abbrev pub killed : Kernel → ℤ → ℤ × Kernel
killed k (negsuc n) = (minus_one, k)
killed k (pos pid) =
    if may_end k pid
    then (pos 0, record k { procs = λ i. if i == pid then returning (k.procs pid) else k.procs i })
    else (minus_one, k)

module _ (k : Kernel) (num : Numbered k) (pid : ℕ) where
  missed : NoneBefore (is_target k pid) 2 64 → may_end k pid ≡ false
  missed none_passes = elim (Bool-cases (ltb 1 pid && ltb pid nprocs)) [
    | inl inside ↦ ground (
      arith,
      inside,
      none_passes pid (ground (arith, inside)) (ground (arith, inside)),
      num pid (ground (arith, inside)),
    )
    | inr out ↦ rw out refl
  ]

  hit : (i : ℕ) → First (is_target k pid) 62 2 i → i ≡ pid
  hit i f = ground (arith, f.passes, num i (omega (arith, f.within)))

  hit-may_end : (i : ℕ) → First (is_target k pid) 62 2 i → may_end k pid ≡ true
  hit-may_end i f =
      subst (λ a. may_end k a ≡ true) (hit i f) (ground (arith, f.passes, f.from, f.within))

  kkill_pos : kkill k (pos pid) ≡ killed k (pos pid)
  unfolding kkill
  kkill_pos = elim (Bool-cases (pid == 1)) [
    | inl init ↦ rw init (ground (arith, init))
    | inr other ↦ elim (Option-cases (scan (nprocs - 2) 2 (is_target k pid))) [
      | inl e ↦
          rw (other, e, missed (λ j low high. scan-none 62 2 (is_target k pid) e j low high)) refl
      | inr (i, e) ↦
          let f = scan-First 62 2 (is_target k pid) e in
          rw (other, e, hit-may_end i f) (ap (λ a. (pos 0, send_to_exit k a)) (hit i f))
    ]
  ]

-- With processes numbered by their places, `kkill` of a process but 0 and 1 that has not ended returns 0 and makes
-- that process, and nothing else, return to the exit call at 0x80000004; of any other number, negative ones included, it
-- returns -1 and changes nothing.
pub kkill-sends : (k : Kernel) → Numbered k → (pid : ℤ) → kkill k pid ≡ killed k pid
unfolding kkill
kkill-sends k num (negsuc n) = refl
kkill-sends k num (pos pid) = kkill_pos k num pid
