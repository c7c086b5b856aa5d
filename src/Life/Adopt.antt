-- ===== src/Life/Adopt.antt =====
-- The loop of `kexit` over the processes: the children of the process that ends go to process 1.
use xern.Base.{
  ==-refl, ==_iff, ℕ, zero, suc, ◌+◌, ◌≤◌, ◌<◌, ◌≡◌, refl, ◌∙◌, ap, sym, inl, inr, true, false,
  Bool, some, arith, if◌then◌else◌, ◌==◌, ◌&&◌, leb, ltb, Bool-cases,
}
use xern.Kernel.{Kernel, Proc}
use xern.Life.{adopt, reparent, is_child}

-- Whether the loop over `m` processes from `i` on makes process 1 the parent of `a`.
abbrev pub moves : Kernel → (i m a : ℕ) → Bool
moves k i m a = (leb i a && ltb a (i + m)) && is_child k a

-- The entry of `a` after it.
abbrev pub entry : Kernel → ℕ → Bool → Proc
entry k a moved = if moved then record (k.procs a) { ppid = 1; parent = some 1 } else k.procs a

pub record Adopted (k : Kernel) (i m w : ℕ) (out : Kernel × ℕ) : Type 0 where
  pub others : out.0 ≡ record k { procs = out.0.procs }
  pub fields : (a : ℕ) → out.0.procs a ≡ entry k a (moves k i m a)
  pub least : w ≤ out.1
  pub counts : (a : ℕ) → moves k i m a ≡ true → w < out.1

passed : (k : Kernel) (i m : ℕ) → moves k (suc i) m i ≡ false
passed k i m = ground arith

now : (k : Kernel) (i m : ℕ) → moves k i (suc m) i ≡ is_child k i
now k i m = ground arith

ahead : (k : Kernel) (i m a : ℕ) → (a == i) ≡ false → moves k (suc i) m a ≡ moves k i (suc m) a
ahead k i m a ne = ground arith

-- The kernel after a round in which `i` was a child.
reparent-child :
    (k : Kernel) (i a : ℕ) → (a == i) ≡ false → is_child (reparent k i) a ≡ is_child k a
reparent-child k i a ne = ground arith

ahead_reparent :
    (k : Kernel) (i m a : ℕ)
    → (a == i) ≡ false
    → entry (reparent k i) a (moves (reparent k i) (suc i) m a) ≡ entry k a (moves k i (suc m) a)
ahead_reparent k i m a ne = ground (arith, reparent-child k i a ne, ahead k i m a ne)

entry_child :
    (k : Kernel) (i m a : ℕ)
    → is_child k i ≡ true
    → entry (reparent k i) a (moves (reparent k i) (suc i) m a) ≡ entry k a (moves k i (suc m) a)
entry_child k i m a child = elim (Bool-cases (a == i)) [
  | inl here ↦
      rw ((==_iff a i).0 here)
        (rw (passed (reparent k i) i m, now k i m ∙ child) (rw (==-refl i) refl))
  | inr there ↦ ahead_reparent k i m a there
]

entry_other :
    (k : Kernel) (i m a : ℕ)
    → is_child k i ≡ false
    → entry k a (moves k (suc i) m a) ≡ entry k a (moves k i (suc m) a)
entry_other k i m a other = elim (Bool-cases (a == i)) [
  | inl here ↦ rw ((==_iff a i).0 here) (ap (entry k i) (passed k i m ∙ sym (now k i m ∙ other)))
  | inr there ↦ ap (entry k a) (ahead k i m a there)
]

moves_later :
    (k : Kernel) (i m a : ℕ)
    → is_child k i ≡ false
    → moves k i (suc m) a ≡ true
    → moves k (suc i) m a ≡ true
moves_later k i m a other h = elim (Bool-cases (a == i)) [
  | inl here ↦
      absurd (ground (arith, now k i m, other, h, ap (moves k i (suc m)) ((==_iff a i).0 here)))
  | inr there ↦ ahead k i m a there ∙ h
]

-- The loop gives exactly the children among its processes to process 1, changes nothing else, and
-- counts at least one if there is one.
pub adopt-Adopted : (m i w : ℕ) (k : Kernel) → Adopted k i m w (adopt m i w k)
unfolding adopt
adopt-Adopted zero i w k = record {
  others = refl;
  fields = λ a. ground arith;
  least = omega arith;
  counts = λ a h. absurd (ground (arith, h));
}
adopt-Adopted (suc m) i w k = elim (Bool-cases (is_child k i)) [
  | inl child ↦
      let r = adopt-Adopted m (suc i) (suc w) (reparent k i) in
      rw (child, adopt)
        (record {
          others = r.others;
          fields = λ a. r.fields a ∙ entry_child k i m a child;
          least = omega (arith, r.least);
          counts = λ a h. omega (arith, r.least);
        })
  | inr other ↦
      let r = adopt-Adopted m (suc i) w k in
      rw (other, adopt)
        (record {
          others = r.others;
          fields = λ a. r.fields a ∙ entry_other k i m a other;
          least = r.least;
          counts = λ a h. r.counts a (moves_later k i m a other h);
        })
]
