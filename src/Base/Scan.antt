-- ===== src/Base/Scan.antt =====
-- `for(i = start; i < end; i++) if(test) break;`: the first index that passes the test.
use Prim.Native.Nat.{ℕ, zero, suc, ◌+◌, ◌≤◌, ◌<◌}
use mathlib.Core.Path.{◌≡◌, refl, ap, subst}
use mathlib.Core.Logic.{◌⊎◌, inl, inr}
use mathlib.Core.Bool.{Bool, true, false}
use mathlib.Core.Option.{Option, none, some}
use native.Mathlib.Omega.{arith}
use xern.Base.Tests.{Bool-cases}

-- The rounds left, and the index.
unfoldable pub scan : ℕ → ℕ → (ℕ → Bool) → Option ℕ
scan zero i p = none
scan (suc n) i p = elim (p i) [ true ↦ some i | false ↦ scan n (suc i) p ]

-- Between `i` and `r` no index passes.
abbrev pub NoneBefore : (ℕ → Bool) → ℕ → ℕ → Type 0
NoneBefore p i r = (j : ℕ) → i ≤ j → j < r → p j ≡ false

pub record First (p : ℕ → Bool) (n i r : ℕ) : Type 0 where
  pub passes : p r ≡ true
  pub from : i ≤ r
  pub within : r < i + n
  pub before : NoneBefore p i r

before_step : (p : ℕ → Bool) (i r : ℕ) → p i ≡ false → NoneBefore p (suc i) r → NoneBefore p i r
before_step p i r miss rest j low high = ground (arith, rest j, eq_or_lt i j low)
  where
    eq_or_lt : (i j : ℕ) → i ≤ j → (j ≡ i) ⊎ (suc i ≤ j)
    eq_or_lt i j h = grind arith

some_not_none : (i : ℕ) → ◌≡◌ {A = Option ℕ} (some i) none → ⊥
some_not_none i e = cc

found : (i r : ℕ) → ◌≡◌ {A = Option ℕ} (some i) (some r) → i ≡ r
found i r e = cc

pub scan-First : (n i : ℕ) (p : ℕ → Bool) {r : ℕ} → scan n i p ≡ some r → First p n i r
unfolding scan
scan-First zero i p e = cc
scan-First (suc n) i p {r} e = elim (Bool-cases (p i)) [
  | inl hit ↦ subst (First p (suc n) i) (found i r (rw (hit, scan) at e)) (record {
    passes = hit;
    from = omega arith;
    within = omega arith;
    before = λ j low high. absurd (omega arith);
  })
  | inr miss ↦
      let f = scan-First n (suc i) p (rw (miss, scan) at e) in
      record {
        passes = f.passes;
        from = omega (arith, f.from);
        within = omega (arith, f.within);
        before = before_step p i r miss f.before;
      }
]

pub scan-none : (n i : ℕ) (p : ℕ → Bool) → scan n i p ≡ none → NoneBefore p i (i + n)
unfolding scan
scan-none zero i p e j low high = absurd (omega arith)
scan-none (suc n) i p e j low high = elim (Bool-cases (p i)) [
  | inl hit ↦ absurd (some_not_none i (rw (hit, scan) at e))
  | inr miss ↦
      before_step p i (i + suc n) miss
        (λ m l h. scan-none n (suc i) p (rw (miss, scan) at e) m l (omega arith)) j low high
]

pub none-scan : (n i : ℕ) (p : ℕ → Bool) → NoneBefore p i (i + n) → scan n i p ≡ none
unfolding scan
none-scan zero i p h = refl
none-scan (suc n) i p h =
    rw (h i (omega arith) (omega arith), scan)
      (none-scan n (suc i) p (λ j low high. h j (omega (arith, low)) (omega (arith, high))))

pub First-scan : (n i : ℕ) (p : ℕ → Bool) (r : ℕ) → First p n i r → scan n i p ≡ some r
unfolding scan
First-scan zero i p r f = absurd (omega (arith, f.from, f.within))
First-scan (suc n) i p r f = elim (Bool-cases (p i)) [
  | inl hit ↦ rw (hit, scan) (ap (λ j. some j) (same i r (f.before i) f.from hit))
  | inr miss ↦
      rw (miss, scan)
        (First-scan n (suc i) p r (record {
          passes = f.passes;
          from = further i r miss f.passes f.from;
          within = omega (arith, f.within);
          before = λ j low high. f.before j (omega (arith, low)) high;
        }))
]
  where
    same : (i r : ℕ) → (i ≤ i → i < r → p i ≡ false) → i ≤ r → p i ≡ true → i ≡ r
    same i r h l t = ground (arith, h, l, t)

    further : (i r : ℕ) → p i ≡ false → p r ≡ true → i ≤ r → suc i ≤ r
    further i r m t l = grind (arith, m, t, l)
