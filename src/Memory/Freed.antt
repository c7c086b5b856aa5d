-- ===== src/Memory/Freed.antt =====
-- What `freeuvm` of XERN/include/memory.h gives back: the loops over a page directory and its tables.
pub mod Loop
use xern.Base.{
  ℕ, zero, suc, ◌+◌, ◌*◌, ◌/◌, ◌%◌, ◌≤◌, ◌<◌, ◌≡◌, ◌≢◌, refl, ap, sym, ◌∙◌, subst, Bool, true,
  false, ◌==◌, inl, inr, arith, Bool-cases, ==_iff, if◌then◌else◌, update,
}
use xern.Bits.Maps.{IsBytes, clrbit-IsBytes}
use xern.Memory.{
  Ram, page_size, store, table_of, page_of, dalloc_page, clear_entry, clear_table, free_table,
  free_loop,
}
use xern.Memory.Pages.{taken, dalloc_page-taken}

-- The page at an address, if it is one from 8 MiB to 256 MiB, is free.
abbrev pub Freed : Ram → ℕ → Type 0
Freed r a = 0x800000 ≤ a → a ≤ 0x10000000 → a % page_size ≡ 0 → taken r (a / page_size) ≡ false

-- From `r` to `r'` no page was taken and no word that was 0 was written, and the map holds bytes.
pub record Eased (r r' : Ram) : Type 0 where
  pub free : (q : ℕ) → taken r q ≡ false → taken r' q ≡ false
  pub zeros : (a : ℕ) → r.word a ≡ 0 → r'.word a ≡ 0
  pub bytes : IsBytes r'.bitmap

pub Eased-trans : {r r' r'' : Ram} → Eased r r' → Eased r' r'' → Eased r r''
Eased-trans e f = record {
  free = λ q h. f.free q (e.free q h);
  zeros = λ a h. f.zeros a (e.zeros a h);
  bytes = f.bytes;
}

pub Freed-Eased : {r r' : Ram} (a : ℕ) → Eased r r' → Freed r a → Freed r' a
Freed-Eased a e f low high whole = e.free (a / page_size) (f low high whole)

pub dalloc_page-word : (r : Ram) (a b : ℕ) → (dalloc_page r a).word b ≡ r.word b
unfolding dalloc_page
dalloc_page-word r a b = ground arith

pub dalloc_page-Eased : (r : Ram) (a : ℕ) → IsBytes r.bitmap → Eased r (dalloc_page r a)
unfolding dalloc_page
dalloc_page-Eased r a h = record {
  free = λ q f. ground (arith, dalloc_page-taken r a q h, f);
  zeros = λ b z. dalloc_page-word r a b ∙ z;
  bytes = λ i. ground (arith, h i, clrbit-IsBytes r.bitmap (a / page_size) h i);
}

pub dalloc_page-Freed : (r : Ram) (a : ℕ) → IsBytes r.bitmap → Freed (dalloc_page r a) a
dalloc_page-Freed r a h low high whole =
    ground (arith, dalloc_page-taken r a (a / page_size) h, low, high, whole)

pub store-Eased : (r : Ram) (a : ℕ) → IsBytes r.bitmap → Eased r (store r a 0)
store-Eased r a h = record { free = λ q f. f; zeros = λ b z. ground (arith, z); bytes = h }

-- One entry of a table.
clear_entry-Eased : (r : Ram) (t j : ℕ) → IsBytes r.bitmap → Eased r (clear_entry t j r)
unfolding clear_entry
clear_entry-Eased r t j h = elim (Bool-cases (r.word (t + 4 * j) == 0)) [
  | inl empty ↦ rw empty (record { free = λ q f. f; zeros = λ a z. z; bytes = h })
  | inr full ↦
      let e = dalloc_page-Eased r (page_of (r.word (t + 4 * j))) h in
      rw full (Eased-trans e (store-Eased _ (t + 4 * j) e.bytes))
]

clear_entry-other : (r : Ram) (t j a : ℕ) → a ≢ t + 4 * j → (clear_entry t j r).word a ≡ r.word a
unfolding clear_entry
clear_entry-other r t j a ne = elim (Bool-cases (r.word (t + 4 * j) == 0)) [
  | inl empty ↦ rw empty refl
  | inr full ↦ rw full (ground (arith, ne, dalloc_page-word r (page_of (r.word (t + 4 * j))) a))
]

clear_entry-zero : (r : Ram) (t j : ℕ) → (clear_entry t j r).word (t + 4 * j) ≡ 0
unfolding clear_entry
clear_entry-zero r t j = elim (Bool-cases (r.word (t + 4 * j) == 0)) [
  | inl empty ↦ rw empty ((==_iff (r.word (t + 4 * j)) 0).0 empty)
  | inr full ↦ rw full (ground arith)
]

clear_entry-Freed :
    (r : Ram) (t j : ℕ)
    → IsBytes r.bitmap
    → Freed (clear_entry t j r) (page_of (r.word (t + 4 * j)))
unfolding clear_entry
clear_entry-Freed r t j h = elim (Bool-cases (r.word (t + 4 * j) == 0)) [
  | inl empty ↦ λ low high whole. absurd (nothing (r.word (t + 4 * j)) ((==_iff _ 0).0 empty) low)
  | inr full ↦ rw full (dalloc_page-Freed r (page_of (r.word (t + 4 * j))) h)
]
  where
    nothing : (e : ℕ) → e ≡ 0 → 0x800000 ≤ page_of e → ⊥
    nothing e z low = omega (arith, z, low)

-- The entries of a table.
pub clear_table-Eased :
    (n : ℕ) (r : Ram) (t j : ℕ) → IsBytes r.bitmap → Eased r (clear_table n t j r)
unfolding clear_table
clear_table-Eased zero r t j h = record { free = λ q f. f; zeros = λ a z. z; bytes = h }
clear_table-Eased (suc n) r t j h =
    let e = clear_entry-Eased r t j h in
    Eased-trans e (clear_table-Eased n (clear_entry t j r) t (suc j) e.bytes)

pub clear_table-other :
    (n : ℕ) (r : Ram) (t j a : ℕ)
    → ((k : ℕ) → j ≤ k → k < j + n → a ≢ t + 4 * k)
    → (clear_table n t j r).word a ≡ r.word a
unfolding clear_table
clear_table-other zero r t j a ne = refl
clear_table-other (suc n) r t j a ne =
    clear_table-other n (clear_entry t j r) t (suc j) a
      (λ k low high. ne k (omega (arith, low)) (omega (arith, high)))
    ∙ clear_entry-other r t j a (ne j (omega arith) (omega arith))

-- Entry `k` is 0 after the loop and its page is free.
abbrev pub Done : (r r' : Ram) (t k : ℕ) → Type 0
Done r r' t k = (r'.word (t + 4 * k) ≡ 0) × Freed r' (page_of (r.word (t + 4 * k)))

pub clear_table-Done :
    (n : ℕ) (r : Ram) (t j k : ℕ)
    → IsBytes r.bitmap
    → j ≤ k
    → k < j + n
    → Done r (clear_table n t j r) t k
unfolding clear_table
clear_table-Done zero r t j k h low high = absurd (omega (arith, low, high))
clear_table-Done (suc n) r t j k h low high =
    let e = clear_entry-Eased r t j h in
    let rest = clear_table-Eased n (clear_entry t j r) t (suc j) e.bytes in
    let out = clear_table n t (suc j) (clear_entry t j r) in
    elim (Bool-cases (j == k)) [
      | inl now ↦ subst (Done r out t) ((==_iff j k).0 now) (
        rest.zeros (t + 4 * j) (clear_entry-zero r t j),
        Freed-Eased _ rest (clear_entry-Freed r t j h),
      )
      | inr later ↦
          let more =
            clear_table-Done n (clear_entry t j r) t (suc j) k e.bytes (further j k low later)
              (omega (arith, high)) in
          (
            more.0,
            subst (λ w. Freed out (page_of w))
                (clear_entry-other r t j (t + 4 * k) (apart j k later)) more.1,
          )
    ]
  where
    further : (j k : ℕ) → j ≤ k → (j == k) ≡ false → suc j ≤ k
    further j k l e = ground (arith, l, e)

    apart : (j k : ℕ) → (j == k) ≡ false → t + 4 * k ≢ t + 4 * j
    apart j k e s = ground (arith, e, halved (omega (arith, s)))
      where
        halved : k ≡ j → (j == k) ≡ true
        halved s = ground (arith, s)
