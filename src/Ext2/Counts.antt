-- ===== src/Ext2/Counts.antt =====
-- The counts of free inodes and blocks, in the super block and in the group descriptor.
use xern.Base.{ℕ, ◌%◌, ◌^◌, ◌<◌, ◌≤◌, ◌≡◌, arith}
use xern.Ext2.{Fs, get16, get32, put16, put32, change_counts, down, up}

pub get16-put16 : (buf : ℕ → ℕ) (i v : ℕ) → get16 (put16 buf i v) i ≡ v % 2 ^ 16
unfolding get16 put16
get16-put16 buf i v = ground arith

pub get32-put32 : (buf : ℕ → ℕ) (i v : ℕ) → get32 (put32 buf i v) i ≡ v % 2 ^ 32
unfolding get32 put32
get32-put32 buf i v = ground arith

-- A count in the super block and one in the group descriptor.
abbrev pub super_count : Fs → ℕ → ℕ
super_count fs s = get32 (fs.disk 0) s

abbrev pub group_count : Fs → ℕ → ℕ
group_count fs g = get16 (fs.disk 1) g

pub change_counts-super :
    (fs : Fs) (s g : ℕ) (f f' : ℕ → ℕ)
    → super_count (change_counts fs s g f f') s ≡ f (super_count fs s) % 2 ^ 32
unfolding change_counts
change_counts-super fs s g f f' = get32-put32 (fs.disk 0) s (f (super_count fs s))

pub change_counts-group :
    (fs : Fs) (s g : ℕ) (f f' : ℕ → ℕ)
    → group_count (change_counts fs s g f f') g ≡ f' (group_count fs g) % 2 ^ 16
unfolding change_counts
change_counts-group fs s g f f' = get16-put16 (fs.disk 1) g (f' (group_count fs g))

-- The other blocks are left alone.
pub change_counts-disk :
    (fs : Fs) (s g : ℕ) (f f' : ℕ → ℕ) (b : ℕ)
    → 2 ≤ b
    → (change_counts fs s g f f').disk b ≡ fs.disk b
unfolding change_counts
change_counts-disk fs s g f f' b h = ground arith

-- A count taken down and up again.
pub up-down : (n : ℕ) → n < 2 ^ 32 → up 32 (down 32 n) % 2 ^ 32 ≡ n
up-down n h = omega arith

pub up-down16 : (n : ℕ) → n < 2 ^ 16 → up 16 (down 16 n) % 2 ^ 16 ≡ n
up-down16 n h = omega arith
