-- ===== src/Pk/File/Count.antt =====
-- How many descriptors refer to a slot of the file table.
use boom_stop.Base.{
  ℕ, zero, suc, ◌+◌, ◌≤◌, ◌<◌, ◌≡◌, refl, Option, none, arith, if◌then◌else◌, update,
}
use boom_stop.Pk.File.{same_file}

-- 1 if the descriptor refers to the slot.
abbrev pub refers : Option ℕ → ℕ → ℕ
refers o f = if same_file o f then 1 else 0

unfoldable pub count : (ℕ → Option ℕ) → ℕ → ℕ → ℕ
count fds zero f = 0
count fds (suc n) f = count fds n f + refers (fds n) f

count-update_above :
    (fds : ℕ → Option ℕ) (n i f : ℕ) (v : Option ℕ)
    → n ≤ i
    → count (update fds i v) n f ≡ count fds n f
unfolding count
count-update_above fds zero i f v h = refl
count-update_above fds (suc n) i f v h = ground (arith, count-update_above fds n i f v)

-- A write to descriptor `i` changes the count by what was there and what is there now.
pub count-update :
    (fds : ℕ → Option ℕ) (n i f : ℕ) (v : Option ℕ)
    → i < n
    → count (update fds i v) n f + refers (fds i) f ≡ count fds n f + refers v f
unfolding count
count-update fds zero i f v h = absurd (omega arith)
count-update fds (suc n) i f v h =
    ground (arith, count-update fds n i f v, count-update_above fds n i f v)

pub refers-le-count : (fds : ℕ → Option ℕ) (n i f : ℕ) → i < n → refers (fds i) f ≤ count fds n f
unfolding count
refers-le-count fds zero i f h = absurd (omega arith)
refers-le-count fds (suc n) i f h = ground (arith, refers-le-count fds n i f)

pub count-none : (n f : ℕ) → count (λ _. none) n f ≡ 0
unfolding count
count-none zero f = refl
count-none (suc n) f = omega (arith, count-none n f)
