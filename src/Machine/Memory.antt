-- ===== src/Machine/Memory.antt =====
-- Little-endian loads and stores, and bit fields of a word.
use guypervisor.Base.{ℕ, zero, suc, ◌+◌, ◌-◌, ◌*◌, ◌/◌, ◌%◌, ◌^◌, ◌==◌, if◌then◌else◌, ◌≡◌, arith}
use guypervisor.Machine.Run.{Io, done}

-- The number that the `n` bytes at `a` spell.
unfoldable pub load : (ℕ → ℕ) → (n a : ℕ) → ℕ
load m zero a = 0
load m (suc n) a = m a % 256 + 256 * load m n (a + 1)

-- The memory with the `n` low bytes of `v` at `a`.
unfoldable pub store : (n a v : ℕ) → (ℕ → ℕ) → ℕ → ℕ
store zero a v m = m
store (suc n) a v m = store n (a + 1) (v / 256) (λ b. if b == a then v % 256 else m b)

-- The bit field of width `k` from bit `i` on.
abbrev pub field : (i k x : ℕ) → ℕ
field i k x = x / 2 ^ i % 2 ^ k

-- The word with that field set to the low bits of `v`.
abbrev pub set_field : (i k v x : ℕ) → ℕ
set_field i k v x = x - field i k x * 2 ^ i + v % 2 ^ k * 2 ^ i

abbrev pub write_bytes : (n a v : ℕ) → Io (Unit {0})
write_bytes n a v w = done tt (record w { memory = store n a v w.memory })

-- A word is read as it was stored.
pub load-store : (a v : ℕ) (m : ℕ → ℕ) → load (store 4 a v m) 4 a ≡ v % 2 ^ 32
unfolding load store
load-store a v m = ground arith
