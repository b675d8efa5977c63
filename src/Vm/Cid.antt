-- ===== src/Vm/Cid.antt =====
-- internal/vm/vm/cid.go: the context ids of the virtual machines, from an atomic uint32.
use oblak.Prelude.{ℕ, zero, suc, ◌+◌, ◌-◌, ◌%◌, ◌^◌, ◌≤◌, ◌<◌, ◌≡◌, ◌≢◌, arith}

abbrev pub u32 : ℕ
u32 = 2 ^ 32

-- `init` stores 3: the ids below are reserved by vsock.
abbrev pub first_cid : ℕ
first_cid = 3

-- nextCid.Add(1) - 1, both on uint32: the counter behind the call, and the id that it returns.
unfoldable pub allocate_cid : ℕ → ℕ × ℕ
allocate_cid next = let bumped = (next + 1) % u32 in (bumped, (bumped + u32 - 1) % u32)

-- The counter behind `n` calls.
pub after : ℕ → ℕ
after zero = first_cid
after (suc n) = (allocate_cid (after n)).0

-- The id that call `n` returns, counted from 0.
pub cid : ℕ → ℕ
cid n = (allocate_cid (after n)).1

after_lem : (n : ℕ) → after n ≡ (first_cid + n) % u32
unfolding after allocate_cid
after_lem zero = omega arith
after_lem (suc n) = omega (arith, after_lem n)

cid_lem : (n : ℕ) → cid n ≡ (first_cid + n) % u32
unfolding cid allocate_cid
cid_lem n = omega (arith, after_lem n)

-- Two of fewer than 2^32 allocations in a row never return the same id.
pub cid-ne : (m n : ℕ) → m < n → n - m < u32 → cid m ≢ cid n
cid-ne m n lt near e = omega (arith, cid_lem m, cid_lem n)

-- Up to the wrap-around no allocation returns one of the reserved ids 0, 1 and 2; the allocation
-- behind 2^32 - 3 others returns 0.
pub cid_reserved : ((n : ℕ) → n < u32 - first_cid → first_cid ≤ cid n) × (cid (u32 - first_cid) ≡ 0)
cid_reserved = (λ n h. omega (arith, cid_lem n), omega (arith, cid_lem (u32 - first_cid)))
