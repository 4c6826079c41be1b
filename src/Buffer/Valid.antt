-- ===== src/Buffer/Valid.antt =====
-- When a buffer is well formed, and the bytes that it holds.
use crabcraft.Prelude.{ℕ, ◌*◌, ◌^◌, ◌≤◌, true, ◌≡◌, Option, none, some, Bytes, length}
use crabcraft.Buffer.{Allocator, Buf, used}

-- The most that a buffer can hold.
abbrev pub limit : ℕ
limit = 2 ^ 31

-- A capacity is `limit` halved `j` times, and at least 256.
abbrev pub IsCap : ℕ → Type 0
IsCap c = (j : ℕ) × (c * 2 ^ j ≡ limit) × (j ≤ 23)

-- NULL has no room; a block has as many bytes as `cap` says, and `len` of them are in use.
abbrev pub IsBlock : Option Bytes → ℕ → ℕ → Type 0
IsBlock none len cap = (len ≡ 0) × (cap ≡ 0)
IsBlock (some m) len cap = (length m ≡ cap) × (len ≤ cap) × IsCap cap

abbrev pub IsValid : Buf → Type 0
IsValid b = IsBlock b.p b.len b.cap

abbrev pub contents : Buf → Bytes
contents b = used b.p b.len

-- The allocator serves every request up to the limit.
abbrev pub Plentiful : Allocator → Type 0
Plentiful heap = (n : ℕ) → n ≤ limit → heap.grants n ≡ true
