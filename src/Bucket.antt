-- ===== src/Bucket.antt =====
-- CuckooGraph/Cuckoo.h, class Bucket: eight slots of keys, 0 for a free slot. The file is compiled
-- with USING_SIMD and SIMD8, so `del`, `insert` and `query` are the AVX2 branches; the names in
-- `Scalar` are the branches without SIMD. A key is the 32-bit pattern of an `int`.
pub mod Scalar
pub mod Simd
pub mod Tally
use cuckoo_graph.Prelude.{
  ℕ, zero, suc, ◌+◌, ◌*◌, ◌/◌, ◌%◌, Bool, true, false, not, List, [], ◌∷◌, ◌==◌, ltb, to_nat,
  if◌then◌else◌, replicate, set,
}

abbrev pub bup : ℕ
bup = 8

abbrev pub Bucket : Type 0
Bucket = List ℕ

-- `memset(bslot, 0, …)`
abbrev pub empty : Bucket
empty = replicate bup 0

-- The results of `insert`: -1, 0 and 1.
pub data Code : Type 0 where
  duplicate no_room inserted : Code

-- `_mm256_cmpeq_epi32(_mm256_set1_epi32(key), …)`, a truth value for each lane
unfoldable pub cmpeq : ℕ → Bucket → List Bool
cmpeq key [] = []
cmpeq key (x ∷ b) = (x == key) ∷ cmpeq key b

-- `_mm256_movemask_ps`: bit i is the truth value of lane i
unfoldable pub movemask : List Bool → ℕ
movemask [] = 0
movemask (t ∷ ts) = to_nat t + 2 * movemask ts

count_zeros : ℕ → ℕ → ℕ
count_zeros zero n = 0
count_zeros (suc bits) n = let rest = count_zeros bits (n / 2) in if n % 2 == 1 then 0 else suc rest

-- `__tzcnt_u32`: 32 on the number 0
unfoldable pub tzcnt : ℕ → ℕ
unfolding count_zeros
tzcnt n = count_zeros 32 n

unfoldable pub query : ℕ → Bucket → Bool
unfolding cmpeq movemask
query key b = not (movemask (cmpeq key b) == 0)

unfoldable pub del : ℕ → Bucket → Bool × Bucket
unfolding cmpeq movemask tzcnt
del key b =
    let matched = movemask (cmpeq key b) in
    if not (matched == 0)
    then if ltb (tzcnt matched) bup then (true, set b (tzcnt matched) 0) else (false, b)
    else (false, b)

unfoldable pub insert : ℕ → Bucket → Code × Bucket
unfolding cmpeq movemask tzcnt
insert key b =
    if not (movemask (cmpeq key b) == 0)
    then (duplicate, b)
    else let matched = movemask (cmpeq 0 b) in
      if not (matched == 0)
      then if ltb (tzcnt matched) bup then (inserted, set b (tzcnt matched) key) else (no_room, b)
      else (no_room, b)
