-- ===== src/Hash.antt =====
-- CuckooGraph/BobHash.h, BOBHash64, and the hash functions of CuckooGraph/Util.h. Words wrap at
-- 2 ^ 64.
pub mod Primes
use cuckoo_graph.Prelude.{
  ℕ, zero, suc, ◌+◌, ◌-◌, ◌*◌, ◌/◌, ◌%◌, ◌^◌, bit_xor, List, [], ◌∷◌, if◌then◌else◌, ltb, length,
  get_or, drop,
}
use Primes.{prime}

abbrev two64 : ℕ
two64 = 2 ^ 64

add64 : ℕ → ℕ → ℕ
add64 a b = (a + b) % two64

-- `a -= b` on `uint64_t`
sub64 : ℕ → ℕ → ℕ
sub64 a b = (a + two64 - b) % two64

shr : ℕ → ℕ → ℕ
shr x k = x / 2 ^ k

shl : ℕ → ℕ → ℕ
shl x k = (x * 2 ^ k) % two64

-- the macro `mix64`
mix64 : ℕ × ℕ × ℕ → ℕ × ℕ × ℕ
unfolding sub64 shr shl
mix64 (a, b, c) =
    let a = bit_xor (sub64 (sub64 a b) c) (shr c 43) in
    let b = bit_xor (sub64 (sub64 b c) a) (shl a 9) in
    let c = bit_xor (sub64 (sub64 c a) b) (shr b 8) in
    let a = bit_xor (sub64 (sub64 a b) c) (shr c 38) in
    let b = bit_xor (sub64 (sub64 b c) a) (shl a 23) in
    let c = bit_xor (sub64 (sub64 c a) b) (shr b 5) in
    let a = bit_xor (sub64 (sub64 a b) c) (shr c 35) in
    let b = bit_xor (sub64 (sub64 b c) a) (shl a 49) in
    let c = bit_xor (sub64 (sub64 c a) b) (shr b 11) in
    let a = bit_xor (sub64 (sub64 a b) c) (shr c 12) in
    let b = bit_xor (sub64 (sub64 b c) a) (shl a 18) in
    let c = bit_xor (sub64 (sub64 c a) b) (shr b 22) in (a, b, c)

-- The sum of the `n` bytes from `str[from]` on, each shifted to its place in a word.
word : List ℕ → ℕ → ℕ → ℕ → ℕ
unfolding add64 shl
word str from shift zero = 0
word str from shift (suc n) =
    add64 (shl (get_or str from 0) shift) (word str (from + 1) (shift + 8) n)

-- `while (len >= 24)`, one round for each unit of fuel; `length / 24` rounds are made
blocks : ℕ → List ℕ → ℕ × ℕ × ℕ → List ℕ × (ℕ × ℕ × ℕ)
unfolding mix64 word add64
blocks zero str s = (str, s)
blocks (suc rounds) str (a, b, c) =
    let s' =
      mix64 (add64 a (word str 0 0 8), add64 b (word str 8 0 8), add64 c (word str 16 0 8)) in
    let rest = blocks rounds (drop 24 str) s' in
    if ltb (length str) 24 then (str, (a, b, c)) else rest

-- `switch (len)`: the cases fall through, so each byte that is left is added
tail : List ℕ → ℕ × ℕ × ℕ → ℕ × ℕ × ℕ
unfolding mix64 word add64
tail str (a, b, c) = mix64 (
  add64 a (word str 0 0 8),
  add64 b (word str 8 0 8),
  add64 (add64 c (length str)) (word str 16 8 7),
)

-- `num` is the seed; a seed past the table reads outside it in C++, and 0 here
unfoldable pub bob_hash64 : List ℕ → ℕ → ℕ
unfolding blocks tail prime
bob_hash64 str num =
    let start : ℕ = 0x9e37_79b9_7f4a_7c13 in
    let (rest, s) = blocks (length str / 24) str (start, start, get_or prime num 0) in
    (tail rest s).2

-- the four bytes of a key, the lowest first
bytes : ℕ → List ℕ
bytes key = key % 256 ∷ key / 2 ^ 8 % 256 ∷ key / 2 ^ 16 % 256 ∷ key / 2 ^ 24 % 256 ∷ []

unfoldable pub hash64 : ℕ → ℕ → ℕ
unfolding bob_hash64 bytes
hash64 item seed = bob_hash64 (bytes item) seed

-- `#define mmhash hash32`: the low 32 bits
unfoldable pub mmhash : ℕ → ℕ → ℕ
unfolding bob_hash64 bytes
mmhash item seed = bob_hash64 (bytes item) seed % 2 ^ 32

-- `(int)(mmhash(key, seed) % (uint32_t)length)`, the bucket of a key
unfoldable pub home : ℕ → ℕ → ℕ → ℕ
home key seed length = mmhash key seed % length
