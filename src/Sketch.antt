-- ===== src/Sketch.antt =====
-- CuckooGraph/Cuckoo.h, class CMSketch: a count-min sketch of three rows of `uint32_t` counters.
use cuckoo_graph.Prelude.{
  ℕ, zero, suc, ◌+◌, ◌%◌, ◌^◌, ◌≤◌, ◌<◌, ◌≡◌, refl, Bool, ◌&&◌, List, [], ◌∷◌, ◌==◌, arith, min,
  length, tally, if◌then◌else◌, get_or, tally_mono, Bool-cases, ==_refl, ==_symm, inl, inr,
}
use cuckoo_graph.Hash.{mmhash}

abbrev pub cm_len : ℕ
cm_len = 300000

abbrev pub cmseeds : List ℕ
cmseeds = 0 ∷ 221 ∷ 19 ∷ []

-- `cm i j` is the counter `cm[i][j]`.
pub record Sketch : Type 0 where
  pub cm : ℕ → ℕ → ℕ

unfoldable pub new : Sketch
new = record { cm = λ i j. 0 }

-- the counter of a key in row `i`
unfoldable pub cell : ℕ → ℕ → ℕ
cell key i = mmhash key (get_or cmseeds i 0) % cm_len

-- one round of the loop: `++cm[i][…]`
unfoldable pub bump : ℕ → ℕ → Sketch → Sketch
bump key row s = record {
  cm = λ i j. if i == row && j == cell key row then (s.cm i j + 1) % 2 ^ 32 else s.cm i j;
}

unfoldable pub insert : ℕ → Sketch → Sketch
insert key s = bump key 2 (bump key 1 (bump key 0 s))

unfoldable pub query : ℕ → Sketch → ℕ
query key s =
    let r0 = min 0xffff_ffff (s.cm 0 (cell key 0)) in
    let r1 = min r0 (s.cm 1 (cell key 1)) in min r1 (s.cm 2 (cell key 2))

-- The sketch after the keys, the last one first.
unfoldable pub after : List ℕ → Sketch
after [] = new
after (key ∷ keys) = insert key (after keys)

-- How many of the keys share the counter of `key` in row `i`.
abbrev pub sharing : ℕ → ℕ → List ℕ → ℕ
sharing key i keys = tally (λ x. cell x i == cell key i) keys

tally-le-length : (p : ℕ → Bool) (keys : List ℕ) → tally p keys ≤ length keys
unfolding tally
tally-le-length p [] = omega arith
tally-le-length p (x ∷ keys) = ground (arith, tally-le-length p keys)

wrap : (n : ℕ) → n + 1 < 2 ^ 32 → (n + 1) % 2 ^ 32 ≡ n + 1
wrap n h = omega arith

bump_row :
    (x row : ℕ) (s : Sketch) (i j : ℕ)
    → (bump x row s).cm i j
      ≡ (if i == row && j == cell x row then (s.cm i j + 1) % 2 ^ 32 else s.cm i j)
unfolding bump
bump_row x row s i j = refl

-- An insertion counts once in each row.
insert_row :
    (x : ℕ) (s : Sketch) (i j : ℕ)
    → i < 3
    → (insert x s).cm i j ≡ (if j == cell x i then (s.cm i j + 1) % 2 ^ 32 else s.cm i j)
unfolding insert
insert_row x s zero j lt = rw (bump_row, bump_row, bump_row)
insert_row x s (suc zero) j lt = rw (bump_row, bump_row, bump_row)
insert_row x s (suc (suc zero)) j lt = rw (bump_row, bump_row, bump_row)
insert_row x s (suc (suc (suc i))) j lt = absurd (omega arith)

-- Every counter counts the keys that share it.
counter-sharing :
    (keys : List ℕ) (key i : ℕ)
    → i < 3
    → length keys < 2 ^ 32
    → (after keys).cm i (cell key i) ≡ sharing key i keys
unfolding after new tally
counter-sharing [] key i lt few = refl
counter-sharing (x ∷ keys) key i lt few =
    let ih = counter-sharing keys key i lt (omega arith) in
    let small = tally-le-length (λ y. cell y i == cell key i) keys in
    rw (insert_row, lt, ih)
      (elim (Bool-cases (cell x i == cell key i)) [
        | inl same ↦
            rw (==_symm (cell key i), same) (omega (arith, small, wrap (sharing key i keys)))
        | inr other ↦ rw (==_symm (cell key i), other) (omega arith)
      ])

sharing-le-count : (key i : ℕ) (keys : List ℕ) → tally (λ x. x == key) keys ≤ sharing key i keys
sharing-le-count key i keys =
    tally_mono (λ x. x == key) (λ x. cell x i == cell key i) keys
      (λ x e. let same : x ≡ key = ground arith in rw (same) (==_refl _))

pub least : (keys : List ℕ) (key : ℕ) → ℕ
least keys key = min (min (sharing key 0 keys) (sharing key 1 keys)) (sharing key 2 keys)

query-least :
    (keys : List ℕ) (key : ℕ) → length keys < 2 ^ 32 → query key (after keys) ≡ least keys key
unfolding query least
query-least keys key few =
    let c0 = counter-sharing keys key 0 (omega arith) few in
    let c1 = counter-sharing keys key 1 (omega arith) few in
    let c2 = counter-sharing keys key 2 (omega arith) few in
    rw (c0, c1, c2) (omega (arith, tally-le-length (λ x. cell x 0 == cell key 0) keys))

least-le : (keys : List ℕ) (key i : ℕ) → i < 3 → least keys key ≤ sharing key i keys
unfolding least
least-le keys key zero lt = omega arith
least-le keys key (suc zero) lt = omega arith
least-le keys key (suc (suc zero)) lt = omega arith
least-le keys key (suc (suc (suc i))) lt = absurd (omega arith)

-- After fewer than 2 ^ 32 insertions `query` is the least number of inserted keys, over the three
-- rows, that share the counter of the key; so it is at least the number of times that the key was
-- inserted, at most the number of all insertions, and exact where the key is alone in some row.
pub query_bounds :
    (keys : List ℕ) (key : ℕ)
    → length keys < 2 ^ 32
    → let q = query key (after keys) in
      (q ≡ least keys key)
      × (tally (λ x. x == key) keys ≤ q)
      × (q ≤ length keys)
      × ((i : ℕ)
          → i < 3
          → sharing key i keys ≡ tally (λ x. x == key) keys
          → q ≡ tally (λ x. x == key) keys)
query_bounds keys key few =
    let q = query-least keys key few in
    let low : tally (λ x. x == key) keys ≤ least keys key =
      unfold least in
      omega (
        arith,
        sharing-le-count key 0 keys,
        sharing-le-count key 1 keys,
        sharing-le-count key 2 keys,
      ) in
    (
      q,
      rw q low,
      rw q (omega (arith, least-le keys key 0, tally-le-length (λ x. cell x 0 == cell key 0) keys)),
      λ i lt alone. omega (arith, least-le keys key i lt),
    )
