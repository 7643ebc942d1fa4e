-- ===== src/NodeTable/Update.antt =====
-- A table of slots in which the slot of one source is rewritten, while what the other slots have to
-- satisfy changes from `P` to `Q`.
use cuckoo_graph.Prelude.{
  ℕ, zero, suc, ◌<◌, ◌≤◌, ◌≡◌, ◌≢◌, ◌∙◌, inl, inr, Bool, false, ◌==◌, List, [], ◌∷◌, arith, get_or,
  set, get_or-set, length as size, length-set, tally, tally-set, tally-flatten_le,
  tally-flatten-set, tally_mono, to_nat, sym, ap, All, Bool-cases,
}
use cuckoo_graph.Bucket.{bup}
use cuckoo_graph.Slot
use cuckoo_graph.Slot.{Slot}
use cuckoo_graph.NodeTable.Row.{Row}
use cuckoo_graph.NodeTable.Layers
use cuckoo_graph.NodeTable.Layers.{Layer, read, write}
use cuckoo_graph.NodeTable.Kicks.{NodeTable}
use cuckoo_graph.NodeTable.Placement
use cuckoo_graph.NodeTable.Placement.{on, slots, index-lt, misplaced}
use cuckoo_graph.NodeTable.Conserve.{IsSound, total}

occurs :
    (s : ℕ) (xs : List Slot) (i : ℕ)
    → i < size xs
    → (get_or xs i Slot.new).src ≡ s
    → 0 < tally (on (λ k. k == s)) xs
unfolding tally
occurs s [] i lt at = absurd (omega arith)
occurs s (x ∷ xs) zero lt at = ground arith
occurs s (x ∷ xs) (suc i) lt at = omega (arith, occurs s xs i (omega arith) at)

-- A row of a valid layer that is not the row of the source.
away :
    {P : Slot → Type 0} (s : ℕ) {l : Layer} (j : ℕ)
    → Placement.IsValid P l
    → s ≢ 0
    → (Layers.index s l == j) ≡ false
    → tally (on (λ k. k == s)) (Layers.row j l) ≡ 0
away s {l} j v live other = omega (
  arith,
  v.placed j,
  tally_mono (on (λ k. k == s)) (on (misplaced l j)) (Layers.row j l) (λ x same. ground arith),
)

-- The same number of slots where one is replaced by another of its source.
pub same_tally :
    (xs : Row) (x : ℕ) (b : Slot) (p : ℕ → Bool)
    → x < size xs
    → (get_or xs x Slot.new).src ≡ b.src
    → tally (on p) (set xs x b) ≡ tally (on p) xs
same_tally xs x b p lt same =
    let moved : to_nat (p (get_or xs x Slot.new).src) ≡ to_nat (p b.src) =
      ap (λ k. to_nat (p k)) same in
    omega (arith, tally-set (on p) xs x b Slot.new lt)

module _ (P Q : Slot → Type 0) (s : ℕ) (moves : (b : Slot) → P b → b.src ≢ s → Q b) where
  pub All-moves : (xs : List Slot) → All P xs → tally (on (λ k. k == s)) xs ≡ 0 → All Q xs
  unfolding tally
  All-moves [] a h = tt
  All-moves (b ∷ xs) a h = (moves b a.0 (ground arith), All-moves xs a.1 (ground arith))

  pub All-set_moves :
      (xs : List Slot) (i : ℕ) (b : Slot)
      → All P xs
      → tally (on (λ k. k == s)) xs ≤ 1
      → i < size xs
      → (get_or xs i Slot.new).src ≡ s
      → Q b
      → All Q (set xs i b)
  unfolding tally
  All-set_moves [] i b a once lt at q = absurd (omega arith)
  All-set_moves (x ∷ xs) zero b a once lt at q = (q, All-moves xs a.1 (ground arith))
  All-set_moves (x ∷ xs) (suc i) b a once lt at q =
      let other : 0 < tally (on (λ k. k == s)) xs = occurs s xs i (omega arith) at in
      (moves x a.0 (ground arith), All-set_moves xs i b a.1 (ground arith) (omega arith) at q)

  pub IsValid-moves :
      {l : Layer}
      → Placement.IsValid P l
      → tally (on (λ k. k == s)) (slots l) ≡ 0
      → Placement.IsValid Q l
  IsValid-moves {l} v h = record {
    sized = v.sized;
    positive = v.positive;
    widths = v.widths;
    placed = v.placed;
    stands = λ i.
        All-moves (Layers.row i l) (v.stands i)
          (omega (arith, tally-flatten_le (on (λ k. k == s)) l.layer i));
  }

  pub IsSound-moves : {c : NodeTable} → IsSound P c → total (λ k. k == s) c ≡ 0 → IsSound Q c
  IsSound-moves {c} v h = record {
    valid1 = IsValid-moves v.valid1 (omega arith);
    valid2 = IsValid-moves v.valid2 (omega arith);
    length1 = v.length1;
    length2 = v.length2;
    same_seed1 = v.same_seed1;
    same_seed2 = v.same_seed2;
  }

  -- The slot of the source, in its row, is rewritten.
  pub write_moves :
      {l : Layer} (i x : ℕ) (b : Slot)
      → i ≡ Layers.index s l
      → s ≢ 0
      → Placement.IsValid P l
      → tally (on (λ k. k == s)) (slots l) ≤ 1
      → x < bup
      → (read i x l).src ≡ s
      → b.src ≡ s
      → Q b
      → Placement.IsValid Q (write i x b l)
        × ((p : ℕ → Bool) → tally (on p) (slots (write i x b l)) ≡ tally (on p) (slots l))
        × (0 < tally (on (λ k. k == s)) (slots l))
  unfolding read write
  write_moves {l} i x b home live v once lt at same q =
      let inside : i < l.length = rw home (index-lt s v) in
      let i_size : i < size l.layer = omega (arith, v.sized) in
      let r = Layers.row i l in
      let wide : x < size r = omega (arith, v.widths i inside) in
      let r' = set r x b in
      let got = λ (j : ℕ). get_or-set l.layer i j r' [] i_size in
      let here : tally (on (λ k. k == s)) r ≤ 1 =
        omega (arith, tally-flatten_le (on (λ k. k == s)) l.layer i) in
      let stays = λ (p : ℕ → Bool). same_tally r x b p wide (at ∙ sym same) in
      (
        record {
          sized = length-set l.layer i r' ∙ v.sized;
          positive = v.positive;
          widths =
              λ j jl. ground (arith, got j, length-set r x b, v.widths i inside, v.widths j jl);
          placed = λ j. ground (arith, got j, stays (misplaced l j), v.placed i, v.placed j);
          stands = λ j. rw (got j) (elim (Bool-cases (i == j)) [
            | inl e ↦ rw e (All-set_moves r x b (v.stands i) here wide at q)
            | inr e ↦
                rw e (All-moves (Layers.row j l) (v.stands j) (away s j v live (rw (← home) e)))
          ]);
        },
        λ p. omega (arith, tally-flatten-set (on p) l.layer i r' i_size, stays p),
        omega (arith, occurs s r x wide at, tally-flatten_le (on (λ k. k == s)) l.layer i),
      )

  -- The same in the first layer of a table.
  pub first_moves :
      {c : NodeTable} (i x : ℕ) (b : Slot)
      → i ≡ Layers.index s c.layer1
      → s ≢ 0
      → IsSound P c
      → total (λ k. k == s) c ≤ 1
      → x < bup
      → (read i x c.layer1).src ≡ s
      → b.src ≡ s
      → Q b
      → let c' : NodeTable = record c { layer1 = write i x b c.layer1 } in
        IsSound Q c' × ((p : ℕ → Bool) → total p c' ≡ total p c) × (0 < total (λ k. k == s) c)
  first_moves {c} i x b home live v once lt at same q =
      let (valid, stays, there) = write_moves i x b home live v.valid1 (omega arith) lt at same q in
      (
        record {
          valid1 = valid;
          valid2 = IsValid-moves v.valid2 (omega arith);
          length1 = unfold write in v.length1;
          length2 = unfold write in v.length2;
          same_seed1 = unfold write in v.same_seed1;
          same_seed2 = unfold write in v.same_seed2;
        },
        λ p. omega (arith, stays p),
        omega arith,
      )

  -- The same in the second layer of a table.
  pub second_moves :
      {c : NodeTable} (i x : ℕ) (b : Slot)
      → i ≡ Layers.index s c.layer2
      → s ≢ 0
      → IsSound P c
      → total (λ k. k == s) c ≤ 1
      → x < bup
      → (read i x c.layer2).src ≡ s
      → b.src ≡ s
      → Q b
      → let c' : NodeTable = record c { layer2 = write i x b c.layer2 } in
        IsSound Q c' × ((p : ℕ → Bool) → total p c' ≡ total p c) × (0 < total (λ k. k == s) c)
  second_moves {c} i x b home live v once lt at same q =
      let (valid, stays, there) = write_moves i x b home live v.valid2 (omega arith) lt at same q in
      (
        record {
          valid2 = valid;
          valid1 = IsValid-moves v.valid1 (omega arith);
          length1 = unfold write in v.length1;
          length2 = unfold write in v.length2;
          same_seed1 = unfold write in v.same_seed1;
          same_seed2 = unfold write in v.same_seed2;
        },
        λ p. omega (arith, stays p),
        omega arith,
      )

-- The same where what the slots have to satisfy becomes weaker.
module _ (P Q : Slot → Type 0) (weaker : (b : Slot) → P b → Q b) where
  pub All-weaker : (xs : List Slot) → All P xs → All Q xs
  All-weaker [] a = tt
  All-weaker (b ∷ xs) a = (weaker b a.0, All-weaker xs a.1)

  IsValid-weaker : {l : Layer} → Placement.IsValid P l → Placement.IsValid Q l
  IsValid-weaker {l} v = record {
    sized = v.sized;
    positive = v.positive;
    widths = v.widths;
    placed = v.placed;
    stands = λ i. All-weaker (Layers.row i l) (v.stands i);
  }

  pub IsSound-weaker : {c : NodeTable} → IsSound P c → IsSound Q c
  IsSound-weaker v = record {
    valid1 = IsValid-weaker v.valid1;
    valid2 = IsValid-weaker v.valid2;
    length1 = v.length1;
    length2 = v.length2;
    same_seed1 = v.same_seed1;
    same_seed2 = v.same_seed2;
  }
