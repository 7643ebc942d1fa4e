-- ===== src/NodeTable/Placement.antt =====
-- A well-formed bLayer, and what its operations do to the sources of the slots that it holds. What a
-- slot has to satisfy is a parameter.
use cuckoo_graph.Prelude.{
  ℕ, zero, suc, ◌+◌, ◌<◌, ◌≡◌, ◌≢◌, ◌∙◌, refl, inl, inr, Bool, true, false, List, [], ◌∷◌, ◌==◌,
  to_nat, arith, length as size, get_or, set, flatten, tally, tally-flatten-set, length-set,
  get_or-set, length-replicate, get_or-replicate, set-get_or, tally-set, All, Bool-cases, replicate,
  ltb, if◌then◌else◌, tally_empty, tally-flatten_only, tally_mono,
}
use cuckoo_graph.Hash.{home}
use cuckoo_graph.Bucket.{bup}
use cuckoo_graph.Layer.Placement.{strays}
use cuckoo_graph.Slot
use cuckoo_graph.Slot.{Slot, is_slot_empty}
use cuckoo_graph.NodeTable.Row
use cuckoo_graph.NodeTable.Row.{Row}
use cuckoo_graph.NodeTable.Layers.{Layer, new, index, row, insert_slot, read, write}

abbrev pub slots : Layer → List Slot
slots l = flatten l.layer

-- A test of the source of a slot.
abbrev pub on : (ℕ → Bool) → Slot → Bool
on p b = p b.src

abbrev pub free : ℕ → Bool
free s = s == 0

-- A source that row `i` should not hold.
abbrev pub misplaced : Layer → ℕ → ℕ → Bool
misplaced l i = strays l.seed l.length i

pub All-set :
    (P : Slot → Type 0) (xs : List Slot) (i : ℕ) (b : Slot) → All P xs → P b → All P (set xs i b)
All-set P [] i b h g = tt
All-set P (x ∷ xs) zero b h g = (g, h.1)
All-set P (x ∷ xs) (suc i) b h g = (h.0, All-set P xs i b h.1 g)

pub All-get_or :
    (P : Slot → Type 0) (xs : List Slot) (i : ℕ) (d : Slot)
    → i < size xs
    → All P xs
    → P (get_or xs i d)
All-get_or P [] i d lt h = absurd (omega arith)
All-get_or P (x ∷ xs) zero d lt h = h.0
All-get_or P (x ∷ xs) (suc i) d lt h = All-get_or P xs i d (omega arith) h.1

pub All-replicate : (P : Slot → Type 0) (n : ℕ) (b : Slot) → P b → All P (replicate n b)
All-replicate P zero b h = tt
All-replicate P (suc n) b h = (h, All-replicate P n b h)

All-else : (P : Slot → Type 0) (t : Bool) (r : Row) → All P r → All P (if t then r else [])
All-else P true r h = h
All-else P false r h = tt

-- `ys` is the row `xs` with a slot of the source `old` replaced by one of the source `fresh`.
pub record Swaps (P : Slot → Type 0) (old fresh : ℕ) (xs ys : Row) : Type 0 where
  pub width : size ys ≡ size xs
  pub tallies :
      (p : ℕ → Bool) → tally (on p) ys + to_nat (p old) ≡ tally (on p) xs + to_nat (p fresh)
  pub stands : All P ys

-- All rows have eight slots, and a slot stands only in the row of its source.
pub record IsValid (P : Slot → Type 0) (l : Layer) : Type 0 where
  pub sized : size l.layer ≡ l.length
  pub positive : 0 < l.length
  pub widths : (i : ℕ) → i < l.length → size (row i l) ≡ bup
  pub placed : (i : ℕ) → tally (on (misplaced l i)) (row i l) ≡ 0
  pub stands : (i : ℕ) → All P (row i l)

pub record Changes (P : Slot → Type 0) (old fresh : ℕ) (l m : Layer) : Type 0 where
  pub valid : IsValid P m
  pub tallies :
      (p : ℕ → Bool)
      → tally (on p) (slots m) + to_nat (p old) ≡ tally (on p) (slots l) + to_nat (p fresh)
  pub same_length : m.length ≡ l.length
  pub same_seed : m.seed ≡ l.seed

pub Changes-refl : {P : Slot → Type 0} (s : ℕ) {l : Layer} → IsValid P l → Changes P s s l l
Changes-refl s v = record { valid = v; tallies = λ p. refl; same_length = refl; same_seed = refl }

-- One row is rewritten by a slot that belongs there, or by a free one.
pub set-Changes :
    {P : Slot → Type 0} (l : Layer) (i old fresh : ℕ) (r : Row)
    → IsValid P l
    → i < l.length
    → misplaced l i fresh ≡ false
    → Swaps P old fresh (row i l) r
    → Changes P old fresh l (record l { layer = set l.layer i r })
set-Changes {P} l i old fresh r v h fits s =
    let inside : i < size l.layer = omega (arith, v.sized) in
    record {
      valid = record {
        sized = length-set l.layer i r ∙ v.sized;
        positive = v.positive;
        widths =
            λ j lt. ground (arith, get_or-set l.layer i j r [], s.width, v.widths i, v.widths j);
        placed = λ j.
            ground (
              arith,
              get_or-set l.layer i j r [],
              s.tallies (misplaced l i),
              v.placed i,
              v.placed j,
            );
        stands = λ j.
            rw (get_or-set l.layer i j r [] inside)
              (elim (Bool-cases (i == j)) [ inl e ↦ rw e s.stands | inr e ↦ rw e (v.stands j) ]);
      };
      tallies = λ p. omega (arith, tally-flatten-set (on p) l.layer i r inside, s.tallies p);
      same_length = refl;
      same_seed = refl;
    }

pub index-lt : {P : Slot → Type 0} (s : ℕ) {l : Layer} → IsValid P l → index s l < l.length
unfolding home
index-lt s v = omega (arith, v.positive)

pub index_fits : (s : ℕ) (l : Layer) → misplaced l (index s l) s ≡ false
index_fits s l = ground arith

-- A new layer is valid and holds no source.
pub new_layer-IsValid :
    {P : Slot → Type 0} (num s : ℕ) → 0 < num → P Slot.new → IsValid P (new num s)
unfolding new tally Slot.new
new_layer-IsValid {P} num s h g = record {
  sized = length-replicate num Row.empty;
  positive = h;
  widths = λ i lt. ground (arith, get_or-replicate num i Row.empty []);
  placed = λ i. ground (arith, get_or-replicate num i Row.empty []);
  stands = λ i.
      rw (get_or-replicate num i Row.empty [])
        (All-else P (ltb i num) Row.empty (All-replicate P bup Slot.new g));
}

pub new_layer_empty :
    (num s : ℕ) (p : ℕ → Bool) → p 0 ≡ false → tally (on p) (slots (new num s)) ≡ 0
unfolding new tally Slot.new
new_layer_empty num s p h = tally_empty (on p) num Row.empty (ground arith)

-- A source is counted in its own row only.
pub count-home :
    {P : Slot → Type 0} (s : ℕ) {l : Layer}
    → IsValid P l
    → s ≢ 0
    → tally (on (λ x. x == s)) (slots l) ≡ tally (on (λ x. x == s)) (row (index s l) l)
count-home s {l} v h = tally-flatten_only (on (λ x. x == s)) l.layer (index s l) λ i e. omega (
  arith,
  v.placed i,
  tally_mono (on (λ x. x == s)) (on (misplaced l i)) (row i l) (λ x same. ground arith),
)

-- A slot is free exactly where its source is 0.
abbrev pub IsTidy : Slot → Type 0
IsTidy b = is_slot_empty b ≡ (b.src == 0)

-- The ways in which `insert` of a slot can end.
pub data RowTakes (P : Slot → Type 0) (b : Slot) (xs : Row) (r : Bool × Row) : Type 0 where
  row_full : r ≡ (false, xs) → tally (on free) xs ≡ 0 → RowTakes P b xs r
  row_took : (ys : Row) → r ≡ (true, ys) → Swaps P 0 b.src xs ys → RowTakes P b xs r

pub data LayerTakes (P : Slot → Type 0) (b : Slot) (l : Layer) (r : Bool × Layer) : Type 0 where
  layer_full : r ≡ (false, l) → tally (on free) (row (index b.src l) l) ≡ 0 → LayerTakes P b l r
  layer_took : (m : Layer) → r ≡ (true, m) → Changes P 0 b.src l m → LayerTakes P b l r

module _ {P : Slot → Type 0} (tidy : (b : Slot) → P b → IsTidy b) where
  pub row_insert_cases :
      (b : Slot) (xs : Row) → P b → All P xs → RowTakes P b xs (Row.insert_slot b xs)
  unfolding Row.insert_slot tally
  row_insert_cases b [] h a = row_full refl refl
  row_insert_cases b (x ∷ xs) h a =
      let t = tidy x a.0 in
      elim (Bool-cases (x.src == 0)) [
        | inl e ↦
            let none_there : x.src ≡ 0 = ground arith in
            row_took (b ∷ xs) (rw (t, e) refl) (record {
              width = refl;
              tallies = λ p. rw none_there (omega arith);
              stands = (h, a.1);
            })
        | inr e ↦ elim (row_insert_cases b xs h a.1) [
          | row_full run full ↦ row_full (rw (t, e, run) refl) (ground arith)
          | row_took ys run s ↦ row_took (x ∷ ys) (rw (t, e, run) refl) (record {
            width = ground (arith, s.width);
            tallies = λ p. omega (arith, s.tallies p);
            stands = (a.0, s.stands);
          })
        ]
      ]

  -- In a valid layer, `insert` of a slot either finds no free slot in the row and changes nothing, or
  -- leaves a valid layer with the slot in place of a free one.
  pub layer_insert_slot_cases :
      (b : Slot) {l : Layer} → IsValid P l → P b → LayerTakes P b l (insert_slot b l)
  unfolding insert_slot
  layer_insert_slot_cases b {l} v h =
      elim (row_insert_cases b (row (index b.src l) l) h (v.stands _)) [
        | row_full e full ↦ layer_full (rw (e, set-get_or l.layer) refl) full
        | row_took ys e s ↦
            layer_took _ (rw e refl)
              (set-Changes l _ 0 b.src ys v (index-lt b.src v) (index_fits b.src l) s)
      ]

-- A row without a free slot.
read_live :
    (xs : Row) (x : ℕ) (d : Slot) → x < size xs → tally (on free) xs ≡ 0 → (get_or xs x d).src ≢ 0
unfolding tally
read_live [] x d lt h = absurd (omega arith)
read_live (b ∷ xs) zero d lt h = ground arith
read_live (b ∷ xs) (suc x) d lt h = read_live xs x d (omega arith) (ground arith)

-- Kicking a slot out of a full row for one that belongs there.
pub write_slot-Changes :
    {P : Slot → Type 0} (pos x : ℕ) (b : Slot) {l : Layer}
    → IsValid P l
    → P b
    → pos ≡ index b.src l
    → x < bup
    → tally (on free) (row pos l) ≡ 0
    → let kick = read pos x l in
      (kick.src ≢ 0) × P kick × Changes P kick.src b.src l (write pos x b l)
unfolding read write
write_slot-Changes {P} pos x b {l} v h at lt full =
    let inside : pos < l.length = rw at (index-lt b.src v) in
    let wide : x < size (row pos l) = omega (arith, v.widths pos inside) in
    let r = row pos l in
    (
      read_live r x Slot.new wide full,
      All-get_or P r x Slot.new wide (v.stands pos),
      set-Changes l pos _ b.src _ v inside (ground arith) (record {
        width = length-set r x b;
        tallies = λ p. tally-set (on p) r x b Slot.new wide;
        stands = All-set P r x b (v.stands pos) h;
      }),
    )

pub read-All :
    {P : Slot → Type 0} (s x : ℕ) {l : Layer} → IsValid P l → x < bup → P (read (index s l) x l)
unfolding read
read-All {P} s x {l} v lt =
    let i = index s l in
    All-get_or P (row i l) x Slot.new (omega (arith, v.widths i (index-lt s v))) (v.stands i)
