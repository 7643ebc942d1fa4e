-- ===== src/HoleMerge/Double.antt =====
-- The first loops of holemerge::merge: a layer of slots at twice its width.
use cuckoo_graph.Prelude.{
  ℕ, ◌+◌, ◌-◌, ◌*◌, ◌<◌, ◌≡◌, ◌⊎◌, inl, inr, ◌∙◌, refl, Bool, true, false, [], ◌∷◌, ◌==◌, arith,
  tally, length-append, get_or-append, tally-flatten-append, All, Bool-cases, if◌then◌else◌,
}
use native.Mathlib.Decide.{dec_lt}
use cuckoo_graph.Hash.{home}
use cuckoo_graph.Resize.Halves.{
  lower, upper, lowers, uppers, size-lowers, size-uppers, size-lower, size-upper, get_or-lowers,
  get_or-uppers, lower_placed, upper_placed, all_halves_tally,
}
use cuckoo_graph.Slot
use cuckoo_graph.Slot.{Slot}
use cuckoo_graph.NodeTable.Row.{Row}
use cuckoo_graph.NodeTable.Layers
use cuckoo_graph.NodeTable.Layers.{Layer}
use cuckoo_graph.NodeTable.Placement
use cuckoo_graph.NodeTable.Placement.{on, slots}
use cuckoo_graph.HoleMerge.Merge.{source, double_layer}

module _ (P : Slot → Type 0) (g : P Slot.new) (seed width i : ℕ) where
  -- A test that clears a slot or keeps it.
  All-either : (t : Bool) (b : Slot) → P b → P (if t then b else Slot.new)
  All-either true b h = h
  All-either false b h = g

  All-other : (t : Bool) (b : Slot) → P b → P (if t then Slot.new else b)
  All-other true b h = g
  All-other false b h = h

  All-lower : (r : Row) → All P r → All P (lower source Slot.new seed width i r)
  unfolding lower
  All-lower [] a = tt
  All-lower (b ∷ r) a = (
    elim (Bool-cases (b.src == 0)) [
      | inl e ↦ rw e a.0
      | inr e ↦ rw e (All-either (i == home b.src seed width) b a.0)
    ],
    All-lower r a.1,
  )

  All-upper : (r : Row) → All P r → All P (upper source Slot.new seed width i r)
  unfolding upper
  All-upper [] a = tt
  All-upper (b ∷ r) a = (
    elim (Bool-cases (b.src == 0)) [
      | inl e ↦ rw e a.0
      | inr e ↦ rw e (All-other (i == home b.src seed width) b a.0)
    ],
    All-upper r a.1,
  )

-- A cleared slot is free.
bare : Slot.new.src ≡ 0
unfolding Slot.new
bare = refl

module _ {P : Slot → Type 0} (g : P Slot.new) {l : Layer} (v : Placement.IsValid P l) where
  -- Row `i` of the wider layer comes from row `i` or from the one that lies one width below.
  row_cases :
      (i : ℕ)
      → ((i < l.length)
          × (Layers.row i (double_layer l.seed l.length l)
              ≡ lower source Slot.new l.seed (l.length * 2) i (Layers.row i l)))
        ⊎ ((j : ℕ) × (i ≡ j + l.length)
            × (Layers.row i (double_layer l.seed l.length l)
                ≡ upper source Slot.new l.seed (l.length * 2) j (Layers.row j l)))
  unfolding double_layer
  row_cases i =
      let at =
        get_or-append (lowers source Slot.new l.seed (l.length * 2) 0 l.layer)
          (uppers source Slot.new l.seed (l.length * 2) 0 l.layer) i [] in
      let low = size-lowers source Slot.new l.seed l.length 0 l.layer in
      elim (dec_lt i l.length) [
        | yes lt ↦ inl (
          lt,
          ground
              (arith, at, low, v.sized, get_or-lowers source Slot.new l.seed l.length 0 i l.layer),
        )
        | no ge ↦ inr (
          i - l.length,
          omega arith,
          ground (
            arith,
            at,
            low,
            v.sized,
            get_or-uppers source Slot.new l.seed l.length 0 (i - l.length) l.layer,
          ),
        )
      ]

  -- The wider layer is valid and has the same slots.
  pub double_layer-IsValid : Placement.IsValid P (double_layer l.seed l.length l)
  double_layer-IsValid = record {
    sized =
        unfold double_layer in
        omega (
          arith,
          v.sized,
          size-lowers source Slot.new l.seed l.length 0 l.layer,
          size-uppers source Slot.new l.seed l.length 0 l.layer,
          length-append (lowers source Slot.new l.seed (l.length * 2) 0 l.layer)
              (uppers source Slot.new l.seed (l.length * 2) 0 l.layer),
        );
    positive = unfold double_layer in omega (arith, v.positive);
    widths = λ i lt. elim (row_cases i) [
      | inl (low, e) ↦
          rw e (size-lower source Slot.new l.seed l.length i (Layers.row i l) ∙ v.widths i low)
      | inr (j, at, e) ↦ rw e (
          size-upper source Slot.new l.seed l.length j (Layers.row j l)
          ∙ v.widths j (unfold double_layer in omega arith))
    ];
    placed = λ i. elim (row_cases i) [
      | inl (low, e) ↦ rw e (
          unfold double_layer in
          lower_placed source Slot.new bare l.seed l.length i (Layers.row i l))
      | inr (j, at, e) ↦ rw e (
          rw at (
            unfold double_layer in
            upper_placed source Slot.new bare l.seed l.length j (Layers.row j l) v.positive
              (v.placed j)))
    ];
    stands = λ i. elim (row_cases i) [
      | inl (low, e) ↦ rw e (All-lower P g l.seed (l.length * 2) i (Layers.row i l) (v.stands i))
      | inr (j, at, e) ↦ rw e (All-upper P g l.seed (l.length * 2) j (Layers.row j l) (v.stands j))
    ];
  }

  pub tally-double_layer :
      (p : ℕ → Bool)
      → p 0 ≡ false
      → tally (on p) (slots (double_layer l.seed l.length l)) ≡ tally (on p) (slots l)
  unfolding double_layer
  tally-double_layer p z =
      tally-flatten-append (on p) (lowers source Slot.new l.seed (l.length * 2) 0 l.layer)
        (uppers source Slot.new l.seed (l.length * 2) 0 l.layer)
      ∙ all_halves_tally source Slot.new bare l.seed l.length p 0 l.layer z
