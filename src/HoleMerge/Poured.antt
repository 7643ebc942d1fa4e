-- ===== src/HoleMerge/Poured.antt =====
-- Slots poured into a layer: none is lost or doubled.
use cuckoo_graph.Prelude.{
  ℕ, zero, suc, ◌+◌, ◌*◌, ◌<◌, ◌≡◌, ◌≢◌, refl, inl, inr, Bool, false, List, [], ◌∷◌, ◌==◌, arith,
  get_or, tally, tally-append, Bool-cases, sym, ap, ap₂, flatten, length as size, to_nat, All,
}
use cuckoo_graph.Hash.{home}
use cuckoo_graph.Slot.{Slot}
use cuckoo_graph.NodeTable.Row.{Row}
use cuckoo_graph.NodeTable.Layers
use cuckoo_graph.NodeTable.Layers.{Layer}
use cuckoo_graph.NodeTable.Placement
use cuckoo_graph.NodeTable.Placement.{
  on, free, slots, IsTidy, set-Changes, row_full, row_took, row_insert_cases,
}
use cuckoo_graph.HoleMerge.Merge.{Pour, pour_row, pour_both}
use cuckoo_graph.HoleMerge.Receive.{All-append}

-- The layer and the queue are well formed.
pub record Ready (P : Slot → Type 0) (seed wide : ℕ) (s : Pour) : Type 0 where
  pub valid : Placement.IsValid P s.layer
  pub stands : All P s.mq
  pub live : tally (on free) s.mq ≡ 0
  pub same_seed : s.layer.seed ≡ seed
  pub same_length : s.layer.length ≡ wide

abbrev pub in_all : (ℕ → Bool) → Pour → ℕ
in_all p s = tally (on p) (slots s.layer) + tally (on p) s.mq

-- What slots poured into a layer leave.
pub record Pours (P : Slot → Type 0) (seed wide : ℕ) (moved : (ℕ → Bool) → ℕ) (s t : Pour)
    : Type 0 where
  pub ready : Ready P seed wide t
  pub stocked : (p : ℕ → Bool) → p 0 ≡ false → in_all p t ≡ in_all p s + moved p

-- How many slots of the rows from `i` on, `n` of them, pass the test.
abbrev pub rows : (ℕ → Bool) → ℕ → ℕ → List Row → ℕ
rows p zero i rs = 0
rows p (suc n) i rs = tally (on p) (get_or rs i []) + rows p n (suc i) rs

rows_shift :
    (p : ℕ → Bool) (n i : ℕ) (r : Row) (rs : List Row) → rows p n (suc i) (r ∷ rs) ≡ rows p n i rs
rows_shift p zero i r rs = refl
rows_shift p (suc n) i r rs =
    ap (λ k. tally (on p) (get_or rs i []) + k) (rows_shift p n (suc i) r rs)

pub rows_all : (p : ℕ → Bool) (rs : List Row) → rows p (size rs) 0 rs ≡ tally (on p) (flatten rs)
unfolding tally flatten
rows_all p [] = refl
rows_all p (r ∷ rs) =
    omega (arith, rows_shift p (size rs) 0 r rs, rows_all p rs, tally-append (on p) r (flatten rs))

module _ {P : Slot → Type 0} (seed wide : ℕ) where
  Pours-refl : {s : Pour} → Ready P seed wide s → Pours P seed wide (λ p. 0) s s
  Pours-refl h = record { ready = h; stocked = λ p z. omega arith }

  Pours-trans :
      {a b : (ℕ → Bool) → ℕ} (c : (ℕ → Bool) → ℕ) {s t u : Pour}
      → Pours P seed wide a s t
      → Pours P seed wide b t u
      → ((p : ℕ → Bool) → p 0 ≡ false → c p ≡ a p + b p)
      → Pours P seed wide c s u
  Pours-trans c f g sum = record {
    ready = g.ready;
    stocked = λ p z. omega (arith, f.stocked p z, g.stocked p z, sum p z);
  }

module _ {P : Slot → Type 0} (tidy : (b : Slot) → P b → IsTidy b) (seed wide : ℕ) where
  -- One slot that is not free.
  pour_slot-Pours :
      (b : Slot) (s : Pour)
      → Ready P seed wide s
      → P b
      → b.src ≢ 0
      → Pours P seed wide (λ p. to_nat (p b.src)) s (pour_row (λ x. home x seed wide) (b ∷ []) s)
  unfolding pour_row tally
  pour_slot-Pours b s h g live =
      let busy : (b.src == 0) ≡ false = ground arith in
      let i = home b.src seed wide in
      let at : i ≡ Layers.index b.src s.layer =
        ap₂ (home b.src) (sym h.same_seed) (sym h.same_length) in
      let inside : i < s.layer.length = rw at (Placement.index-lt b.src h.valid) in
      elim (row_insert_cases tidy b (Layers.row i s.layer) g (h.valid.stands i)) [
        | row_full e full ↦
            let queue = λ (p : ℕ → Bool). tally-append (on p) s.mq (b ∷ []) in
            rw (busy, e)
              (record {
                ready = record {
                  valid = h.valid;
                  stands = All-append P s.mq (b ∷ []) h.stands (g, tt);
                  live = ground (arith, queue free, h.live);
                  same_seed = h.same_seed;
                  same_length = h.same_length;
                };
                stocked = λ p z. omega (arith, queue p);
              })
        | row_took r e sw ↦
            let ch =
              set-Changes s.layer i 0 b.src r h.valid inside
                (rw at (Placement.index_fits b.src s.layer)) sw in
            rw (busy, e)
              (record {
                ready = record {
                  valid = ch.valid;
                  stands = h.stands;
                  live = h.live;
                  same_seed = h.same_seed;
                  same_length = h.same_length;
                };
                stocked = λ p z. ground (arith, ch.tallies p);
              })
      ]

  pour_row-Pours :
      (r : Row) (s : Pour)
      → Ready P seed wide s
      → All P r
      → Pours P seed wide (λ p. tally (on p) r) s (pour_row (λ x. home x seed wide) r s)
  unfolding pour_row tally
  pour_row-Pours [] s h a = Pours-refl seed wide h
  pour_row-Pours (b ∷ r) s h a = elim (Bool-cases (b.src == 0)) [
    | inl e ↦ rw e (
        Pours-trans seed wide _ (Pours-refl seed wide h) (pour_row-Pours r s h a.1)
          (λ p z. let same : b.src ≡ 0 = ground arith in rw same (ground arith)))
    | inr e ↦
        let first = pour_slot-Pours b s h a.0 (ground arith) in
        let rest = pour_row-Pours r (pour_row (λ y. home y seed wide) (b ∷ []) s) first.ready a.1 in
        Pours-trans seed wide _ first rest (λ p z. omega arith)
  ]

  pub pour_both_slots-Pours :
      (l n i : ℕ) (a b : Layer) (s : Pour)
      → l * 2 ≡ wide
      → Ready P seed wide s
      → ((j : ℕ) → All P (Layers.row j a))
      → ((j : ℕ) → All P (Layers.row j b))
      → Pours P seed wide
          (λ p. rows p n i a.layer + rows p n i b.layer)
          s
          (pour_both seed l n i a b s)
  unfolding pour_both
  pour_both_slots-Pours l zero i a b s el h fa fb = Pours-refl seed wide h
  pour_both_slots-Pours l (suc n) i a b s el h fa fb =
      let place = λ (x : ℕ). home x seed wide in
      let first = pour_row-Pours (Layers.row i a) s h (fa i) in
      let s' = pour_row place (Layers.row i a) s in
      let second = pour_row-Pours (Layers.row i b) s' first.ready (fb i) in
      let s'' = pour_row place (Layers.row i b) s' in
      let both = Pours-trans seed wide (λ p. _) first second (λ p z. refl) in
      let rest = pour_both_slots-Pours l n (suc i) a b s'' el both.ready fa fb in
      rw el (Pours-trans seed wide _ both rest (λ p z. omega arith))
