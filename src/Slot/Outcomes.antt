-- ===== src/Slot/Outcomes.antt =====
-- The slot that `bSlot::del` leaves where one or two tables are there.
use cuckoo_graph.Prelude.{
  ℕ, zero, suc, ◌+◌, ◌≤◌, ◌≡◌, ◌≢◌, ◌⊎◌, refl, inl, inr, Bool, true, false, ◌&&◌, leb, arith,
  Bool-cases, Option, none, some, [], tally, ℤ, pos, negsuc, replicate, subst,
}
use cuckoo_graph.Cuckoo.{Cuckoo}
use cuckoo_graph.Cuckoo.Invariant.{total, is}
use cuckoo_graph.MergeHash.{minc2, is_zero}
use cuckoo_graph.MergeHash.Invariant.{link_total, pow2}
use cuckoo_graph.Floats.{Floats}
use cuckoo_graph.Slot.{World, few, grown, Slot, own, inline_keys, is_slot_empty, new}
use cuckoo_graph.Slot.Shrink.{compress, move, contents, any_own, settle, is_null}
use cuckoo_graph.Slot.Invariant.{Fits, Shape, held, IsValid, new_slot-IsValid}
use cuckoo_graph.Slot.Listing.{tally-contents}
use cuckoo_graph.Slot.Place.{listed}
use cuckoo_graph.Slot.Settle.{move-Holds, compress-Holds, any_own_none, bare_table}

-- A slot of the source `s`, or one that was set free, that holds what `rest` says.
pub record Leaves (s : ℕ) (rest : (ℕ → Bool) → ℕ) (w : World) (r : Option (ℤ × Slot × World))
    : Type 0 where
  pub code : ℤ
  pub slot : Slot
  pub world : World
  pub runs : r ≡ some (code, slot, world)
  pub found : code ≢ pos 2
  pub source : (slot.src ≡ s) ⊎ (is_slot_empty slot ≡ true)
  pub valid : IsValid slot world
  pub holds : (p : ℕ → Bool) → p 0 ≡ false → held p slot world ≡ rest p
  pub frame : (t : ℕ) → t ≢ s → own t world.sblacklist ≡ own t w.sblacklist

module _ (s : ℕ) (w : World) (rest : (ℕ → Bool) → ℕ)
    (unique : (j : ℕ) → j ≢ 0 → rest (is j) ≤ 1) where
  grown-Leaves :
      (t0 t1 t2 : Option Cuckoo) (w' : World)
      → Shape t0 t1 t2
      → listed (is 0) s w' ≡ 0
      → ((p : ℕ → Bool)
          → p 0 ≡ false
          → link_total p t0 + link_total p t1 + link_total p t2 + listed p s w' ≡ rest p)
      → ((t : ℕ) → t ≢ s → own t w'.sblacklist ≡ own t w.sblacklist)
      → Leaves s rest w (some (pos 1, record { src = s; slot = grown t0 t1 t2 }, w'))
  grown-Leaves t0 t1 t2 w' shape live holds frame = record {
    code = pos 1;
    slot = record { src = s; slot = grown t0 t1 t2 };
    world = w';
    runs = refl;
    found = λ e. cc;
    source = inl refl;
    valid = record {
      formed = (shape, live);
      unique = λ j h. omega (arith, unique j h, holds (is j) (ground arith));
    };
    holds = holds;
    frame = frame;
  }

  -- The slot that is set free.
  free-Leaves :
      own 0 w.sblacklist ≡ []
      → ((p : ℕ → Bool) → p 0 ≡ false → rest p ≡ 0)
      → Leaves s rest w
          (some (negsuc 0, record { src = 0; slot = few 0 (replicate inline_keys 0) }, w))
  free-Leaves unlisted bare = record {
    code = negsuc 0;
    slot = record { src = 0; slot = few 0 (replicate inline_keys 0) };
    world = w;
    runs = refl;
    found = λ e. cc;
    source = inr (unfold is_slot_empty in refl);
    valid = unfold new in new_slot-IsValid w unlisted;
    holds = λ p z. unfold tally in ground (arith, bare p z);
    frame = λ t h. refl;
  }

wide_log : (k : ℕ) → 4 ≤ pow2 (suc k) → (j : ℕ) × (k ≡ suc j)
wide_log zero h = absurd (omega arith)
wide_log (suc k) h = (k, refl)

-- The shape of a slot with one table.
one_table : {k : ℕ} {c : Cuckoo} → Fits (suc k) c → Shape (some c) none none
unfolding is_null
one_table {k} f = record {
  log = k;
  fits0 = f;
  fits1 = tt;
  fits2 = tt;
  order1 = λ e. refl;
  order2 = λ e. refl;
}

-- One table is left.
pub settle_one-Leaves :
    (fl : Floats) (s k : ℕ) (nr : fl.Double) (c : Cuckoo) (w : World)
    → Fits (suc k) c
    → listed (is 0) s w ≡ 0
    → own 0 w.sblacklist ≡ []
    → ((j : ℕ) → j ≢ 0 → total (is j) c + listed (is j) s w ≤ 1)
    → Leaves s (λ p. total p c + listed p s w) w (settle fl s nr 1 (some c) none none w)
unfolding settle is_null
settle_one-Leaves fl s k nr c w f live free unique = elim (Bool-cases (is_zero c.num)) [
  | inl e ↦
      let bare = λ (p : ℕ → Bool). bare_table c p f.valid e in
      elim (Bool-cases (any_own s w.sblacklist)) [
        | inl more ↦ rw e (
            rw more (
              grown-Leaves s w _ unique none none none w
                (record {
                  log = 0;
                  fits0 = tt;
                  fits1 = tt;
                  fits2 = tt;
                  order1 = λ e. refl;
                  order2 = λ e. refl;
                })
                live (λ p z. omega (arith, bare p z)) (λ t h. refl)))
        | inr none_more ↦
            let none_listed = any_own_none s w.sblacklist none_more in
            rw e (
              rw none_more (
                free-Leaves s w _ unique free
                  (λ p z. rw none_listed (unfold tally in omega (arith, bare p z)))))
      ]
  | inr e ↦ rw e (elim (Bool-cases (leb minc2 c.len2 && fl.lt nr fl.cthres)) [
    | inl thin ↦
        let h = compress-Holds s c w f live in
        let (c', w') = compress s c w in
        let wide : 4 ≤ c.len2 = ground (arith, thin) in
        let (j, log) = wide_log k (omega (arith, f.wide2)) in
        rw thin (
          grown-Leaves s w _ unique (some c') none none w'
            (one_table (subst (λ n. Fits n c') log h.fits)) h.live
            (λ p z. omega (arith, h.stocked p z)) h.frame)
    | inr thick ↦ rw thick (
        grown-Leaves s w _ unique (some c) none none w (one_table f) live (λ p z. omega arith)
          (λ t h. refl))
  ])
]

-- Two tables are left.
pub settle_two-Leaves :
    (fl : Floats) (s k : ℕ) (nr : fl.Double) (c0 c1 : Cuckoo) (w : World)
    → Fits (suc k) c0
    → Fits k c1
    → listed (is 0) s w ≡ 0
    → ((j : ℕ) → j ≢ 0 → total (is j) c0 + total (is j) c1 + listed (is j) s w ≤ 1)
    → Leaves s
        (λ p. total p c0 + total p c1 + listed p s w)
        w
        (settle fl s nr 2 (some c0) (some c1) none w)
unfolding settle is_null
settle_two-Leaves fl s k nr c0 c1 w f g live unique =
    let left = one_table f in
    elim (Bool-cases (is_zero c1.num)) [
      | inl e ↦ rw e (
          grown-Leaves s w _ unique (some c0) none none w left live
            (λ p z. omega (arith, bare_table c1 p g.valid e z)) (λ t h. refl))
      | inr e ↦ rw e (elim (Bool-cases (fl.lt nr fl.cthres)) [
        | inl thin ↦
            let h =
              move-Holds s (contents c1) c0 w f live
                (λ j nz. omega (arith, unique j nz, tally-contents (is j) c1)) in
            let (c', w') = move s (contents c1) c0 w in
            rw thin (
              grown-Leaves s w _ unique (some c') none none w' (one_table h.fits) h.live
                (λ p z. omega (arith, h.stocked p z, tally-contents p c1)) h.frame)
        | inr thick ↦ rw thick (
            grown-Leaves s w _ unique (some c0) (some c1) none w
              (record {
                log = k;
                fits0 = f;
                fits1 = g;
                fits2 = tt;
                order1 = λ e. e;
                order2 = λ e. refl;
              })
              live (λ p z. omega arith) (λ t h. refl))
      ])
    ]
