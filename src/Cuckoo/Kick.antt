-- ===== src/Cuckoo/Kick.antt =====
-- The rounds of kicks: no key is lost or doubled, whatever `rand()` returns, and the key that is
-- left over when the rounds run out is none of the table's.
use cuckoo_graph.Prelude.{
  ℕ, zero, suc, ◌+◌, ◌<◌, ◌%◌, ◌≤◌, ◌≡◌, ◌≢◌, refl, Bool, true, false, ◌==◌, to_nat, arith, tally,
  inc, if◌then◌else◌,
}
use cuckoo_graph.Bucket.{Code, no_room, inserted, bup}
use cuckoo_graph.Layer
use cuckoo_graph.Layer.{Layer}
use cuckoo_graph.Layer.Placement
use cuckoo_graph.Layer.Placement.{
  Changes, Changes-refl, count, write-Changes, layer_insert_cases, layer_had, layer_full,
  layer_stored,
}
use cuckoo_graph.Cuckoo.{Cuckoo, Globals, Outcome, kick_loop, drawn}
use cuckoo_graph.Cuckoo.Invariant.{IsSound, total, is, is_key, rebuilt-IsValid, home-index}

abbrev pub IsFull : ℕ → Layer → Type 0
IsFull i l = tally (λ k. k == 0) (Layer.bucket i l) ≡ 0

-- The ways in which the key kicked out of layer `a` fares in layer `b`.
data Fares (kick : ℕ) (b : Layer) (r : Code × Layer) : Type 0 where
  moves_on : r ≡ (no_room, b) → IsFull (Layer.index kick b) b → Fares kick b r
  settles : (n : Layer) → r ≡ (inserted, n) → Changes 0 kick b n → Fares kick b r

-- One kick: `ins` goes into a full bucket of `a`, and the key that stood there tries `b`.
kick_step :
    (ins spot x : ℕ) {a b : Layer}
    → Placement.IsValid a
    → Placement.IsValid b
    → ((key : ℕ) → key ≢ 0 → count key a + count key b ≤ 1)
    → ins ≢ 0
    → count ins a + count ins b ≡ 0
    → spot ≡ Layer.index ins a
    → IsFull spot a
    → x < bup
    → let kick = Layer.read spot x a in
      let m = Layer.write spot x ins a in
      (kick ≢ 0)
      × Changes kick ins a m
      × (count kick m + count kick b ≡ 0)
      × Fares kick b (Layer.insert kick b)
kick_step ins spot x {a} {b} v w unique nonzero absent at full lt =
    let (live, ch) = write-Changes spot x ins v at lt full in
    let kick = Layer.read spot x a in
    let gone : count kick (Layer.write spot x ins a) + count kick b ≡ 0 =
      ground (arith, ch.tallies (is kick), ch.tallies (is ins), unique kick live) in
    (
      live,
      ch,
      gone,
      elim (layer_insert_cases kick w live) [
        | layer_had e held ↦ absurd (omega arith)
        | layer_full e none full' ↦ moves_on e full'
        | layer_stored n e none ch' ↦ settles n e ch'
      ],
    )

-- Where the key that is on its way is to go.
abbrev pub Waits : Bool → ℕ → ℕ → ℕ → Cuckoo → Type 0
Waits true pos1 pos2 ins c = (pos1 ≡ Layer.index ins c.layer1) × IsFull pos1 c.layer1
Waits false pos1 pos2 ins c = (pos2 ≡ Layer.index ins c.layer2) × IsFull pos2 c.layer2

abbrev pub lost : (ℕ → Bool) → Outcome → ℕ
lost p r = if r.done then 0 else to_nat (p r.globals.mykick)

-- What an insertion of the new key `ins` leaves: a valid table of the same shape, with the keys of
-- `c` and `ins`, less the key in `mykick` where the insertion failed.
pub record Takes (missing ins : ℕ) (c : Cuckoo) (r : Outcome) : Type 0 where
  pub valid : IsSound missing r.table
  pub tallies :
      (p : ℕ → Bool) → p 0 ≡ false → total p r.table + lost p r ≡ total p c + to_nat (p ins)
  pub len1 : r.table.len1 ≡ c.len1
  pub len2 : r.table.len2 ≡ c.len2
  pub seed1 : r.table.seed1 ≡ c.seed1
  pub seed2 : r.table.seed2 ≡ c.seed2
  pub left_over :
      r.done ≡ false → (r.globals.mykick ≢ 0) × (total (is r.globals.mykick) r.table ≡ 0)

module _ {d : ℕ} {c : Cuckoo} (v : IsSound d c) {ins : ℕ} (nonzero : ins ≢ 0)
    (absent : total (is ins) c ≡ 0) {m n : Layer} {o1 f1 o2 f2 : ℕ} (a : Changes o1 f1 c.layer1 m)
    (b : Changes o2 f2 c.layer2 n) where
  -- The last change of an insertion: the layers have gained `ins`, and it is counted.
  pub settled-Takes :
      (g : Globals)
      → ((p : ℕ → Bool)
          → p 0 ≡ false
          → to_nat (p f1) + to_nat (p f2) ≡ to_nat (p o1) + to_nat (p o2) + to_nat (p ins))
      → Takes d ins c (record {
        done = true;
        table = record c { num = inc c.num; layer1 = m; layer2 = n };
        globals = g;
      })
  settled-Takes g balance = record {
    valid =
        rebuilt-IsValid (inc c.num) v a b
          (λ key h.
            ground
              (arith, v.unique key h, a.tallies (is key), b.tallies (is key), balance (is key)))
          (
            suc v.counted.0,
            rw v.counted.1,
            ground (arith, v.counted.2, a.tallies is_key, b.tallies is_key, balance is_key),
          );
    tallies = λ p e. omega (arith, a.tallies p, b.tallies p, balance p e);
    len1 = refl;
    len2 = refl;
    seed1 = refl;
    seed2 = refl;
    left_over = λ e. cc;
  }

  -- A round that finds no room: `ins` is in, `kick` is out, and the next round goes on from there.
  passed :
      {kick : ℕ}
      → kick ≢ 0
      → ((p : ℕ → Bool)
          → to_nat (p f1) + to_nat (p f2) + to_nat (p kick)
            ≡ to_nat (p o1) + to_nat (p o2) + to_nat (p ins))
      → IsSound d (record c { layer1 = m; layer2 = n })
        × ((r : Outcome) → Takes d kick (record c { layer1 = m; layer2 = n }) r → Takes d ins c r)
  passed {kick} live balance = (
    rebuilt-IsValid c.num v a b
        (λ key h.
          ground (arith, v.unique key h, a.tallies (is key), b.tallies (is key), balance (is key)))
        (
          v.counted.0,
          v.counted.1,
          ground (arith, v.counted.2, a.tallies is_key, b.tallies is_key, balance is_key),
        ),
    λ r t. record {
      valid = t.valid;
      tallies = λ p e. omega (arith, t.tallies p e, a.tallies p, b.tallies p, balance p);
      len1 = t.len1;
      len2 = t.len2;
      seed1 = t.seed1;
      seed2 = t.seed2;
      left_over = t.left_over;
    },
  )

abbrev Kicks : ℕ → Type 0
Kicks times =
    (d : ℕ) (flag : Bool) (pos1 pos2 ins : ℕ) (c : Cuckoo) (g : Globals)
    → IsSound d c
    → ins ≢ 0
    → total (is ins) c ≡ 0
    → Waits flag pos1 pos2 ins c
    → Takes d ins c (kick_loop times flag pos1 pos2 ins c g)

pub kick_loop-Takes : (times : ℕ) → Kicks times
unfolding kick_loop
kick_loop-Takes zero d flag pos1 pos2 ins c g v nonzero absent waits = record {
  valid = v;
  tallies = λ p e. refl;
  len1 = refl;
  len2 = refl;
  seed1 = refl;
  seed2 = refl;
  left_over = λ e. (nonzero, absent);
}
kick_loop-Takes (suc times) d true pos1 pos2 ins c g v nonzero absent waits =
    let x = g.rand 0 % bup in
    let kick = Layer.read pos1 x c.layer1 in
    let (live, ch, gone, fares) =
      kick_step ins pos1 x v.valid1 v.valid2 v.unique nonzero absent waits.0 waits.1
        (omega arith) in
    elim fares [
      | settles n e ch' ↦
          rw (e, kick_loop)
            (rw e (settled-Takes v nonzero absent ch ch' (drawn g) (λ p zero_false. ground arith)))
      | moves_on e full ↦
          let (v', more) =
            passed v nonzero absent ch (Changes-refl 0 v.valid2) live (λ p. omega arith) in
          rw (e, kick_loop)
            (rw e (
              more _ (
                kick_loop-Takes times d false pos1 _ _ _ (drawn g) v' live gone
                  (let at = (home-index kick v).1 in (at, rw at full)))))
    ]
kick_loop-Takes (suc times) d false pos1 pos2 ins c g v nonzero absent waits =
    let x = g.rand 0 % bup in
    let kick = Layer.read pos2 x c.layer2 in
    let (live, ch, gone, fares) =
      kick_step ins pos2 x v.valid2 v.valid1 (λ key h. omega (arith, v.unique key h)) nonzero
        (omega arith) waits.0 waits.1 (omega arith) in
    elim fares [
      | settles n e ch' ↦
          rw (e, kick_loop)
            (rw e (settled-Takes v nonzero absent ch' ch (drawn g) (λ p zero_false. ground arith)))
      | moves_on e full ↦
          let (v', more) =
            passed v nonzero absent (Changes-refl 0 v.valid1) ch live (λ p. omega arith) in
          rw (e, kick_loop)
            (rw e (
              more _ (
                kick_loop-Takes times d true _ pos2 _ _ (drawn g) v' live (omega arith)
                  (let at = (home-index kick v).0 in (at, rw at full)))))
    ]
