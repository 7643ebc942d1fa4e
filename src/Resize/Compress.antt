-- ===== src/Resize/Compress.antt =====
-- `compress`: half the width; the keys stay in the table or go to the blacklist.
use native.Mathlib.Decide.{dec_lt}
use native.Mathlib.Nat.{mod-eq_of_lt, mod-eq-sub-mod}
use cuckoo_graph.Prelude.{
  ℕ, zero, suc, ◌+◌, ◌-◌, ◌*◌, ◌/◌, ◌%◌, ◌<◌, ◌≤◌, ◌≡◌, ◌≢◌, ◌∙◌, refl, sym, ap, Bool, true, false,
  List, [], ◌∷◌, arith, length as size, get_or, take, drop, flatten, tally, tally_mono,
  tally-flatten-append, take-append-drop, length-take, get_or-take, get_or-drop, get_or_beyond,
  length-append, mod-mod_double, pos, subst,
}
use cuckoo_graph.Hash.{home, mmhash}
use cuckoo_graph.Layer
use cuckoo_graph.Layer.{Layer}
use cuckoo_graph.Layer.Placement.{IsValid, keys, strays}
use cuckoo_graph.Cuckoo.{Cuckoo, Globals}
use cuckoo_graph.Cuckoo.Invariant.{IsSound, total, is, is_key, renumber-IsSound}
use cuckoo_graph.Resize.{squeeze_layer, offer_all, less, compress}
use cuckoo_graph.Resize.Offer.{offer_all-Receives}
use cuckoo_graph.Resize.Squeeze.{squeeze-Moves}

home_half : (x seed h : ℕ) → home x seed (h * 2) % h ≡ home x seed h
unfolding home
home_half x seed h = mod-mod_double (mmhash x seed) h

-- A key keeps its bucket in the lower half, and comes down from the upper half by one half.
home_lower : (x seed h i : ℕ) → i < h → home x seed (h * 2) ≡ i → home x seed h ≡ i
home_lower x seed h i lt e = sym (home_half x seed h) ∙ ap (λ k. k % h) e ∙ mod-eq_of_lt lt

home_upper : (x seed h i : ℕ) → i < h → home x seed (h * 2) ≡ h + i → home x seed h ≡ i
home_upper x seed h i lt e =
    let down : (h + i) % h ≡ i =
      mod-eq-sub-mod (omega arith)
      ∙ (let f : h + i - h ≡ i = omega arith in rw f (mod-eq_of_lt lt)) in
    sym (home_half x seed h) ∙ ap (λ k. k % h) e ∙ down

pub lower_strays :
    (seed h i x : ℕ) → i < h → strays seed h i x ≡ true → strays seed (h * 2) i x ≡ true
lower_strays seed h i x lt s = ground (arith, home_lower x seed h i lt)

pub upper_strays :
    (seed h i x : ℕ) → i < h → strays seed h i x ≡ true → strays seed (h * 2) (h + i) x ≡ true
upper_strays seed h i x lt s = ground (arith, home_upper x seed h i lt)

-- What a layer squeezed to `half` buckets, with a queue for the keys without room, has become.
record Halves (half : ℕ) (l : Layer) (mq : List ℕ) (t : Layer × List ℕ) : Type 0 where
  valid : IsValid t.0
  narrow : t.0.length ≡ half
  same_seed : t.0.seed ≡ l.seed
  live : tally (is 0) t.1 ≡ 0
  stocked :
      (p : ℕ → Bool)
      → p 0 ≡ false
      → tally p (keys t.0) + tally p t.1 ≡ tally p (keys l) + tally p mq
  kept : (p : ℕ → Bool) → tally p mq ≤ tally p t.1

module _ {l : Layer} (v : IsValid l) (h : ℕ) (even : l.length ≡ h * 2) where
  abbrev lower_half : Layer
  lower_half = record { layer = take h l.layer; length = h; seed = l.seed }

  lower_half-IsValid : IsValid lower_half
  lower_half-IsValid = record {
    sized = length-take h l.layer (omega (arith, v.sized));
    positive = omega (arith, v.positive);
    widths = λ i lt. ground (arith, get_or-take h l.layer i [], v.widths i);
    placed = λ i. elim (dec_lt i h) [
      | yes lt ↦
          let at : Layer.bucket i lower_half ≡ Layer.bucket i l =
            ground (arith, get_or-take h l.layer i []) in
          rw at (
            omega (
              arith,
              tally_mono (strays l.seed h i) (strays l.seed (h * 2) i) (Layer.bucket i l)
                  (λ x s. lower_strays l.seed h i x lt s),
              rw even at (v.placed i),
            ))
      | no ge ↦
          let at : Layer.bucket i lower_half ≡ [] = ground (arith, get_or-take h l.layer i []) in
          rw at (unfold tally in refl)
    ];
  }

  upper_half_placed : (j : ℕ) → tally (strays l.seed h (0 + j)) (get_or (drop h l.layer) j []) ≡ 0
  upper_half_placed j =
      let same : 0 + j ≡ j = omega arith in
      rw (same, get_or-drop h l.layer j [])
        (elim (dec_lt j h) [
          | yes lt ↦ omega (
            arith,
            tally_mono (strays l.seed h j) (strays l.seed (h * 2) (h + j)) (Layer.bucket (h + j) l)
                (λ x s. upper_strays l.seed h j x lt s),
            rw even at (v.placed (h + j)),
          )
          | no ge ↦
              rw (get_or_beyond l.layer (h + j) [] (omega (arith, v.sized))) (unfold tally in refl)
        ])

  -- The layer of half the width is valid, and the keys are in it or in the queue.
  squeeze_layer-Halves :
      (mq : List ℕ)
      → tally (is 0) mq ≡ 0
      → ((key : ℕ) → key ≢ 0 → tally (is key) (keys l) ≤ 1)
      → Halves h l mq (squeeze_layer l.seed h l mq)
  unfolding squeeze_layer
  squeeze_layer-Halves mq live unique =
      let halves = λ (p : ℕ → Bool).
        subst
          (λ bs.
            tally p (flatten bs)
            ≡ tally p (flatten (take h l.layer)) + tally p (flatten (drop h l.layer)))
          (take-append-drop h l.layer) (tally-flatten-append p (take h l.layer) (drop h l.layer)) in
      let rest : size (drop h l.layer) ≡ h = omega (
        arith,
        v.sized,
        length-take h l.layer,
        ap size (take-append-drop h l.layer),
        length-append (take h l.layer) (drop h l.layer),
      ) in
      let t =
        squeeze-Moves l.seed h 0 (drop h l.layer) lower_half mq lower_half-IsValid refl refl
          (omega arith) live upper_half_placed
          (λ k nz. omega (arith, halves (is k), unique k nz)) in
      record {
        valid = t.valid;
        narrow = t.same_length;
        same_seed = t.same_seed;
        live = t.live;
        stocked = λ p z. omega (arith, t.stocked p z, halves p);
        kept = t.kept;
      }

less_pos : (n : ℕ) (left : List ℕ) → size left ≤ n → less (pos n) left ≡ pos (n - size left)
unfolding less
less_pos n [] h = let e : n - 0 ≡ n = omega arith in rw e
less_pos zero (k ∷ left) h = absurd (omega arith)
less_pos (suc n) (k ∷ left) h =
    less_pos n left (omega arith)
    ∙ (let e : n - size left ≡ suc n - suc (size left) = omega arith in ap pos e)

tally_all_keys : (left : List ℕ) → tally (is 0) left ≡ 0 → tally is_key left ≡ size left
unfolding tally
tally_all_keys [] h = refl
tally_all_keys (x ∷ left) h = ground (arith, tally_all_keys left)

-- `compress` of a valid table of even widths, by its own seeds, gives a valid table of half the
-- widths; it and the list of the keys turned out hold the keys of the table, each as often.
pub compress-IsValid :
    (h1 h2 : ℕ) (c : Cuckoo) (g : Globals)
    → IsSound 0 c
    → c.len1 ≡ h1 * 2
    → c.len2 ≡ h2 * 2
    → let s = compress c.seed1 c.seed2 c g in
      IsSound 0 s.table
      × (tally (is 0) s.left ≡ 0)
      × ((p : ℕ → Bool) → p 0 ≡ false → total p s.table + tally p s.left ≡ total p c)
      × (s.table.len1 ≡ h1)
      × (s.table.len2 ≡ h2)
      × (s.table.seed1 ≡ c.seed1)
      × (s.table.seed2 ≡ c.seed2)
unfolding compress
compress-IsValid h1 h2 c g v e1 e2 =
    let half1 : c.len1 / 2 ≡ h1 = omega arith in
    let half2 : c.len2 / 2 ≡ h2 = omega arith in
    let t1 =
      squeeze_layer-Halves v.valid1 h1 (v.length1 ∙ e1) [] (unfold tally in refl)
        (λ k nz. omega (arith, v.unique k nz)) in
    let first = squeeze_layer c.layer1.seed h1 c.layer1 [] in
    let t2 =
      squeeze_layer-Halves v.valid2 h2 (v.length2 ∙ e2) first.1 t1.live
        (λ k nz. omega (arith, v.unique k nz)) in
    let second = squeeze_layer c.layer2.seed h2 c.layer2 first.1 in
    let none : (p : ℕ → Bool) → tally p [] ≡ 0 = λ p. unfold tally in refl in
    let c0 : Cuckoo = record {
      len1 = h1;
      len2 = h2;
      seed1 = c.layer1.seed;
      seed2 = c.layer2.seed;
      num = pos 0;
      layer1 = first.0;
      layer2 = second.0;
    } in
    let v0 : IsSound (total is_key c0) c0 = record {
      valid1 = t1.valid;
      valid2 = t2.valid;
      length1 = t1.narrow;
      length2 = t2.narrow;
      same_seed1 = t1.same_seed;
      same_seed2 = t2.same_seed;
      unique =
          λ k nz. ground (arith, t1.stocked (is k), t2.stocked (is k), v.unique k nz, none (is k));
      counted = (0, refl, omega arith);
    } in
    let r =
      offer_all-Receives second.1 (record { table = c0; left = []; globals = g }) v0 (none (is 0))
        t2.live
        (λ k nz.
          ground (arith, t1.stocked (is k), t2.stocked (is k), v.unique k nz, none (is k))) in
    let s = offer_all second.1 (record { table = c0; left = []; globals = g }) in
    let stocked : (p : ℕ → Bool) → p 0 ≡ false → total p s.table + tally p s.left ≡ total p c =
      λ p z. omega (arith, r.stocked p z, t1.stocked p z, t2.stocked p z, none p) in
    let (n, num, counts) = v.counted in
    let few = stocked is_key refl in
    let all = tally_all_keys s.left r.live in
    rw (← v.same_seed1, ← v.same_seed2, half1, half2)
      (
        renumber-IsSound 0 _ (n - size s.left) r.sound (rw num (less_pos n s.left (omega arith)))
            (omega arith),
        r.live,
        stocked,
        r.len1,
        r.len2,
        r.seed1,
        r.seed2,
      )
