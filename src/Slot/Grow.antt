-- ===== src/Slot/Grow.antt =====
-- CuckooGraph/main.cpp, bSlot::insert.
use cuckoo_graph.Prelude.{
  ℕ, zero, suc, ◌+◌, ◌/◌, Bool, true, false, not, ◌&&◌, ℤ, pos, negsuc, Option, none, some, List,
  [], ◌∷◌, ◌++◌, ◌==◌, leb, if◌then◌else◌, map, length, set,
}
use cuckoo_graph.Bucket.Scalar
use cuckoo_graph.Cuckoo
use cuckoo_graph.Cuckoo.{Cuckoo}
use cuckoo_graph.Resize.{offer, offer_all}
use cuckoo_graph.Floats.{Floats}
use cuckoo_graph.Slot.{
  Edge, edge, World, few, grown, Slot, inline_keys, u1, u2, us1, us2, sbl, put_in, query, own,
  others, room,
}
use cuckoo_graph.Slot.Merge.{merge3}

-- A new table takes in the listed keys of the source `s`, then `dst`; those that it turns out go to
-- the end of the list.
unfoldable pub take_in : ℕ → ℕ → Cuckoo → World → Cuckoo × World
take_in s dst c w =
    let t =
      offer dst
        (offer_all (own s w.sblacklist) (record { table = c; left = []; globals = w.globals })) in
    (
      t.table,
      record { globals = t.globals; sblacklist = others s w.sblacklist ++ map (edge s) t.left },
    )

-- The loops over the three tables: the answer if one took the key, how many tables there were,
-- whether one turned a key out while the list was long (`fff`), and the key to go on with (`e.dst`).
pub record Attempt : Type 0 where
  pub answer : Option ℕ
  pub count : ℕ
  pub fff : Bool
  pub dst : ℕ
  pub world : World

-- `switch` on the number of tables, `state + 1`, none of which took the key `dst`
unfoldable pub grow :
    ℕ → ℕ → Option Cuckoo → Option Cuckoo → Option Cuckoo → ℕ → World → Option (ℤ × Slot × World)
grow s dst s0 s1 s2 zero w =
    let (c, w') = put_in s dst (Cuckoo.new u1 u2 us1 us2) w in
    some (pos 9, record { src = s; slot = grown (some c) s1 s2 }, w')
grow s dst s0 s1 s2 (suc zero) w = elim s0 [
  | none ↦ none
  | some c0 ↦
      let (c, w') = take_in s dst (Cuckoo.new (c0.len1 / 2) (c0.len2 / 2) us1 us2) w in
      some (pos 10, record { src = s; slot = grown (some c0) (some c) s2 }, w')
]
grow s dst s0 s1 s2 (suc (suc zero)) w = elim s1 [
  | none ↦ none
  | some c1 ↦
      let (c, w') = take_in s dst (Cuckoo.new c1.len1 c1.len2 us1 us2) w in
      some (pos 11, record { src = s; slot = grown s0 (some c1) (some c) }, w')
]
grow s dst (some c0) (some c1) (some c2) (suc (suc (suc n))) w =
    let (m, w1) = merge3 s c0 c1 c2 w in
    let (c, w2) = take_in s dst (Cuckoo.new (m.len1 / 2) (m.len2 / 2) us1 us2) w1 in
    some (pos 10, record { src = s; slot = grown (some m) (some c) none }, w2)
grow s dst s0 s1 s2 (suc (suc (suc n))) w = none

-- the keys in place of the pointers go into a new table, one after another
unfoldable pub put_all : ℕ → List ℕ → Cuckoo → World → Cuckoo × World
put_all s [] c w = (c, w)
put_all s (x ∷ xs) c w = let (c', w') = put_in s x c w in put_all s xs c' w'

unfoldable pub insert_few : Edge → ℕ → List ℕ → World → Option (ℤ × Slot × World)
insert_few e pt ks w =
    let (free, ks') = Scalar.overwrite 0 e.dst ks in
    let (c, w') = put_all e.src (ks ++ e.dst ∷ []) (Cuckoo.new u1 u2 us1 us2) w in
    if Scalar.query e.dst ks
    then some (pos pt, record { src = e.src; slot = few pt ks }, w)
    else if pt == inline_keys
    then some (negsuc 0, record { src = e.src; slot = grown (some c) none none }, w')
    else if free
    then some (pos (suc pt), record { src = e.src; slot = few (suc pt) ks' }, w)
    else none

module _ (fl : Floats) where
  -- One round of the loop at the table `c` of `slot[i]`; `long` says that the list is long.
  unfoldable pub try : Bool → ℕ → ℕ → Cuckoo → Attempt → Cuckoo × Attempt
  try long s i c a =
      let r = Cuckoo.insert a.dst c a.world.globals in
      let (c', w) = put_in s a.dst c a.world in
      if room fl c && not a.fff
      then if long && not r.done
        then (
          r.table,
          record {
            answer = none;
            count = suc a.count;
            fff = true;
            dst = r.globals.mykick;
            world = record a.world { globals = r.globals };
          },
        )
        else (c', record a { answer = some (i + 9); count = suc a.count; world = w })
      else (c, record a { count = suc a.count })

  unfoldable pub visit : Bool → ℕ → ℕ → Option Cuckoo → Attempt → Option Cuckoo × Attempt
  visit long s i none a = (none, a)
  visit long s i (some c) a = elim a.answer [
    | some n ↦ (some c, a)
    | none ↦ let (c', a') = try long s i c a in (some c', a')
  ]

  -- `insert` where the keys stand in tables
  unfoldable pub insert_grown :
      Edge → Option Cuckoo → Option Cuckoo → Option Cuckoo → World → Option (ℤ × Slot × World)
  insert_grown e s0 s1 s2 w =
      let long = leb sbl (length w.sblacklist) in
      let start : Attempt = record {
        answer = none;
        count = 0;
        fff = false;
        dst = e.dst;
        world = w;
      } in
      let (t2, a2) = visit long e.src 2 s2 start in
      let (t1, a1) = visit long e.src 1 s1 a2 in
      let (t0, a) = visit long e.src 0 s0 a1 in
      elim a.answer [
        | some n ↦ some (pos n, record { src = e.src; slot = grown t0 t1 t2 }, a.world)
        | none ↦ grow e.src a.dst t0 t1 t2 a.count a.world
      ]

  unfoldable pub insert : Edge → Slot → World → Option (ℤ × Slot × World)
  insert e b w = elim b.slot [
    | few pt ks ↦
        if pt == 0
        then some (pos 1, record { src = e.src; slot = few 1 (set ks 0 e.dst) }, w)
        else if not (b.src == e.src)
        then some (pos 0, b, w)
        else insert_few e pt ks w
    | grown s0 s1 s2 ↦
        let q = query e b w in
        if not (b.src == e.src)
        then some (pos 0, b, w)
        else if not (q == 0)
        then some (pos q, b, w)
        else insert_grown e s0 s1 s2 w
  ]
