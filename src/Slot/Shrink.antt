-- ===== src/Slot/Shrink.antt =====
-- CuckooGraph/main.cpp, bSlot::compress and bSlot::del.
use cuckoo_graph.Prelude.{
  ℕ, zero, suc, ◌+◌, ◌-◌, ◌*◌, Bool, true, false, not, ◌&&◌, ℤ, pos, negsuc, Option, none, some,
  List, [], ◌∷◌, ◌++◌, ◌==◌, ltb, leb, if◌then◌else◌, map, flatten, replicate,
}
use cuckoo_graph.Bucket.{bup}
use cuckoo_graph.Bucket.Scalar
use cuckoo_graph.Cuckoo
use cuckoo_graph.Cuckoo.{Cuckoo}
use cuckoo_graph.Resize
use cuckoo_graph.MergeHash.{minc2, is_zero}
use cuckoo_graph.Floats.{Floats}
use cuckoo_graph.Slot.{Edge, edge, World, few, grown, Slot, inline_keys, us1, us2, put_in, room}

-- `compress`: the keys that the halved table turns out go to the list.
unfoldable pub compress : ℕ → Cuckoo → World → Cuckoo × World
compress s c w =
    let t = Resize.compress us1 us2 c w.globals in
    (t.table, record { globals = t.globals; sblacklist = w.sblacklist ++ map (edge s) t.left })

-- `slot[2]->num > slot[1]->num`
unfoldable pub int_lt : ℤ → ℤ → Bool
int_lt (pos a) (pos b) = ltb a b
int_lt (pos a) (negsuc b) = false
int_lt (negsuc a) (pos b) = true
int_lt (negsuc a) (negsuc b) = ltb b a

-- The keys of a table that is given up go into `c`.
unfoldable pub move : ℕ → List ℕ → Cuckoo → World → Cuckoo × World
move s [] c w = (c, w)
move s (x ∷ xs) c w =
    let (c', w') = put_in s x c w in if x == 0 then move s xs c w else move s xs c' w'

-- The keys in the order of the loops: the buckets of the first layer, then those of the second.
unfoldable pub contents : Cuckoo → List ℕ
contents c = flatten c.layer1.layer ++ flatten c.layer2.layer

unfoldable pub drop_key : ℕ → Option Cuckoo → Bool × Option Cuckoo
drop_key key none = (false, none)
drop_key key (some c) = let (found, c') = Cuckoo.del key c in (found, some c')

-- The loop over `sblacklist`: the list without the edge, whether it was there (`f2`), and whether
-- another edge of the source stays (`flag`).
unfoldable pub purge : Edge → List Edge → List Edge × Bool × Bool
purge e [] = ([], false, false)
purge e (x ∷ xs) =
    let (rest, f2, flag) = purge e xs in
    if x.src == e.src
    then if x.dst == e.dst then (rest, true, flag) else (x ∷ rest, f2, true)
    else (x ∷ rest, f2, flag)

unfoldable pub is_null : Option Cuckoo → Bool
is_null none = true
is_null (some c) = false

-- `for (…) if ((*it).src == e.src)`
unfoldable pub any_own : ℕ → List Edge → Bool
any_own s [] = false
any_own s (x ∷ xs) = if x.src == s then true else any_own s xs

module _ (fl : Floats) where
  open fl use {Double, of_int, add, mul, div, lt, cthres}

  -- The loop that counts the tables (`state + 1`), their keys and their slots.
  unfoldable pub measure : Option Cuckoo → ℕ × Double × Double → ℕ × Double × Double
  measure none (n, num, sum) = (n, num, sum)
  measure (some c) (n, num, sum) =
      (suc n, add num (of_int c.num), add sum (of_int (pos ((c.len1 + c.len2) * bup))))

  -- The keys of a third table go into the first one while it has room, else into the other one.
  unfoldable pub spread : ℕ → List ℕ → Cuckoo → Cuckoo → World → Cuckoo × Cuckoo × World
  spread s [] c b w = (c, b, w)
  spread s (x ∷ xs) c b w =
      let r = Cuckoo.insert x c w.globals in
      let (b1, w1) = put_in s x b (record w { globals = r.globals }) in
      let (b2, w2) = put_in s x b w in
      let (c', b', w') : Cuckoo × Cuckoo × World =
        if x == 0
        then (c, b, w)
        else if room fl c
        then if r.done then (r.table, b, record w { globals = r.globals }) else (r.table, b1, w1)
        else (c, b2, w2) in
      spread s xs c' b' w'

  -- What becomes of the tables after a deletion, for the number of tables.
  unfoldable pub settle :
      ℕ
      → Double
      → ℕ
      → Option Cuckoo
      → Option Cuckoo
      → Option Cuckoo
      → World
      → Option (ℤ × Slot × World)
  settle s nr (suc zero) (some c0) s1 s2 w =
      let (c, w') = compress s c0 w in
      if is_zero c0.num
      then if any_own s w.sblacklist
        then some (pos 1, record { src = s; slot = grown none s1 s2 }, w)
        else some (negsuc 0, record { src = 0; slot = few 0 (replicate inline_keys 0) }, w)
      else if leb minc2 c0.len2 && lt nr cthres
      then some (pos 1, record { src = s; slot = grown (some c) s1 s2 }, w')
      else some (pos 1, record { src = s; slot = grown (some c0) s1 s2 }, w)
  settle s nr (suc (suc zero)) s0 (some c1) s2 w =
      if is_zero c1.num
      then some (pos 1, record { src = s; slot = grown s0 none s2 }, w)
      else if lt nr cthres
      then elim s0 [
        | none ↦ none
        | some c0 ↦
            let (c, w') = move s (contents c1) c0 w in
            some (pos 1, record { src = s; slot = grown (some c) none s2 }, w')
      ]
      else some (pos 1, record { src = s; slot = grown s0 (some c1) s2 }, w)
  settle s nr (suc (suc (suc n))) (some c0) (some c1) (some c2) w =
      let less = int_lt c1.num c2.num in
      let sm = if less then c1 else c2 in
      let bi = if less then c2 else c1 in
      let (c, b, w') = spread s (contents sm) c0 bi w in
      if is_zero sm.num
      then some (pos 1, record { src = s; slot = grown (some c0) (some bi) none }, w)
      else if lt nr cthres
      then some (pos 1, record { src = s; slot = grown (some c) (some b) none }, w')
      else some (pos 1, record { src = s; slot = grown (some c0) (some c1) (some c2) }, w)
  settle s nr n s0 s1 s2 w = none

  -- `settle` on the tables as they are after `slot[II]->del(e.dst)`
  unfoldable pub settled :
      ℕ → Option Cuckoo → Option Cuckoo → Option Cuckoo → World → Option (ℤ × Slot × World)
  settled s s0 s1 s2 w =
      let (n, num, sum) =
        measure s2 (measure s1 (measure s0 (zero, of_int (pos 0), of_int (pos 0)))) in
      settle s (div num sum) n s0 s1 s2 w

  unfoldable pub del_grown :
      Edge → Option Cuckoo → Option Cuckoo → Option Cuckoo → World → Option (ℤ × Slot × World)
  del_grown e s0 s1 s2 w =
      let (found0, t0) = drop_key e.dst s0 in
      let (found1, t1) = drop_key e.dst s1 in
      let (found2, t2) = drop_key e.dst s2 in
      let (rest, f2, flag) = purge e w.sblacklist in
      let gone = is_null s0 && is_null s1 && is_null s2 in
      let b : Slot = record { src = e.src; slot = grown s0 s1 s2 } in
      if found0
      then settled e.src t0 s1 s2 w
      else if found1
      then settled e.src s0 t1 s2 w
      else if found2
      then settled e.src s0 s1 t2 w
      else if f2
      then if flag
        then some (pos 1, b, record w { sblacklist = rest })
        else if gone
        then some (negsuc 0, b, record w { sblacklist = rest })
        else some (pos 1, b, record w { sblacklist = rest })
      else some (pos 2, b, record w { sblacklist = rest })

  unfoldable pub del : Edge → Slot → World → Option (ℤ × Slot × World)
  del e b w = elim b.slot [
    | few pt ks ↦
        let (found, ks') = Scalar.overwrite e.dst 0 ks in
        if not (b.src == e.src)
        then some (pos 0, b, w)
        else if pt == 0
        then some (pos 2, b, w)
        else if not found
        then some (pos 2, b, w)
        else if pt == 1
        then some (negsuc 0, record { src = 0; slot = few 0 ks' }, w)
        else some (pos 1, record b { slot = few (pt - 1) ks' }, w)
    | grown s0 s1 s2 ↦ if not (b.src == e.src) then some (pos 0, b, w) else del_grown e s0 s1 s2 w
  ]
