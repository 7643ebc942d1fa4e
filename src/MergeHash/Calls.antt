-- ===== src/MergeHash/Calls.antt =====
-- Calls of a chain in any order, the answers included, against a set of keys.
use cuckoo_graph.Prelude.{
  ℕ, ◌≤◌, ◌≡◌, ◌≢◌, refl, Bool, true, false, Option, none, some, List, [], ◌∷◌, ◌==◌, arith, All,
  if◌then◌else◌, ap, ◌∙◌,
}
use cuckoo_graph.Cuckoo.{Globals}
use cuckoo_graph.Floats.{Floats}
use cuckoo_graph.MergeHash.{MergeHash, insert, del, query, new}
use cuckoo_graph.MergeHash.Invariant.{Shaped, IsValid, new_chain-IsValid, query-held}
use cuckoo_graph.MergeHash.Insert.{query-insert_chain}
use cuckoo_graph.MergeHash.Delete.{query-del_chain}

pub data Call : Type 0 where
  inserting : ℕ → Call
  deleting : ℕ → Call
  querying : ℕ → Call

abbrev key : Call → ℕ
key (inserting k) = k
key (deleting k) = k
key (querying k) = k

-- No call is about the key 0.
abbrev pub IsProper : Call → Type 0
IsProper c = key c ≢ 0

-- One call of the chain, and one after another with their answers.
unfoldable pub call : Floats → Call → MergeHash → Globals → Option (Bool × MergeHash × Globals)
call fl (inserting k) m g = insert fl k m g
call fl (deleting k) m g = some (del fl k m g)
call fl (querying k) m g = some (query k m, m, g)

unfoldable pub play :
    Floats → List Call → MergeHash → Globals → Option (List Bool × MergeHash × Globals)
play fl [] m g = some ([], m, g)
play fl (c ∷ cs) m g = elim (call fl c m g) [
  | none ↦ none
  | some (answer, m', g') ↦ elim (play fl cs m' g') [
    | none ↦ none
    | some (answers, m'', g'') ↦ some (answer ∷ answers, m'', g'')
  ]
]

-- A set of keys, and what the calls do with it: `insert` always answers true, and the other two
-- answer whether the key is there.
abbrev pub Keys : Type 0
Keys = ℕ → Bool

abbrev pub no_keys : Keys
no_keys k = false

abbrev reply : Call → Keys → Bool
reply (inserting k) s = true
reply (deleting k) s = s k
reply (querying k) s = s k

abbrev next : Call → Keys → Keys
next (inserting k) s = λ x. if x == k then true else s x
next (deleting k) s = λ x. if x == k then false else s x
next (querying k) s = s

abbrev pub replies : List Call → Keys → List Bool
replies [] s = []
replies (c ∷ cs) s = reply c s ∷ replies cs (next c s)

abbrev pub after_calls : List Call → Keys → Keys
after_calls [] s = s
after_calls (c ∷ cs) s = after_calls cs (next c s)

-- The chain is valid and `query` finds the keys of the set.
record Shows (s : Keys) (m : MergeHash) : Type 0 where
  valid : IsValid m
  finds : (k : ℕ) → k ≢ 0 → query k m ≡ s k

module _ (fl : Floats) (sane : fl.lt fl.two fl.rate ≡ false) where
  call-Shows :
      (c : Call) {s : Keys} {m : MergeHash} (g : Globals)
      → IsProper c
      → Shows s m
      → (n : MergeHash) × (g' : Globals) × (call fl c m g ≡ some (reply c s, n, g'))
        × Shows (next c s) n
  unfolding call
  call-Shows (inserting k) {s} {m} g proper v =
      let (n, g', run, valid, finds) = query-insert_chain fl sane v.valid k g proper in
      (
        n,
        g',
        run,
        record {
          valid = valid;
          finds = λ x nz. let f = finds x nz in let old = v.finds x nz in ground (arith, f, old);
        },
      )
  call-Shows (deleting k) {s} {m} g proper v =
      let (valid, found, finds) = query-del_chain fl v.valid k g proper in
      let (hit, n, g') = del fl k m g in
      let same : hit ≡ s k = found ∙ v.finds k proper in
      (
        n,
        g',
        ap (λ b. some (b, n, g')) same,
        record {
          valid = valid;
          finds = λ x nz. let f = finds x nz in let old = v.finds x nz in ground (arith, f, old);
        },
      )
  call-Shows (querying k) {s} {m} g proper v =
      (m, g, ap (λ b. some (b, m, g)) (v.finds k proper), v)

  play-Shows :
      (cs : List Call) {s : Keys} {m : MergeHash} (g : Globals)
      → All IsProper cs
      → Shows s m
      → (n : MergeHash) × (g' : Globals) × (play fl cs m g ≡ some (replies cs s, n, g'))
        × Shows (after_calls cs s) n
  unfolding play
  play-Shows [] {s} {m} g a v = (m, g, refl, v)
  play-Shows (c ∷ cs) {s} {m} g a v =
      let (m', g', run, v') = call-Shows c g a.0 v in
      let (n, g'', run', v'') = play-Shows cs g' a.1 v' in
      (n, g'', rw (run, play) (rw (run', play) refl), v'')

  -- A chain made by the constructor with well-shaped widths, the second one at least 4, and any
  -- calls of `insert`, `del` and `query` with keys that are not 0, where 2 is not less than `rate`:
  -- none of them dereferences a null pointer, each answers as a set of keys does, and in the end the
  -- chain is valid and `query` finds just the keys of the set, 0 apart.
  pub play-replies :
      (l1 l2 s1 s2 : ℕ) (g : Globals) (cs : List Call)
      → Shaped l1 l2
      → 4 ≤ l2
      → All IsProper cs
      → (n : MergeHash) × (g' : Globals) × (play fl cs (new l1 l2 s1 s2) g
          ≡ some (replies cs no_keys, n, g'))
        × IsValid n
        × ((k : ℕ) → k ≢ 0 → query k n ≡ after_calls cs no_keys k)
  play-replies l1 l2 s1 s2 g cs shape wide a =
      let (v, bare) = new_chain-IsValid l1 l2 s1 s2 shape wide in
      let start : Shows no_keys (new l1 l2 s1 s2) = record {
        valid = v;
        finds = λ k nz.
            let found = query-held k v nz in
            let empty = bare (λ x. x == k) in ground (arith, found, empty);
      } in
      let (n, g', run, shows) = play-Shows cs g a start in (n, g', run, shows.valid, shows.finds)

  -- For a valid chain and a key that is not 0, where 2 is not less than `rate`, `insert` of the key
  -- and then `del` of it dereference no null pointer and both answer true; they leave a valid chain
  -- in which `query` does not find the key and answers for each other key but 0 as before.
  pub del-insert_chain :
      {m : MergeHash} (k : ℕ) (g : Globals)
      → IsValid m
      → k ≢ 0
      → (n : MergeHash) × (g' : Globals) × (play fl (inserting k ∷ deleting k ∷ []) m g
          ≡ some (true ∷ true ∷ [], n, g'))
        × IsValid n
        × (query k n ≡ false)
        × ((x : ℕ) → x ≢ 0 → x ≢ k → query x n ≡ query x m)
  del-insert_chain {m} k g v nz =
      let start : Shows (λ x. query x m) m = record { valid = v; finds = λ x h. refl } in
      let same : (k == k) ≡ true = ground arith in
      let (n, g', run, shows) = play-Shows (inserting k ∷ deleting k ∷ []) g (nz, (nz, tt)) start in
      (
        n,
        g',
        run ∙ ap (λ b. some (true ∷ b ∷ [], n, g')) (rw same refl),
        shows.valid,
        ground (arith, shows.finds k nz),
        λ x h other. ground (arith, shows.finds x h),
      )
