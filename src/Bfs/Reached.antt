-- ===== src/Bfs/Reached.antt =====
-- hole_Bfs visits the nodes that the graph of the store lets it reach, each once, and ends.
use cuckoo_graph.Prelude.{
  ℕ, zero, suc, ◌+◌, ◌<◌, ◌≤◌, ◌≡◌, ◌≢◌, ◌↔◌, ◌⊎◌, ◌∙◌, refl, ap, subst, inl, inr, true, false,
  arith, to_nat, ◌==◌, Bool-cases, Option, none, some, List, [], ◌∷◌, length, tally,
}
use cuckoo_graph.Cuckoo.Invariant.{is}
use cuckoo_graph.Slot.{World}
use cuckoo_graph.Slot.Stands.{Graph}
use cuckoo_graph.HoleMerge
use cuckoo_graph.HoleMerge.{HoleMerge}
use cuckoo_graph.HoleMerge.Invariant.{Represents}
use cuckoo_graph.HoleMerge.Successors.{successors-graph}
use cuckoo_graph.Bfs.{Search, mark, visit_all, search, begin, hole_bfs}
use cuckoo_graph.Bfs.Counting.{unseen, unseen_le}
use cuckoo_graph.Bfs.Growth.{In, visit_all-Visits}

-- The nodes that a path of edges leads to from `src`.
pub data Reach (graph : Graph) (src : ℕ) : ℕ → Type 0 where
  at_start : Reach graph src src
  along : (a b : ℕ) → Reach graph src a → graph a b ≡ true → b ≢ 0 → Reach graph src b

module _ (graph : Graph) (m : HoleMerge) (w : World) (v : Represents graph m w) (n src : ℕ)
    (below : (s d : ℕ) → graph s d ≡ true → d < n) where
  -- The state of the search between two rounds.
  pub record Inv (s : Search) : Type 0 where
    pub reached : (d : ℕ) → s.visited d ≡ true → Reach graph src d
    pub live : (d : ℕ) → s.visited d ≡ true → d ≢ 0
    pub started : s.visited src ≡ true
    pub waits : (d : ℕ) → In d s.q → s.visited d ≡ true
    pub closed :
        (a b : ℕ)
        → s.visited a ≡ true
        → tally (is a) s.q ≡ 0
        → graph a b ≡ true
        → b ≢ 0
        → s.visited b ≡ true
    pub nodes : (d : ℕ) → tally (is d) s.bfs_node ≡ to_nat (s.visited d)
    pub num : s.node_num ≡ length s.bfs_node

  begin-Inv : src ≢ 0 → Inv (begin src)
  unfolding begin tally
  begin-Inv live = record {
    reached = λ d h. let at : src ≡ d = ground (arith, h) in subst (Reach graph src) at at_start;
    live = λ d h. ground (arith, h);
    started = ground arith;
    waits = λ d h. ground (arith, h);
    closed = λ a b h gone. absurd (ground (arith, h, gone));
    nodes = λ d. ground arith;
    num = refl;
  }

  -- One round: the node leaves the queue, and its neighbours are visited.
  round-Inv :
      (x : ℕ) (q : List ℕ) (s : Search)
      → Inv s
      → s.q ≡ x ∷ q
      → let t = visit_all (HoleMerge.get_neighbors x m w) (record s { q = q }) in
        Inv t × (unseen n t.visited + length t.q ≡ unseen n s.visited + length q)
  unfolding tally
  round-Inv x q s i e =
      let waiting : (d : ℕ) → tally (is d) s.q ≡ to_nat (x == d) + tally (is d) q =
        λ d. ap (tally (is d)) e in
      let seen : s.visited x ≡ true = i.waits x (ground (arith, waiting x)) in
      let live = i.live x seen in
      let (ks, run, listed, no_zero, each) = successors-graph x [] v live in
      let s' : Search = record s { q = q } in
      let next : (d : ℕ) → In d ks → (graph x d ≡ true) × (d ≢ 0) = λ d h.
        let nz : d ≢ 0 = λ z. let bad : In 0 ks = subst (λ k. In k ks) z h in omega arith in
        (ground (arith, each d nz, h), nz) in
      let g = visit_all-Visits n ks s' (λ d h. below x d (next d h).0) in
      rw listed (
        record {
          reached = λ d h. elim (g.came d h) [
            | inl old ↦ i.reached d old
            | inr new ↦ along x d (i.reached x seen) (next d new).0 (next d new).1
          ];
          live = λ d h. elim (g.came d h) [ inl old ↦ i.live d old | inr new ↦ (next d new).1 ];
          started = g.kept src i.started;
          waits = λ d h. elim (g.queued d h) [
            | inl old ↦ g.kept d (i.waits d (omega (arith, waiting d)))
            | inr now ↦ now
          ];
          closed = λ a b h gone edge nz. elim (Bool-cases (x == a)) [
            | inl same ↦
                let at : a ≡ x = ground arith in
                let edge_x : graph x b ≡ true = subst (λ k. graph k b ≡ true) at edge in
                g.all b (ground (arith, each b nz, edge_x))
            | inr other ↦ elim (g.fresh a h) [
              | inl old ↦
                  let still : tally (is a) q ≡ 0 = elim (Bool-cases (tally (is a) q == 0)) [
                    | inl z ↦ ground arith
                    | inr f ↦ absurd (ground (arith, g.queue a (ground arith), gone))
                  ] in
                  g.kept b (i.closed a b old (ground (arith, waiting a, still)) edge nz)
              | inr waits_now ↦ absurd (omega arith)
            ]
          ];
          nodes = λ d. ground (arith, g.nodes d, i.nodes d);
          num = omega (arith, g.num, i.num);
        },
        g.left,
      )

  queue_cases : (q : List ℕ) → (q ≡ []) ⊎ ((x : ℕ) × (xs : List ℕ) × (q ≡ x ∷ xs))
  queue_cases [] = inl refl
  queue_cases (x ∷ xs) = inr (x, xs, refl)

  search_empty : (rounds : ℕ) (s : Search) → s.q ≡ [] → search rounds m w s ≡ some s
  unfolding search
  search_empty zero s e =
      ap (λ (q : List ℕ). elim q as (λ x. Option Search) [ [] ↦ some s | v ∷ q' ↦ none ]) e
  search_empty (suc rounds) s e =
      ap
        (λ (q : List ℕ). elim q as (λ x. Option Search) [
          | [] ↦ some s
          | v ∷ q' ↦
              search rounds m w (visit_all (HoleMerge.get_neighbors v m w) (record s { q = q' }))
        ])
        e

  search_next :
      (rounds : ℕ) (s : Search) (x : ℕ) (xs : List ℕ)
      → s.q ≡ x ∷ xs
      → search (suc rounds) m w s
        ≡ search rounds m w (visit_all (HoleMerge.get_neighbors x m w) (record s { q = xs }))
  unfolding search
  search_next rounds s x xs e =
      ap
        (λ (q : List ℕ). elim q as (λ y. Option Search) [
          | [] ↦ some s
          | v ∷ q' ↦
              search rounds m w (visit_all (HoleMerge.get_neighbors v m w) (record s { q = q' }))
        ])
        e

  search-Inv :
      (rounds : ℕ) (s : Search)
      → Inv s
      → unseen n s.visited + length s.q ≤ rounds
      → (t : Search) × (search rounds m w s ≡ some t) × Inv t × (t.q ≡ [])
  search-Inv zero s i enough = elim (queue_cases s.q) [
    | inl e ↦ (s, search_empty zero s e, i, e)
    | inr (x, xs, e) ↦ absurd (omega (arith, ap length e))
  ]
  search-Inv (suc rounds) s i enough = elim (queue_cases s.q) [
    | inl e ↦ (s, search_empty (suc rounds) s e, i, e)
    | inr (x, q, e) ↦
        let (i', left) = round-Inv x q s i e in
        let s' = visit_all (HoleMerge.get_neighbors x m w) (record s { q = q }) in
        let (t, run, j, empty) = search-Inv rounds s' i' (omega (arith, ap length e)) in
        (t, search_next rounds s x q e ∙ run, j, empty)
  ]

  Reach-visited : (t : Search) → Inv t → t.q ≡ [] → (d : ℕ) → Reach graph src d → t.visited d ≡ true
  unfolding tally
  Reach-visited t i e d at_start = i.started
  Reach-visited t i e d (along a b path edge nz) =
      i.closed a b (Reach-visited t i e a path) (ap (tally (is a)) e) edge nz

  -- On a well-formed store whose edges lead to nodes below `n`, and from a node that is not 0, the
  -- search ends within `n + 1` rounds; the nodes that it lists are those that the edges lead to from
  -- there, each once, and `node_num` is their number.
  pub hole_bfs-Reach :
      src ≢ 0
      → (t : Search) × (hole_bfs (suc n) m w src ≡ some t)
        × ((d : ℕ) → (0 < tally (is d) t.bfs_node) ↔ Reach graph src d)
        × ((d : ℕ) → tally (is d) t.bfs_node ≤ 1)
        × (t.node_num ≡ length t.bfs_node)
  unfolding hole_bfs
  hole_bfs-Reach live =
      let enough : unseen n (begin src).visited + length (begin src).q ≤ suc n =
        unfold begin in omega (arith, unseen_le n (mark src (λ d. false))) in
      let (t, run, i, empty) = search-Inv (suc n) (begin src) (begin-Inv live) enough in
      (
        t,
        run,
        λ d. (
          λ h. i.reached d (ground (arith, i.nodes d, h)),
          λ path. ground (arith, i.nodes d, Reach-visited t i empty d path),
        ),
        λ d. ground (arith, i.nodes d),
        i.num,
      )
