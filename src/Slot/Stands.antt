-- ===== src/Slot/Stands.antt =====
-- A slot that stands for one row of a graph: the destinations of its source.
use cuckoo_graph.Prelude.{
  ℕ, ◌<◌, ◌≡◌, ◌≢◌, ◌↔◌, ◌∙◌, refl, sym, inl, inr, Bool, true, false, ◌&&◌, ◌==◌, arith, [], set,
  Option, none, some, ℤ, pos, Bool-cases, ap, if◌then◌else◌, ==_of_ne, subst,
}
use cuckoo_graph.Floats.{Floats}
use cuckoo_graph.Slot.{Edge, edge, World, Content, few, grown, Slot, own, query, is_slot_empty, new}
use cuckoo_graph.Slot.Grow.{insert}
use cuckoo_graph.Slot.Invariant.{held, IsFormed, IsValid, slot_query-held, new_slot-IsValid}
use cuckoo_graph.Slot.Insert.{at, Enters, empty_query, query-insert_slot}

-- Which edges there are, as a table of truth values.
abbrev pub Graph : Type 0
Graph = ℕ → ℕ → Bool

abbrev pub adds : Edge → Graph → Graph
adds e graph s d = if (s == e.src) && (d == e.dst) then true else graph s d

-- The slot is well formed, it is free exactly where its source is 0, and `query` finds in it the
-- destinations that the graph has for its source.
pub record Stands (graph : Graph) (w : World) (b : Slot) : Type 0 where
  pub valid : IsValid b w
  pub tidy : is_slot_empty b ≡ (b.src == 0)
  pub lists : b.src ≢ 0 → (d : ℕ) → d ≢ 0 → (0 < query (edge b.src d) b w) ↔ (graph b.src d ≡ true)

pub new_slot-Stands : (graph : Graph) (w : World) → own 0 w.sblacklist ≡ [] → Stands graph w new
unfolding new is_slot_empty
new_slot-Stands graph w h = record {
  valid = unfold new in new_slot-IsValid w h;
  tidy = refl;
  lists = λ live. absurd (live refl);
}

-- Another graph with the same row.
pub Stands-row :
    {graph : Graph} (graph' : Graph) {w : World} {b : Slot}
    → Stands graph w b
    → (b.src ≢ 0 → (d : ℕ) → graph' b.src d ≡ graph b.src d)
    → Stands graph' w b
Stands-row graph' v same = record {
  valid = v.valid;
  tidy = v.tidy;
  lists = λ live d nz. rw (same live d) (v.lists live d nz);
}

module _ (w w' : World) (s : ℕ) (same : own s w'.sblacklist ≡ own s w.sblacklist) where
  held_frame : (c : Content) (p : ℕ → Bool) → held p (at s c) w' ≡ held p (at s c) w
  held_frame (few pt ks) p = refl
  held_frame (grown s0 s1 s2) p = rw same refl

  IsFormed-frame : (c : Content) → IsFormed (at s c) w → IsFormed (at s c) w'
  IsFormed-frame (few pt ks) f = (f.0, f.1, same ∙ f.2)
  IsFormed-frame (grown s0 s1 s2) f = (f.0, rw same f.1)

  -- The listed edges of other sources do not matter.
  pub Stands-frame :
      {graph : Graph} (c : Content) → Stands graph w (at s c) → Stands graph w' (at s c)
  Stands-frame c v =
      let valid' : IsValid (at s c) w' = record {
        formed = IsFormed-frame c v.valid.formed;
        unique = λ d nz. rw (held_frame c (λ x. x == d)) (v.valid.unique d nz);
      } in
      record {
        valid = valid';
        tidy = v.tidy;
        lists = λ live d nz. ground (
          arith,
          v.lists live d nz,
          slot_query-held d v.valid nz,
          slot_query-held d valid' nz,
          held_frame c (λ x. x == d),
        );
      }

-- What `insert` of an edge leaves of a slot: it stands for the same row with the edge.
abbrev pub Extends : Graph → Edge → World → Option (ℤ × Slot × World) → Type 0
Extends graph e w r =
    (code : ℤ) × (b' : Slot) × (w' : World) × (r ≡ some (code, b', w'))
    × (b'.src ≡ e.src)
    × Stands (adds e graph) w' b'
    × ((t : ℕ) → t ≢ e.src → own t w'.sblacklist ≡ own t w.sblacklist)

Enters-Extends :
    (graph : Graph) {e : Edge} (b : Slot) (w : World) {r : Option (ℤ × Slot × World)}
    → e.src ≢ 0
    → e.dst ≢ 0
    → ((d : ℕ) → d ≢ 0 → (0 < query (edge e.src d) b w) ↔ (graph e.src d ≡ true))
    → Enters e b w r
    → Extends graph e w r
Enters-Extends graph {e} b w live nz old (code, b', w', runs, source, valid, found, frame) =
    let there : 0 < query (edge e.src e.dst) b' w' = (found e.dst nz).1 (inr refl) in
    let busy : is_slot_empty b' ≡ false = elim (Bool-cases (is_slot_empty b')) [
      | inl empty ↦ absurd (ground (arith, empty_query e.src e.dst b'.src b'.slot w' empty))
      | inr f ↦ f
    ] in
    (
      code,
      b',
      w',
      runs,
      source,
      record {
        valid = valid;
        tidy = busy ∙ sym (ap (λ s. s == 0) source ∙ ==_of_ne e.src 0 live);
        lists = λ h d z.
            subst (λ s. (0 < query (edge s d) b' w') ↔ (adds e graph s d ≡ true)) (sym source)
              (ground (arith, found d z, old d z));
      },
      frame,
    )

-- `insert` into the slot of the source.
pub known-Extends :
    (fl : Floats) {graph : Graph} (e : Edge) {b : Slot} {w : World}
    → Stands graph w b
    → e.src ≢ 0
    → e.dst ≢ 0
    → b.src ≡ e.src
    → Extends graph e w (insert fl e b w)
known-Extends fl {graph} e {b} {w} v live nz same =
    Enters-Extends graph b w live nz
      (subst (λ s. (d : ℕ) → d ≢ 0 → (0 < query (edge s d) b w) ↔ (graph s d ≡ true)) same
        (v.lists (rw same live)))
      (query-insert_slot fl e v.valid nz (inl same))

-- The result of a run that is known.
Extends-run :
    (graph : Graph) (e : Edge) (w : World) (r : Option (ℤ × Slot × World)) (x : ℤ × Slot × World)
    → Extends graph e w r
    → r ≡ some x
    → (x.1.src ≡ e.src) × Stands (adds e graph) x.2 x.1
Extends-run graph e w r x (code, b', w', runs, source, v, frame) run =
    let same : (code, b', w') ≡ x =
      ap (λ (o : Option (ℤ × Slot × World)). elim o [ none ↦ x | some y ↦ y ]) (sym runs ∙ run) in
    subst (λ (y : ℤ × Slot × World). (y.1.src ≡ e.src) × Stands (adds e graph) y.2 y.1) same
      (source, v)

free_insert :
    (fl : Floats) (e : Edge) (s : ℕ) (c : Content) (w : World)
    → is_slot_empty (at s c) ≡ true
    → (b : Slot) × (insert fl e (at s c) w ≡ some (pos 1, b, w))
unfolding insert is_slot_empty
free_insert fl e s (few pt ks) w h =
    (record { src = e.src; slot = few 1 (set ks 0 e.dst) }, rw h refl)
free_insert fl e s (grown s0 s1 s2) w h = cc

-- `insert` into a free slot, where nothing is known of the source: the answer is 1, and the list
-- stays as it is.
pub free-Extends :
    (fl : Floats) {graph : Graph} (e : Edge) {b : Slot} {w : World}
    → Stands graph w b
    → e.src ≢ 0
    → e.dst ≢ 0
    → b.src ≡ 0
    → own e.src w.sblacklist ≡ []
    → ((d : ℕ) → graph e.src d ≡ false)
    → (b' : Slot) × (insert fl e b w ≡ some (pos 1, b', w))
      × (b'.src ≡ e.src)
      × Stands (adds e graph) w b'
free-Extends fl {graph} e {b} {w} v live nz none_there unlisted blank =
    let empty : is_slot_empty b ≡ true = rw (v.tidy, none_there) refl in
    let (b', run) = free_insert fl e b.src b.slot w empty in
    let (source, stands) =
      Extends-run graph e w _ (pos 1, b', w)
        (Enters-Extends graph b w live nz
          (λ d z. rw (empty_query e.src d b.src b.slot w empty) (rw (blank d) (ground arith)))
          (query-insert_slot fl e v.valid nz (inr (empty, unlisted))))
        run in
    (b', run, source, stands)

other_run :
    (fl : Floats) (e : Edge) (s : ℕ) (c : Content) (w : World)
    → is_slot_empty (at s c) ≡ false
    → s ≢ e.src
    → insert fl e (at s c) w ≡ some (pos 0, at s c, w)
unfolding insert is_slot_empty
other_run fl e s (few pt ks) w busy other = rw (busy, ==_of_ne s e.src other) refl
other_run fl e s (grown s0 s1 s2) w busy other = rw (==_of_ne s e.src other) refl

-- `insert` into the slot of another source.
pub other_insert :
    (fl : Floats) (e : Edge) {graph : Graph} {b : Slot} {w : World}
    → Stands graph w b
    → b.src ≢ 0
    → b.src ≢ e.src
    → insert fl e b w ≡ some (pos 0, b, w)
other_insert fl e {graph} {b} {w} v live other =
    other_run fl e b.src b.slot w (v.tidy ∙ ==_of_ne b.src 0 live) other

-- A slot of another source, after an edge went in.
pub Stands-other :
    {graph : Graph} (e : Edge) (w w' : World) (b : Slot)
    → ((t : ℕ) → t ≢ e.src → own t w'.sblacklist ≡ own t w.sblacklist)
    → Stands graph w b
    → b.src ≢ e.src
    → Stands (adds e graph) w' b
Stands-other {graph} e w w' b frame v other =
    Stands-row (adds e graph) (Stands-frame w w' b.src (frame b.src other) b.slot v)
      (λ live d. rw (==_of_ne b.src e.src other) refl)

-- Only the list matters, not the other global variables.
pub Stands-world :
    {graph : Graph} (w w' : World) (b : Slot)
    → w'.sblacklist ≡ w.sblacklist
    → Stands graph w b
    → Stands graph w' b
Stands-world w w' b same v = Stands-frame w w' b.src (ap (own b.src) same) b.slot v
