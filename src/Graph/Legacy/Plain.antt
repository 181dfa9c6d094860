-- ===== src/Graph/Legacy/Plain.antt =====
-- The port graph of Graph/Plain has what the conversion of tierkreis/src/graph.rs relies on.
use tierkreis.Base.{
  ℕ, ◌+◌, ◌*◌, ◌/◌, ◌%◌, ◌≤◌, ◌≡◌, refl, Bool, true, false, not, ◌&&◌, none, some, List, [], ◌∷◌,
  filter, arith, nat_beq, nat_beq_iff, nat_eq, contains, ok-injective, length, ltb, leb, ◌==◌,
  if◌then◌else◌,
}
use tierkreis.Graph.Plain.{Links, port_link_in, plain_graph}
use tierkreis.Graph.Legacy.Laws.{target, PortGraphLaws}

abbrev plain_input : Links → ℕ → Bool
plain_input g p = ltb (p / 10) (length g.nodes) && leb (p % 10) 2

abbrev kept : ℕ → List (ℕ × ℕ) → List (ℕ × ℕ)
kept n links = filter (λ l. not (nat_beq (l.1 / 10) n)) links

port_link_in-kept_new :
    (links : List (ℕ × ℕ)) (n p : ℕ) → p / 10 ≡ n → port_link_in (kept n links) p ≡ none
port_link_in-kept_new [] n p h = refl
port_link_in-kept_new ((from, to) ∷ links) n p h =
    ground (arith, port_link_in-kept_new links n p h, nat_beq_iff (to / 10) n, nat_beq_iff to p)

port_link_in-kept :
    (links : List (ℕ × ℕ)) (n p : ℕ)
    → nat_beq (p / 10) n ≡ false
    → port_link_in (kept n links) p ≡ port_link_in links p
port_link_in-kept [] n p h = refl
port_link_in-kept ((from, to) ∷ links) n p h =
    ground (arith, port_link_in-kept links n p h, nat_beq_iff (to / 10) n, nat_beq_iff to p)

target-port_link_in : (g : Links) (p : ℕ) → target plain_graph g p ≡ port_link_in g.links p
target-port_link_in g p =
    elim (port_link_in g.links p) as (λ o. (elim o [ none ↦ none | some q ↦ some q ]) ≡ o) [
      | none ↦ refl
      | some q ↦ refl
    ]

abbrev grown : Links → Links
grown g = record { nodes = length g.nodes ∷ g.nodes; links = kept (length g.nodes) g.links }

new_port :
    (n p : ℕ)
    → contains ((10 * n) ∷ (10 * n + 1) ∷ (10 * n + 2) ∷ []) p ≡ true
    → (p / 10 ≡ n) × (p % 10 ≤ 2)
new_port n p h =
    ground (arith, nat_beq_iff (10 * n) p, nat_beq_iff (10 * n + 1) p, nat_beq_iff (10 * n + 2) p)

plain_new_input :
    (g : Links) (p : ℕ)
    → contains
        ((10 * length g.nodes) ∷ (10 * length g.nodes + 1) ∷ (10 * length g.nodes + 2) ∷ [])
        p
      ≡ true
    → (plain_input (grown g) p ≡ true) × (target plain_graph (grown g) p ≡ none)
plain_new_input g p h =
    let (at, k) = new_port (length g.nodes) p h in
    (
      ground arith,
      rw (target-port_link_in (grown g) p) (port_link_in-kept_new g.links (length g.nodes) p at),
    )

plain_fresh_input :
    (g : Links) (p : ℕ)
    → contains
        ((10 * length g.nodes) ∷ (10 * length g.nodes + 1) ∷ (10 * length g.nodes + 2) ∷ [])
        p
      ≡ true
    → plain_input g p ≡ false
plain_fresh_input g p h = let (at, k) = new_port (length g.nodes) p h in ground arith

plain_input_add :
    (g : Links) (p : ℕ)
    → plain_input g p ≡ true
    → (plain_input (grown g) p ≡ true) × (target plain_graph (grown g) p ≡ target plain_graph g p)
plain_input_add g p h = (
  ground arith,
  rw (target-port_link_in (grown g) p, target-port_link_in g p)
      (port_link_in-kept g.links (length g.nodes) p
        (ground (arith, nat_beq_iff (p / 10) (length g.nodes)))),
)

abbrev linked : Links → ℕ → ℕ → Links
linked g from to = record g { links = (from, to) ∷ g.links }

target-linked :
    (g : Links) (from to p : ℕ)
    → target plain_graph (linked g from to) p
      ≡ (if to == p then some from else target plain_graph g p)
target-linked g from to p =
    rw (target-port_link_in (linked g from to) p, target-port_link_in g p) (ground arith)

pub plain_graph_laws : PortGraphLaws plain_graph
plain_graph_laws = record {
  next = λ g. length g.nodes;
  next_empty = refl;
  add_next = λ g i o. refl;
  next_add = λ g i o. refl;
  is_input = plain_input;
  new_input = λ g i o p h. plain_new_input g p h;
  capacity = 3;
  count_inputs = λ g i o h. h;
  distinct_inputs = λ g i o. (
    ground (
      arith,
      nat_beq_iff (10 * length g.nodes + 1) (10 * length g.nodes),
      nat_beq_iff (10 * length g.nodes + 2) (10 * length g.nodes),
    ),
    (ground (arith, nat_beq_iff (10 * length g.nodes + 2) (10 * length g.nodes + 1)), (refl, tt)),
  );
  fresh_input = λ g i o p h. plain_fresh_input g p h;
  input_add = λ g i o p h. plain_input_add g p h;
  input_link = λ g g' from to p h i. rw (← ok-injective h) i;
  target_link = λ g g' from to h i n.
      rw (← ok-injective h, target-linked g from to to, (nat_beq_iff to to).1 refl) refl;
  target_other = λ g g' from to p h i j d. rw (← ok-injective h, target-linked g from to p, d) refl;
}

pub plain_graph_capacity : (n : ℕ) → n ≤ 3 → n ≤ plain_graph_laws.capacity
unfolding plain_graph_laws
plain_graph_capacity n h = h
