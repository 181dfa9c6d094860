-- ===== src/Graph/Plain.antt =====
-- A port graph with few operations, for the examples: port `p` is of node `p / 10`, and a graph is
-- the nodes and the links, each from an output port to an input port.
use tierkreis.Base.{
  ℕ, ◌+◌, ◌*◌, ◌/◌, ◌≡◌, ap, ◌∙◌, Bool, true, false, not, ◌&&◌, Option, none, some, List, [], ◌∷◌,
  map, filter, arith, nat_beq, nat_beq_iff, nat_eq, contains, Outcome, ok, ◌>>=◌, >>=-eq-ok,
  ok-injective, if◌then◌else◌, length,
}
use tierkreis.Graph.{PortGraph}

pub record Links : Type 0 where
  pub nodes : List ℕ
  pub links : List (ℕ × ℕ)

abbrev pub port_link_in : List (ℕ × ℕ) → ℕ → Option ℕ
port_link_in [] p = none
port_link_in ((from, to) ∷ links) p =
    let rest = port_link_in links p in if nat_beq to p then some from else rest

abbrev accepted : (ℕ → Outcome Bool) → List ℕ → Outcome (List ℕ)
accepted test [] = ok []
accepted test (n ∷ nodes) =
    let rest = accepted test nodes in
    test n >>= λ yes. rest >>= λ others. ok (if yes then n ∷ others else others)

abbrev pub plain_graph : PortGraph
plain_graph = record {
  Graph = Links;
  Subport = ℕ;
  port_of = λ p. p;
  empty = record { nodes = []; links = [] };
  add_graph_node = λ g i o. (
    record {
      nodes = length g.nodes ∷ g.nodes;
      links = filter (λ l. not (nat_beq (l.1 / 10) (length g.nodes))) g.links;
    },
    length g.nodes,
  );
  inputs = λ g n. (10 * n) ∷ (10 * n + 1) ∷ (10 * n + 2) ∷ [];
  outputs = λ g n. (10 * n + 5) ∷ [];
  link_ports = λ g from to. ok (record g { links = (from, to) ∷ g.links });
  remove_node = λ g n. record {
    nodes = filter (λ m. not (nat_beq m n)) g.nodes;
    links = filter (λ l. not (nat_beq (l.0 / 10) n) && not (nat_beq (l.1 / 10) n)) g.links;
  };
  nodes_iter = λ g. g.nodes;
  input_links = λ g n. map (λ l. (l.1, l.0)) (filter (λ l. nat_beq (l.1 / 10) n) g.links);
  port_link = λ g p. port_link_in g.links p;
  port_node = λ g p. some (p / 10);
  input_neighbours = λ g n. map (λ l. l.0 / 10) (filter (λ l. nat_beq (l.1 / 10) n) g.links);
  output_neighbours = λ g n. map (λ l. l.1 / 10) (filter (λ l. nat_beq (l.0 / 10) n) g.links);
  postorder = λ g n. n ∷ map (λ l. l.1 / 10) (filter (λ l. nat_beq (l.0 / 10) n) g.links);
  toposort_filtered = λ g from node_filter port_filter. accepted node_filter g.nodes;
}

accepted_step :
    (test : ℕ → Outcome Bool) (m n : ℕ) (b : Bool) (others : List ℕ)
    → test m ≡ ok b
    → (contains others n ≡ true → test n ≡ ok true)
    → contains (if b then m ∷ others else others) n ≡ true
    → test n ≡ ok true
accepted_step test m n true others e rest c =
    let same : m ≡ n → test m ≡ test n = ap test in ground (arith, nat_beq_iff m n, same)
accepted_step test m n false others e rest c = rest c

-- only accepted nodes are yielded
pub accepted_lem :
    (test : ℕ → Outcome Bool) (nodes kept : List ℕ) (n : ℕ)
    → accepted test nodes ≡ ok kept
    → contains kept n ≡ true
    → test n ≡ ok true
accepted_lem test [] kept n h c = absurd (ground (arith, ok-injective h))
accepted_lem test (m ∷ nodes) kept n h c =
    let (b, e1, e2) =
      >>=-eq-ok (test m)
        (λ yes. accepted test nodes >>= λ others. ok (if yes then m ∷ others else others)) h in
    let (others, e3, e4) =
      >>=-eq-ok (accepted test nodes) (λ others. ok (if b then m ∷ others else others)) e2 in
    accepted_step test m n b others e1 (accepted_lem test nodes others n e3)
      (ap (λ k. contains k n) (ok-injective e4) ∙ c)
