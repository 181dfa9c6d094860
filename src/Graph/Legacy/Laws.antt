-- ===== src/Graph/Legacy/Laws.antt =====
-- What the conversion of tierkreis/src/graph.rs relies on of a `portgraph::MultiPortGraph` that no
-- node has been removed from, and how it links what the references name.
use tierkreis.Base.{
  List, ◌≤◌, length, ℕ, suc, ◌≡◌, refl, ap, ◌∙◌, sym, Bool, true, false, ◌==◌, Option, none, some,
  [], ◌∷◌, ok, ◌>>=◌, >>=-eq-ok, ok-injective, contains, arith, nat_eq, string_eq, Bool-cases, inl,
  inr, nat_beq_iff,
}
use tierkreis.Base.Map.{Map, get, Unique}
use tierkreis.Graph.{PortGraph}
use tierkreis.Graph.Legacy.{ValueRef, ConversionState}
use tierkreis.Graph.Legacy.Links.{source_of, link_found, link_all}

-- the port at the other end
abbrev pub target : (P : PortGraph) → PortGraph.Graph P → ℕ → Option ℕ
target P graph port = elim (PortGraph.port_link P graph port) [
  | none ↦ none
  | some subport ↦ some (PortGraph.port_of P subport)
]

abbrev pub Distinct : List ℕ → Type 0
Distinct [] = Unit
Distinct (p ∷ ps) = (contains ps p ≡ false) × Distinct ps

pub record PortGraphLaws (P : PortGraph) : Type 0 where
  -- indices are given in order
  pub next : PortGraph.Graph P → ℕ
  pub next_empty : next (PortGraph.empty P) ≡ 0
  pub add_next : (g : PortGraph.Graph P) (i o : ℕ) → (PortGraph.add_graph_node P g i o).1 ≡ next g
  pub next_add :
      (g : PortGraph.Graph P) (i o : ℕ) → next (PortGraph.add_graph_node P g i o).0 ≡ suc (next g)
  -- a new node's inputs are inputs with no link, and adding it changes no other input
  pub is_input : PortGraph.Graph P → ℕ → Bool
  pub new_input :
      (g : PortGraph.Graph P) (i o p : ℕ)
      → contains
          (PortGraph.inputs P
            (PortGraph.add_graph_node P g i o).0
            (PortGraph.add_graph_node P g i o).1)
          p
        ≡ true
      → (is_input (PortGraph.add_graph_node P g i o).0 p ≡ true)
        × (target P (PortGraph.add_graph_node P g i o).0 p ≡ none)
  pub input_add :
      (g : PortGraph.Graph P) (i o p : ℕ)
      → is_input g p ≡ true
      → (is_input (PortGraph.add_graph_node P g i o).0 p ≡ true)
        × (target P (PortGraph.add_graph_node P g i o).0 p ≡ target P g p)
  -- they are as many as were asked for, if that is not too many, all different, and no other
  -- node's
  pub capacity : ℕ
  pub count_inputs :
      (g : PortGraph.Graph P) (i o : ℕ)
      → i ≤ capacity
      → i
        ≤ length (
            PortGraph.inputs P
              (PortGraph.add_graph_node P g i o).0
              (PortGraph.add_graph_node P g i o).1)
  pub distinct_inputs :
      (g : PortGraph.Graph P) (i o : ℕ)
      → Distinct (
          PortGraph.inputs P
            (PortGraph.add_graph_node P g i o).0
            (PortGraph.add_graph_node P g i o).1)
  pub fresh_input :
      (g : PortGraph.Graph P) (i o p : ℕ)
      → contains
          (PortGraph.inputs P
            (PortGraph.add_graph_node P g i o).0
            (PortGraph.add_graph_node P g i o).1)
          p
        ≡ true
      → is_input g p ≡ false
  -- linking an input that has no link, and no other input changes
  pub input_link :
      (g g' : PortGraph.Graph P) (from to p : ℕ)
      → PortGraph.link_ports P g from to ≡ ok g'
      → is_input g p ≡ true
      → is_input g' p ≡ true
  pub target_link :
      (g g' : PortGraph.Graph P) (from to : ℕ)
      → PortGraph.link_ports P g from to ≡ ok g'
      → is_input g to ≡ true
      → target P g to ≡ none
      → target P g' to ≡ some from
  pub target_other :
      (g g' : PortGraph.Graph P) (from to p : ℕ)
      → PortGraph.link_ports P g from to ≡ ok g'
      → is_input g to ≡ true
      → is_input g p ≡ true
      → (to == p) ≡ false
      → target P g' p ≡ target P g p

-- inputs with no link
abbrev pub AreFree : (P : PortGraph) → PortGraphLaws P → PortGraph.Graph P → Map ℕ ValueRef → Type 0
AreFree P laws g [] = Unit
AreFree P laws g ((port, source) ∷ to_link) =
    (PortGraphLaws.is_input laws g port ≡ true)
    × (target P g port ≡ none)
    × AreFree P laws g to_link

module _ {P : PortGraph} (laws : PortGraphLaws P) where
  open laws use {is_input, input_link, target_link, target_other}

  link_found-target :
      (g : PortGraph.Graph P) (to : ℕ) (found : Option ℕ) {g' : PortGraph.Graph P}
      → is_input g to ≡ true
      → target P g to ≡ none
      → link_found P g to found ≡ ok g'
      → target P g' to ≡ found
  link_found-target g to none i n h = rw (← ok-injective h) n
  link_found-target g to (some from) {g'} i n h = target_link g g' from to h i n

  link_found-input :
      (g : PortGraph.Graph P) (to p : ℕ) (found : Option ℕ) {g' : PortGraph.Graph P}
      → is_input g p ≡ true
      → link_found P g to found ≡ ok g'
      → is_input g' p ≡ true
  link_found-input g to p none i h = rw (← ok-injective h) i
  link_found-input g to p (some from) {g'} i h = input_link g g' from to p h i

  link_found-other :
      (g : PortGraph.Graph P) (to p : ℕ) (found : Option ℕ) {g' : PortGraph.Graph P}
      → is_input g to ≡ true
      → is_input g p ≡ true
      → (to == p) ≡ false
      → link_found P g to found ≡ ok g'
      → (is_input g' p ≡ true) × (target P g' p ≡ target P g p)
  link_found-other g to p none i j d h = rw (← ok-injective h) (j, refl)
  link_found-other g to p (some from) {g'} i j d h =
      (input_link g g' from to p h j, target_other g g' from to p h i j d)

  AreFree-link :
      (g : PortGraph.Graph P) (to : ℕ) (found : Option ℕ) (to_link : Map ℕ ValueRef)
      {g' : PortGraph.Graph P}
      → is_input g to ≡ true
      → get to_link to ≡ none
      → link_found P g to found ≡ ok g'
      → AreFree P laws g to_link
      → AreFree P laws g' to_link
  unfolding get
  AreFree-link g to found [] i n h f = tt
  AreFree-link g to found ((port, source) ∷ to_link) i n h f = elim (Bool-cases (port == to)) [
    | inl same ↦ (let wrong : some source ≡ none = rw same at n in absurd (cc))
    | inr other ↦
        let kept =
          link_found-other g to port found i f.0
            (ground (arith, nat_beq_iff to port, nat_beq_iff port to)) h in
        (kept.0, kept.1 ∙ f.1, AreFree-link g to found to_link i (rw other at n) h f.2)
  ]

  link_all-other :
      {J : Type 0} (s : ConversionState P J) (to_link : Map ℕ ValueRef) (g : PortGraph.Graph P)
      (p : ℕ) {g' : PortGraph.Graph P}
      → Unique to_link
      → AreFree P laws g to_link
      → is_input g p ≡ true
      → get to_link p ≡ none
      → link_all s to_link g ≡ ok g'
      → target P g' p ≡ target P g p
  unfolding link_all get
  link_all-other s [] g p u f i n h = rw (← ok-injective h) refl
  link_all-other s ((port, source) ∷ to_link) g p {g'} u f i n h =
      let (found, e1, h1) =
        >>=-eq-ok (source_of s source)
          (λ out_port. link_found P g port out_port >>= λ linked. link_all s to_link linked) h in
      let (linked, e2, h2) =
        >>=-eq-ok (link_found P g port found) (λ linked. link_all s to_link linked) h1 in
      elim (Bool-cases (port == p)) [
        | inl same ↦ (let wrong : some source ≡ none = rw same at n in absurd (cc))
        | inr other ↦
            let kept = link_found-other g port p found f.0 i other e2 in
            link_all-other s to_link linked p u.1 (AreFree-link g port found to_link f.0 u.0 e2 f.2)
              kept.0 (rw other at n) h2
            ∙ kept.1
      ]

  pub link_all_lem :
      {J : Type 0} (s : ConversionState P J) (to_link : Map ℕ ValueRef) (g : PortGraph.Graph P)
      (p : ℕ) {source : ValueRef} {g' : PortGraph.Graph P}
      → Unique to_link
      → AreFree P laws g to_link
      → get to_link p ≡ some source
      → link_all s to_link g ≡ ok g'
      → source_of s source ≡ ok (target P g' p)
  unfolding link_all get
  link_all_lem s [] g p u f n h = absurd (cc)
  link_all_lem s ((port, from) ∷ to_link) g p {source} {g'} u f n h =
      let (found, e1, h1) =
        >>=-eq-ok (source_of s from)
          (λ out_port. link_found P g port out_port >>= λ linked. link_all s to_link linked) h in
      let (linked, e2, h2) =
        >>=-eq-ok (link_found P g port found) (λ linked. link_all s to_link linked) h1 in
      let free = AreFree-link g port found to_link f.0 u.0 e2 f.2 in
      elim (Bool-cases (port == p)) [
        | inl same ↦
            let here : port ≡ p = (nat_beq_iff port p).0 same in
            let named : from ≡ source = (let e = rw same at n in cc) in
            let set = link_found-target g port found f.0 f.1 e2 in
            let later =
              link_all-other s to_link linked port u.1 free
                (link_found-input g port port found f.0 e2) u.0 h2 in
            rw (← here, ← named) (e1 ∙ ap ok (sym (later ∙ set)))
        | inr other ↦ link_all_lem s to_link linked p u.1 free (rw other at n) h2
      ]
