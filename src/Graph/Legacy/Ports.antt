-- ===== src/Graph/Legacy/Ports.antt =====
-- How the conversion of tierkreis/src/graph.rs names the input ports of a node, and what it notes
-- to be linked to them.
use tierkreis.Base.{
  ℕ, ◌≤◌, ◌≡◌, refl, ◌∙◌, String, true, false, ◌==◌, none, some, List, [], ◌∷◌, contains, arith,
  nat_eq, string_eq, Bool-cases, inl, inr, nat_beq_iff, length,
}
use tierkreis.Base.Map.{Map, get, insert, Unique, get-insert_other, get-insert_self}
use tierkreis.Graph.{index_ports}
use tierkreis.Graph.Legacy.{ValueRef, link_later, keys}
use tierkreis.Graph.Legacy.Laws.{Distinct}

pub no_reference : (name : String) {source : ValueRef} → get [] name ≡ some source → ⊥
unfolding get
no_reference name h = cc

pub get-link_later_other :
    (ports : List ℕ) (references : Map String ValueRef) (m : Map ℕ ValueRef) (p : ℕ)
    → contains ports p ≡ false
    → get (link_later ports references m) p ≡ get m p
unfolding link_later
get-link_later_other [] references m p h = refl
get-link_later_other (port ∷ ports) [] m p h = refl
get-link_later_other (port ∷ ports) ((name, source) ∷ references) m p h =
    get-link_later_other ports references (insert m port source) p (ground (arith, h))
    ∙ get-insert_other m port p source (ground (arith, h))

get-index_ports_other :
    (ports : List ℕ) (references : Map String ValueRef) (indices : Map String ℕ) (name : String)
    → get references name ≡ none
    → get (index_ports ports (keys references) indices) name ≡ get indices name
unfolding index_ports get
get-index_ports_other [] references indices name h = refl
get-index_ports_other (port ∷ ports) [] indices name h = refl
get-index_ports_other (port ∷ ports) ((other, source) ∷ references) indices name h =
    elim (Bool-cases (other == name)) [
      | inl same ↦ ground (arith, rw same at h)
      | inr differs ↦
          get-index_ports_other ports references (insert indices other port) name (rw differs at h)
          ∙ get-insert_other indices other name port differs
    ]

-- a port is named by a reference and is to be linked to its source
pub get-link_later :
    (ports : List ℕ) (references : Map String ValueRef) (indices : Map String ℕ)
    (m : Map ℕ ValueRef) (name : String) {source : ValueRef}
    → Distinct ports
    → Unique references
    → length references ≤ length ports
    → get references name ≡ some source
    → (port : ℕ) × (get (index_ports ports (keys references) indices) name ≡ some port)
      × (contains ports port ≡ true)
      × (get (link_later ports references m) port ≡ some source)
unfolding index_ports link_later get
get-link_later [] [] indices m name d u l h = ground (arith, h)
get-link_later [] (r ∷ references) indices m name d u l h = absurd (omega arith)
get-link_later (port ∷ ports) [] indices m name d u l h = ground (arith, h)
get-link_later (port ∷ ports) ((other, from) ∷ references) indices m name {source} d u l h =
    elim (Bool-cases (other == name)) [
      | inl same ↦
          let here : other ≡ name = (string_eq.beq_iff other name).0 same in
          let named : some from ≡ some source = rw same at h in
          (
            port,
            get-index_ports_other ports references (insert indices other port) name (rw here at u.0)
                ∙ rw here (get-insert_self indices name port),
            ground (arith, nat_beq_iff port port),
            get-link_later_other ports references (insert m port from) port d.0
                ∙ get-insert_self m port from
                ∙ named,
          )
      | inr differs ↦
          let (found, indexed, among, linked) =
            get-link_later ports references (insert indices other port) (insert m port from) name
              d.1 u.1 (omega arith) (rw differs at h) in
          (found, indexed, ground (arith, among), linked)
    ]
