-- ===== src/LinkedList/Queue.antt =====
-- The list of src/list.c as a sequence of nodes.
use nibras_os.Prelude.{
  ℕ, zero, suc, ◌+◌, ◌≤◌, ◌<◌, ◌≡◌, refl, ◌≢◌, inl, inr, none, some, List, [], ◌∷◌, arith, ◌==◌,
  leb, ne→==, eq→==, ==→eq, length, get_elem?, Bool-cases, ap, sym, ◌∙◌,
}
use nibras_os.LinkedList.{
  Node, LinkedList, put, list_insert_back, list_push, list_pop, drop_tail, drop_to, node_at,
  list_get_node_by_index, list_create,
}

put_self : (nodes : ℕ → Node) (a : ℕ) (n : Node) → put nodes a n a ≡ n
unfolding put
put_self nodes a n = rw (eq→== a a refl) refl

put-ne : (nodes : ℕ → Node) (a b : ℕ) (n : Node) → b ≢ a → put nodes a n b ≡ nodes b
unfolding put
put-ne nodes a b n ne = rw (ne→== b a ne) refl

-- From the node `a` on, behind the node `p`, the nodes are `bs`, linked in both directions, and the last
-- one is `z` (`p` when there is none).
abbrev pub Linked : (ℕ → Node) → ℕ → ℕ → List ℕ → ℕ → Type 0
Linked nodes p a [] z = (a ≡ 0) × (p ≡ z)
Linked nodes p a (b ∷ bs) z =
    (a ≡ b) × (b ≢ 0) × ((nodes b).prev ≡ p) × Linked nodes b ((nodes b).next) bs z

-- The list is the sequence `bs` of nodes.
abbrev pub Holds : LinkedList → List ℕ → Type 0
Holds l bs = Linked (l.nodes) 0 (l.head) bs (l.tail) × (l.size ≡ length bs)

node_at-Linked :
    (nodes : ℕ → Node) (p a : ℕ) (bs : List ℕ) (z fuel i : ℕ)
    → Linked nodes p a bs z
    → i < fuel
    → node_at fuel nodes a i ≡ get_elem? bs i
unfolding node_at
node_at-Linked nodes p a bs z zero i w l = absurd (omega arith)
node_at-Linked nodes p a [] z (suc n) zero (e, q) l = rw e refl
node_at-Linked nodes p a [] z (suc n) (suc i) (e, q) l = rw e refl
node_at-Linked nodes p a (b ∷ bs) z (suc n) zero (e, nz, q, w) l = rw (e, ne→== b 0 nz) refl
node_at-Linked nodes p a (b ∷ bs) z (suc n) (suc i) (e, nz, q, w) l =
    rw (e, ne→== b 0 nz) (node_at-Linked nodes b ((nodes b).next) bs z n i w (omega arith))

get_elem?-none : (bs : List ℕ) (i : ℕ) → length bs ≤ i → get_elem? bs i ≡ none
get_elem?-none [] i l = refl
get_elem?-none (b ∷ bs) zero l = absurd (omega arith)
get_elem?-none (b ∷ bs) (suc i) l = get_elem?-none bs i (omega arith)

-- In a list whose nodes are linked in a sequence, the node at an index is the one at that place of
-- the sequence, and NULL from its length on.
pub list_get_node_by_index-Holds :
    (l : LinkedList) (bs : List ℕ) (i : ℕ)
    → Holds l bs
    → list_get_node_by_index l i ≡ get_elem? bs i
unfolding list_get_node_by_index
list_get_node_by_index-Holds l bs i (w, n) = elim (Bool-cases (leb (l.size) i)) [
  | inl le ↦ rw le (sym (get_elem?-none bs i (ground arith)))
  | inr lt ↦ rw lt (node_at-Linked (l.nodes) 0 (l.head) bs (l.tail) (i + 1) i w (omega arith))
]

abbrev end_node : LinkedList → List ℕ → Node
end_node l val = record { prev = l.tail; next = 0; val = val }

abbrev link_to : ℕ → Node → Node
link_to a n = record n { next = a }

-- The list with a node behind a tail that exists.
abbrev pushed : LinkedList → ℕ → List ℕ → LinkedList
pushed l fresh val = record l {
  tail = fresh;
  size = l.size + 1;
  nodes =
      put (put (l.nodes) fresh (end_node l val)) (l.tail)
        (link_to fresh (put (l.nodes) fresh (end_node l val) (l.tail)));
}

list_push-pushed :
    (l : LinkedList) (fresh : ℕ) (val : List ℕ)
    → l.head ≢ 0
    → l.tail ≢ 0
    → list_push l fresh val ≡ pushed l fresh val
unfolding list_push list_insert_back
list_push-pushed l fresh val h t =
    rw (list_push, list_insert_back, ne→== (l.head) 0 h, ne→== (l.tail) 0 t) refl

list_pop-drop :
    (l : LinkedList) (prev : ℕ)
    → l.head ≢ 0
    → (l.nodes (l.tail)).prev ≡ prev
    → list_pop l ≡ (drop_to l prev, some (l.tail))
unfolding list_pop drop_tail
list_pop-drop l prev h e =
    rw (list_pop, ne→== (l.head) 0 h) (ap (λ q. (drop_to l q, some (l.tail))) e)

dropped-nodes :
    (l : LinkedList) (fresh : ℕ) (val : List ℕ) (x : ℕ)
    → l.tail ≢ 0
    → fresh ≢ l.tail
    → (l.nodes (l.tail)).next ≡ 0
    → x ≢ fresh
    → (drop_to (pushed l fresh val) (l.tail)).nodes x ≡ l.nodes x
unfolding drop_to
dropped-nodes l fresh val x t ft last xf =
    let n1 = put (l.nodes) fresh (end_node l val) in
    let n2 = put n1 (l.tail) (link_to fresh (n1 (l.tail))) in
    let old : n1 (l.tail) ≡ l.nodes (l.tail) =
      put-ne (l.nodes) fresh (l.tail) (end_node l val) (λ e. ft (sym e)) in
    rw (ne→== (l.tail) 0 t) (elim (Bool-cases (x == l.tail)) [
      | inl e ↦
          let q : x ≡ l.tail = ==→eq x (l.tail) e in
          ap (put n2 (l.tail) (link_to 0 (n2 (l.tail)))) q
          ∙ put_self n2 (l.tail) (link_to 0 (n2 (l.tail)))
          ∙ ap (link_to 0) (put_self n1 (l.tail) (link_to fresh (n1 (l.tail))))
          ∙ ap (link_to 0) old
          ∙ ap (λ k. link_to k (l.nodes (l.tail))) (sym last)
          ∙ ap (l.nodes) (sym q)
      | inr e ↦
          let ne : x ≢ l.tail = ground arith in
          put-ne n2 (l.tail) x (link_to 0 (n2 (l.tail))) ne
          ∙ put-ne n1 (l.tail) x (link_to fresh (n1 (l.tail))) ne
          ∙ put-ne (l.nodes) fresh x (end_node l val) xf
    ])

-- When the list was not empty, its last node has no next one, and the memory of the new node is not
-- that of the last one, taking off the end what was just put there restores the list: its ends, its
-- size and each of its nodes.
pub list_pop-push :
    (l : LinkedList) (fresh : ℕ) (val : List ℕ)
    → l.head ≢ 0
    → l.tail ≢ 0
    → fresh ≢ l.tail
    → (l.nodes (l.tail)).next ≡ 0
    → (l1 : LinkedList) × (list_pop (list_push l fresh val) ≡ (l1, some fresh))
      × (l1.head ≡ l.head)
      × (l1.tail ≡ l.tail)
      × (l1.size ≡ l.size)
      × ((x : ℕ) → x ≢ fresh → l1.nodes x ≡ l.nodes x)
unfolding drop_to
list_pop-push l fresh val h t ft last =
    let m = pushed l fresh val in
    let n1 = put (l.nodes) fresh (end_node l val) in
    let behind : (m.nodes fresh).prev ≡ l.tail =
      ap (λ n. n.prev)
        (put-ne n1 (l.tail) fresh (link_to fresh (n1 (l.tail))) ft
          ∙ put_self (l.nodes) fresh (end_node l val)) in
    (
      drop_to m (l.tail),
      ap list_pop (list_push-pushed l fresh val h t) ∙ list_pop-drop m (l.tail) h behind,
      refl,
      refl,
      omega arith,
      λ x xf. dropped-nodes l fresh val x t ft last xf,
    )

list_pop-some : (l : LinkedList) → l.head ≢ 0 → list_pop l ≡ (drop_tail l, some (l.tail))
unfolding list_pop
list_pop-some l h = rw (list_pop, ne→== (l.head) 0 h) refl

-- Popping the only node leaves `head` at it while the size is 0 and the tail NULL: the list is not
-- empty for `list_pop`, which then hands out the node NULL.
pub list_pop-push_empty :
    (nodes : ℕ → Node) (fresh : ℕ) (val : List ℕ)
    → fresh ≢ 0
    → (l1 : LinkedList) × (list_pop (list_push (list_create nodes) fresh val) ≡ (l1, some fresh))
      × (l1.head ≡ fresh)
      × (l1.tail ≡ 0)
      × (l1.size ≡ 0)
      × ((list_pop l1).1 ≡ some 0)
unfolding list_pop list_push list_insert_back drop_tail drop_to list_create
list_pop-push_empty nodes fresh val nz =
    let n = put nodes fresh (record { prev = 0; next = 0; val = val }) in
    let m : LinkedList = record { head = fresh; tail = fresh; size = 1; nodes = n; freed = [] } in
    let behind : (n fresh).prev ≡ 0 =
      ap (λ t. t.prev) (put_self nodes fresh (record { prev = 0; next = 0; val = val })) in
    (
      drop_to m 0,
      list_pop-drop m 0 nz behind,
      refl,
      refl,
      refl,
      ap (λ t. t.1) (list_pop-some (drop_to m 0) nz),
    )
