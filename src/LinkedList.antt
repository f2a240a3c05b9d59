-- ===== src/LinkedList.antt =====
-- src/list.c, the doubly linked list. A node is a number, NULL is 0; `nodes` is the memory the numbers
-- lead to. A new node is at the address `fresh`; `kfree` leaves the memory as it is, and `freed` lists
-- its calls.
pub mod Queue
mod Tests
use nibras_os.Prelude.{
  ℕ, zero, suc, ◌+◌, ◌-◌, ◌%◌, ◌<◌, ◌≡◌, Bool, true, false, Option, none, some, List, [], ◌∷◌,
  if◌then◌else◌, ◌==◌, ltb, leb,
}

pub record Node : Type 0 where
  prev : ℕ
  next : ℕ
  val : List ℕ

pub record LinkedList : Type 0 where
  head : ℕ
  tail : ℕ
  size : ℕ
  nodes : ℕ → Node
  freed : List ℕ

unfoldable pub put : (ℕ → Node) → ℕ → Node → ℕ → Node
put nodes a n b = if b == a then n else nodes b

unfoldable pub list_create : (ℕ → Node) → LinkedList
list_create nodes = record { head = 0; tail = 0; size = 0; nodes = nodes; freed = [] }

-- `list->head->prev = t` is done for an empty list too, at the address NULL.
unfoldable pub list_insert_front : LinkedList → ℕ → List ℕ → LinkedList
unfolding put
list_insert_front l fresh val =
    let nodes1 = put (l.nodes) (l.head) (record (l.nodes (l.head)) { prev = fresh }) in
    record l {
      head = fresh;
      tail = if l.head == 0 then fresh else l.tail;
      size = l.size + 1;
      nodes = put nodes1 fresh (record { prev = 0; next = l.head; val = val });
    }

unfoldable pub list_insert_back : LinkedList → ℕ → List ℕ → LinkedList
unfolding put
list_insert_back l fresh val =
    let nodes1 = put (l.nodes) fresh (record { prev = l.tail; next = 0; val = val }) in
    record l {
      head = if l.head == 0 then fresh else l.head;
      tail = fresh;
      size = l.size + 1;
      nodes =
          if l.tail == 0
          then nodes1
          else put nodes1 (l.tail) (record (nodes1 (l.tail)) { next = fresh });
    }

-- The value of the node that is removed; `none` for an empty list.
unfoldable pub list_remove_front : LinkedList → LinkedList × Option (List ℕ)
unfolding put
list_remove_front l =
    let t = l.head in
    let next = (l.nodes t).next in
    if t == 0 then (l, none) else (
      record l {
        head = next;
        size = l.size - 1;
        nodes =
            if next == 0 then l.nodes else put (l.nodes) next (record (l.nodes next) { prev = 0 });
        freed = t ∷ l.freed;
      },
      some ((l.nodes t).val),
    )

-- `prev` becomes the tail and the end of the list.
unfoldable pub drop_to : LinkedList → ℕ → LinkedList
unfolding put
drop_to l prev = record l {
  tail = prev;
  size = l.size - 1;
  nodes = if prev == 0 then l.nodes else put (l.nodes) prev (record (l.nodes prev) { next = 0 });
}

unfoldable pub drop_tail : LinkedList → LinkedList
unfolding drop_to
drop_tail l = drop_to l ((l.nodes (l.tail)).prev)

unfoldable pub list_remove_back : LinkedList → LinkedList × Option (List ℕ)
unfolding drop_tail
list_remove_back l =
    if l.head == 0
    then (l, none)
    else (record (drop_tail l) { freed = l.tail ∷ l.freed }, some ((l.nodes (l.tail)).val))

-- The node, which is not freed; `none` is NULL.
unfoldable pub list_pop : LinkedList → LinkedList × Option ℕ
unfolding drop_tail
list_pop l = if l.head == 0 then (l, none) else (drop_tail l, some (l.tail))

unfoldable pub list_remove_node : LinkedList → ℕ → LinkedList × Option (List ℕ)
unfolding list_remove_front list_remove_back put
list_remove_node l node =
    let n = l.nodes node in
    let nodes1 = put (l.nodes) (n.next) (record (l.nodes (n.next)) { prev = n.prev }) in
    let nodes2 = put nodes1 (n.prev) (record (nodes1 (n.prev)) { next = (nodes1 node).next }) in
    if l.head == node
    then list_remove_front l
    else if l.tail == node
    then list_remove_back l
    else (record l { size = l.size - 1; nodes = nodes2; freed = node ∷ l.freed }, some (n.val))

unfoldable pub list_push : LinkedList → ℕ → List ℕ → LinkedList
unfolding list_insert_back
list_push l fresh val = list_insert_back l fresh val

unfoldable pub list_enqueue : LinkedList → ℕ → List ℕ → LinkedList
unfolding list_insert_front
list_enqueue l fresh val = list_insert_front l fresh val

unfoldable pub list_dequeue : LinkedList → LinkedList × Option ℕ
unfolding list_pop
list_dequeue l = list_pop l

unfoldable pub list_peek_front : LinkedList → Option (List ℕ)
list_peek_front l = if l.head == 0 then none else some ((l.nodes (l.head)).val)

unfoldable pub list_peek_back : LinkedList → Option (List ℕ)
list_peek_back l = if l.tail == 0 then none else some ((l.nodes (l.tail)).val)

-- `foreach`, from `curr` at the node `t` on, on fuel.
unfoldable pub node_at : ℕ → (ℕ → Node) → ℕ → ℕ → Option ℕ
node_at zero nodes t index = none
node_at (suc n) nodes t zero = if t == 0 then none else some t
node_at (suc n) nodes t (suc index) =
    let rest = node_at n nodes ((nodes t).next) index in if t == 0 then none else rest

unfoldable pub list_get_node_by_index : LinkedList → ℕ → Option ℕ
unfolding node_at
list_get_node_by_index l index =
    if leb (l.size) index then none else node_at (index + 1) (l.nodes) (l.head) index
