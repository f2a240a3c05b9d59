-- ===== src/LinkedList/Tests.antt =====
-- The theorems on src/list.c at a list of two nodes.
use nibras_os.Prelude.{ℕ, refl, [], ◌∷◌, arith, if◌then◌else◌, ◌==◌}
use nibras_os.LinkedList.{Node, LinkedList}
use nibras_os.LinkedList.Queue.{Holds}

abbrev nodes : ℕ → Node
nodes a = record { prev = if a == 8 then 4 else 0; next = if a == 4 then 8 else 0; val = a ∷ [] }

abbrev two : LinkedList
two = record { head = 4; tail = 8; size = 2; nodes = nodes; freed = [] }

two-Holds : Holds two (4 ∷ 8 ∷ [])
two-Holds = ((refl, omega arith, refl, (refl, omega arith, refl, (refl, refl))), refl)
