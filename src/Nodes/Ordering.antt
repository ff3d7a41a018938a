-- ===== src/Nodes/Ordering.antt =====
-- The two orders of nodes in engine/llm_nodes.py are total and transitive.
use resu_align_lite.Prelude.{ℕ, ◌≡◌, refl, true, false, List, [], ◌∷◌, arith}
use resu_align_lite.Prelude.Search.{codes, not_after}
use resu_align_lite.Nodes.{Node, created_order, priority_order}

not_after_total : (s t : List ℕ) → not_after s t ≡ false → not_after t s ≡ true
not_after_total [] t h = cc
not_after_total (c ∷ s) [] h = refl
not_after_total (c ∷ s) (d ∷ t) h = ground (arith, not_after_total s t)

not_after_trans :
    (s t u : List ℕ) → not_after s t ≡ true → not_after t u ≡ true → not_after s u ≡ true
not_after_trans [] t u h k = refl
not_after_trans (c ∷ s) [] u h k = cc
not_after_trans (c ∷ s) (d ∷ t) [] h k = cc
not_after_trans (c ∷ s) (d ∷ t) (e ∷ u) h k = ground (arith, not_after_trans s t u)

pub created_order_total : (n m : Node) → created_order n m ≡ false → created_order m n ≡ true
unfolding created_order
created_order_total n m h = ground (arith, not_after_total (codes n.node_id) (codes m.node_id))

pub created_order_trans :
    (n m k : Node) → created_order n m ≡ true → created_order m k ≡ true → created_order n k ≡ true
unfolding created_order
created_order_trans n m k g h =
    ground (arith, not_after_trans (codes n.node_id) (codes m.node_id) (codes k.node_id))

pub priority_order_total : (n m : Node) → priority_order n m ≡ false → priority_order m n ≡ true
unfolding priority_order
priority_order_total n m h = ground arith

pub priority_order_trans :
    (n m k : Node)
    → priority_order n m ≡ true
    → priority_order m k ≡ true
    → priority_order n k ≡ true
unfolding priority_order
priority_order_trans n m k g h = ground arith
