-- ===== src/Core/Storage/Build.antt =====
-- The Create functions' call of the table: a node over operands that the table holds.
use gazer.Base.{ℕ, List}
use gazer.Core.Expr.{Expr}
use gazer.Walker.Order.{operands}
use gazer.Core.Storage.{Entry, Storage, create_if_not_exists}
use gazer.Core.Storage.Interned.{Stored, IsFresh, IsInterned}
use gazer.Core.Storage.Created.{create_if_not_exists-Made}
use gazer.Core.Storage.Nodes.{Node, node_hasher}
use gazer.Core.Storage.Trees.{node_of, Denotes, DenoteAll, denotes, nothing_more, then_more}

module _ (s s' : Storage Node) (stays : (x : Entry Node) → Stored s x → Stored s' x) where
  mutual
    Denotes-stays : (a : ℕ) (e : Expr) → Denotes s a e → Denotes s' a e
    Denotes-stays _ e (denotes x ops stored node all a at) =
        denotes x ops (stays x stored) node (DenoteAll-stays ops (operands e) all) a at

    DenoteAll-stays : (as' : List ℕ) (es : List Expr) → DenoteAll s as' es → DenoteAll s' as' es
    DenoteAll-stays _ _ nothing_more = nothing_more
    DenoteAll-stays _ _ (then_more {a} {e} {as'} {es} d all) =
        then_more (Denotes-stays a e d) (DenoteAll-stays as' es all)

module _ (hash : Node → ℕ) where
  -- Where the table has one expression for each node and one for each address, each in the bucket of its
  -- hash code, with the right count and less than three entries for four buckets, and holds the operands
  -- of an expression, creation of the expression's node at an address that no expression has returns an
  -- address at which the table then holds the expression.
  pub create_if_not_exists-Denotes :
      (s : Storage Node) (address : ℕ) (e : Expr) (ops : List ℕ)
      → IsInterned ⦃hasher = node_hasher hash⦄ s
      → IsFresh s address
      → DenoteAll s ops (operands e)
      → Denotes
          (create_if_not_exists ⦃hasher = node_hasher hash⦄ address (node_of e ops) s).1
          (create_if_not_exists ⦃hasher = node_hasher hash⦄ address (node_of e ops) s).0
          e
  create_if_not_exists-Denotes s address e ops i fresh all =
      let made =
        create_if_not_exists-Made ⦃hasher = node_hasher hash⦄ address (node_of e ops) s i fresh in
      let (x, stored, node, at) = made.has_node in
      let s' = (create_if_not_exists ⦃hasher = node_hasher hash⦄ address (node_of e ops) s).1 in
      denotes x ops stored node (DenoteAll-stays s s' made.stays ops (operands e) all) _ at
