-- ===== src/Examples/Storage.antt =====
-- Two expressions, and one that is made twice, in a new table whose hash codes are all 7.
use gazer.Base.{ℕ, ◌*◌, ◌<◌, ◌≡◌, ◌↔◌, refl, ap, inl, inr, [], ◌∷◌, ok, ◌>>=◌, arith}
use gazer.Base.Memᴰ
use gazer.Support.Graph.{update}
use gazer.Core.Ty.{Ty, equals}
use gazer.Core.Expr.{Expr}
use gazer.Walker.Order.{operands}
use gazer.Core.Storage.{Hasher, Entry, Storage, new_storage, create_if_not_exists, destroy}
use gazer.Core.Storage.Chains.{total}
use gazer.Core.Storage.Interned.{Stored, IsFresh, IsInterned, added-Stored}
use gazer.Core.Storage.Created.{
  create_if_not_exists-Made, create_if_not_exists-IsInterned, create_all, create_if_not_exists-same,
  create_all-load, new_storage-IsInterned,
}
use gazer.Core.Storage.Nodes.{Node, node_hasher, same_node, undef}
use gazer.Core.Storage.Trees.{node_of, Denotes, nothing_more, address-eq_iff}
use gazer.Core.Storage.Build.{create_if_not_exists-Denotes}

abbrev sevens : Node → ℕ
sevens n = 7

instance abbrev sevens_hasher : Hasher Node
sevens_hasher = node_hasher sevens

abbrev undef_bool : Node
undef_bool = undef Ty.bool

abbrev undef_int : Node
undef_int = undef Ty.int

abbrev with_bool : Storage Node
with_bool = (create_if_not_exists 100 undef_bool new_storage).1

nothing_stored : (address : ℕ) → IsFresh (new_storage {K = Node}) address
unfolding IsFresh new_storage Stored
nothing_stored address e (i, m) = absurd (Memᴰ.not-nil m)

only_at_100 : IsFresh with_bool 200
unfolding IsFresh create_if_not_exists new_storage
only_at_100 e stored is = elim (added-Stored 100 undef_bool new_storage e stored) [
  | inl same ↦ absurd (omega (arith, ap (λ (x : Entry Node). x.address) same, is))
  | inr before ↦ nothing_stored 200 e before is
]

with_bool-IsInterned : IsInterned with_bool
with_bool-IsInterned =
    (create_if_not_exists-Made 100 undef_bool new_storage new_storage-IsInterned
      (nothing_stored 100)).interned

create_if_not_exists-IsInterned_example :
    IsInterned with_bool
    × ((e : Entry Node) × Stored with_bool e
        × (e.node ≡ undef_bool)
        × (e.address ≡ (create_if_not_exists 100 undef_bool new_storage).0))
create_if_not_exists-IsInterned_example =
    create_if_not_exists-IsInterned 100 undef_bool new_storage new_storage-IsInterned
      (nothing_stored 100)

create_if_not_exists-same_example :
    ((create_if_not_exists 100 undef_bool new_storage).0
      ≡ (create_if_not_exists 200 undef_int with_bool).0)
    ↔ (undef_bool ≡ undef_int)
create_if_not_exists-same_example =
    create_if_not_exists-same new_storage 100 200 undef_bool undef_int [] new_storage-IsInterned
      (nothing_stored 100) tt only_at_100

create_all-load_example :
    total
        (create_all ((100, undef_bool) ∷ (200, undef_int) ∷ []) new_storage).bucket_count
        (create_all ((100, undef_bool) ∷ (200, undef_int) ∷ []) new_storage).buckets
      * 4
    < (create_all ((100, undef_bool) ∷ (200, undef_int) ∷ []) new_storage).bucket_count * 3
create_all-load_example =
    create_all-load ((100, undef_bool) ∷ (200, undef_int) ∷ [])
      (nothing_stored 100, (only_at_100, tt))

create_if_not_exists-Denotes_example :
    Denotes
      (create_if_not_exists 100 (node_of (Expr.undef Ty.bool) []) new_storage).1
      (create_if_not_exists 100 (node_of (Expr.undef Ty.bool) []) new_storage).0
      (Expr.undef Ty.bool)
unfolding operands
create_if_not_exists-Denotes_example =
    create_if_not_exists-Denotes sevens new_storage 100 (Expr.undef Ty.bool) []
      new_storage-IsInterned (nothing_stored 100) nothing_more

made_twice : (create_if_not_exists 300 undef_bool with_bool).0 ≡ 100
unfolding create_if_not_exists same_node new_storage equals
made_twice = refl

destroyed :
    (destroy (record { address = 100; node = undef_bool; hash_code = 7 }) with_bool >>= λ s.
    ok s.entry_count)
    ≡ ok 0
unfolding create_if_not_exists same_node new_storage equals destroy update
destroyed = refl

bool_at_100 : Denotes with_bool 100 (Expr.undef Ty.bool)
unfolding create_if_not_exists new_storage node_of operands
bool_at_100 =
    create_if_not_exists-Denotes sevens new_storage 100 (Expr.undef Ty.bool) []
      new_storage-IsInterned (nothing_stored 100) nothing_more

address-eq_iff_example : (◌≡◌ {A = ℕ} 100 100) ↔ (Expr.undef Ty.bool ≡ Expr.undef Ty.bool)
address-eq_iff_example =
    address-eq_iff sevens with_bool with_bool-IsInterned.table 100 100 (Expr.undef Ty.bool)
      (Expr.undef Ty.bool) bool_at_100 bool_at_100
