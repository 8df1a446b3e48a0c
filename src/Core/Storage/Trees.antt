-- ===== src/Core/Storage/Trees.antt =====
-- Expressions as the table holds them: an address for each, in whose node the operands are addresses.
use gazer.Base.{ℕ, ◌≡◌, ◌↔◌, refl, sym, ap, ap₂, ◌∙◌, subst, List, [], ◌∷◌, Option, none, some}
use gazer.Core.Ty.{Ty, Tys}
use gazer.Core.Expr.{Expr, type_of}
use gazer.Walker.Order.{operands, from_list, from_list-to_list}
use gazer.Core.Storage.{Entry, Storage}
use gazer.Core.Storage.Interned.{Stored, IsTable}
use gazer.Core.Storage.Nodes.{Node, PlainKind, RoundedKind, node_hasher}

-- The node of an expression whose operands are at the addresses.
unfoldable pub node_of : Expr → List ℕ → Node
unfolding type_of
node_of (Expr.undef t) ops = Node.undef t
node_of (Expr.literal l) ops = Node.literal l
node_of (Expr.var_ref v) ops = Node.var_ref v
node_of (Expr.not_expr e) ops = Node.plain PlainKind.not_kind (type_of (Expr.not_expr e)) ops
node_of (Expr.zext e w) ops = Node.plain PlainKind.zext_kind (type_of (Expr.zext e w)) ops
node_of (Expr.sext e w) ops = Node.plain PlainKind.sext_kind (type_of (Expr.sext e w)) ops
node_of (Expr.extract e o w) ops = Node.extract (type_of (Expr.extract e o w)) ops o w
node_of (Expr.arithmetic k l r) ops =
    Node.plain (PlainKind.arithmetic_kind k) (type_of (Expr.arithmetic k l r)) ops
node_of (Expr.bv_concat l r) ops =
    Node.plain PlainKind.bv_concat_kind (type_of (Expr.bv_concat l r)) ops
node_of (Expr.and_expr es) ops = Node.plain PlainKind.and_kind (type_of (Expr.and_expr es)) ops
node_of (Expr.or_expr es) ops = Node.plain PlainKind.or_kind (type_of (Expr.or_expr es)) ops
node_of (Expr.imply l r) ops = Node.plain PlainKind.imply_kind (type_of (Expr.imply l r)) ops
node_of (Expr.comparison k l r) ops =
    Node.plain (PlainKind.compare_kind k) (type_of (Expr.comparison k l r)) ops
node_of (Expr.fp_query k e) ops =
    Node.plain (PlainKind.fp_query_kind k) (type_of (Expr.fp_query k e)) ops
node_of (Expr.fp_cast k e t m) ops =
    Node.rounded (RoundedKind.fp_cast_kind k) (type_of (Expr.fp_cast k e t m)) ops m
node_of (Expr.bit_cast k e t) ops =
    Node.plain (PlainKind.bit_cast_kind k) (type_of (Expr.bit_cast k e t)) ops
node_of (Expr.fp_arithmetic k l r m) ops =
    Node.rounded (RoundedKind.fp_arithmetic_kind k) (type_of (Expr.fp_arithmetic k l r m)) ops m
node_of (Expr.fp_compare k l r) ops =
    Node.plain (PlainKind.fp_compare_kind k) (type_of (Expr.fp_compare k l r)) ops
node_of (Expr.select c t e) ops = Node.plain PlainKind.select_kind (type_of (Expr.select c t e)) ops
node_of (Expr.array_read a i) ops =
    Node.plain PlainKind.array_read_kind (type_of (Expr.array_read a i)) ops
node_of (Expr.array_write a i v) ops =
    Node.plain PlainKind.array_write_kind (type_of (Expr.array_write a i v)) ops
node_of (Expr.tuple_select e i) ops = Node.tuple_select (type_of (Expr.tuple_select e i)) ops i
node_of (Expr.tuple_construct ts es) ops =
    Node.plain PlainKind.tuple_construct_kind (type_of (Expr.tuple_construct ts es)) ops

-- The addresses in a node, and the expression that it is of, given its operands.
node_operands : Node → List ℕ
node_operands (Node.plain k t ops) = ops
node_operands (Node.rounded k t ops m) = ops
node_operands (Node.extract t ops o w) = ops
node_operands (Node.tuple_select t ops i) = ops
node_operands _ = []

members : Ty → Tys
members (Ty.tuple ts) = ts
members t = Tys.nil

expr_of : Node → List Expr → Option Expr
unfolding from_list members
expr_of (Node.undef t) es = some (Expr.undef t)
expr_of (Node.literal l) es = some (Expr.literal l)
expr_of (Node.var_ref v) es = some (Expr.var_ref v)
expr_of (Node.extract t ops o w) (a ∷ es) = some (Expr.extract a o w)
expr_of (Node.tuple_select t ops i) (a ∷ es) = some (Expr.tuple_select a i)
expr_of (Node.plain PlainKind.not_kind t ops) (a ∷ es) = some (Expr.not_expr a)
expr_of (Node.plain PlainKind.zext_kind (Ty.bv w) ops) (a ∷ es) = some (Expr.zext a w)
expr_of (Node.plain PlainKind.sext_kind (Ty.bv w) ops) (a ∷ es) = some (Expr.sext a w)
expr_of (Node.plain (PlainKind.arithmetic_kind k) t ops) (a ∷ b ∷ es) = some (Expr.arithmetic k a b)
expr_of (Node.plain PlainKind.bv_concat_kind t ops) (a ∷ b ∷ es) = some (Expr.bv_concat a b)
expr_of (Node.plain PlainKind.and_kind t ops) es = some (Expr.and_expr (from_list es))
expr_of (Node.plain PlainKind.or_kind t ops) es = some (Expr.or_expr (from_list es))
expr_of (Node.plain PlainKind.imply_kind t ops) (a ∷ b ∷ es) = some (Expr.imply a b)
expr_of (Node.plain (PlainKind.compare_kind k) t ops) (a ∷ b ∷ es) = some (Expr.comparison k a b)
expr_of (Node.plain (PlainKind.fp_query_kind k) t ops) (a ∷ es) = some (Expr.fp_query k a)
expr_of (Node.rounded (RoundedKind.fp_cast_kind k) t ops m) (a ∷ es) = some (Expr.fp_cast k a t m)
expr_of (Node.plain (PlainKind.bit_cast_kind k) t ops) (a ∷ es) = some (Expr.bit_cast k a t)
expr_of (Node.rounded (RoundedKind.fp_arithmetic_kind k) t ops m) (a ∷ b ∷ es) =
    some (Expr.fp_arithmetic k a b m)
expr_of (Node.plain (PlainKind.fp_compare_kind k) t ops) (a ∷ b ∷ es) = some (Expr.fp_compare k a b)
expr_of (Node.plain PlainKind.select_kind t ops) (a ∷ b ∷ c ∷ es) = some (Expr.select a b c)
expr_of (Node.plain PlainKind.array_read_kind t ops) (a ∷ b ∷ es) = some (Expr.array_read a b)
expr_of (Node.plain PlainKind.array_write_kind t ops) (a ∷ b ∷ c ∷ es) =
    some (Expr.array_write a b c)
expr_of (Node.plain PlainKind.tuple_construct_kind t ops) es =
    some (Expr.tuple_construct (members t) (from_list es))
expr_of _ _ = none

expr_of-node_of : (e : Expr) (ops : List ℕ) → expr_of (node_of e ops) (operands e) ≡ some e
unfolding expr_of node_of operands type_of
expr_of-node_of (Expr.undef t) ops = refl
expr_of-node_of (Expr.literal l) ops = refl
expr_of-node_of (Expr.var_ref v) ops = refl
expr_of-node_of (Expr.not_expr e) ops = refl
expr_of-node_of (Expr.zext e w) ops = refl
expr_of-node_of (Expr.sext e w) ops = refl
expr_of-node_of (Expr.extract e o w) ops = refl
expr_of-node_of (Expr.arithmetic k l r) ops = refl
expr_of-node_of (Expr.bv_concat l r) ops = refl
expr_of-node_of (Expr.and_expr es) ops = ap (λ xs. some (Expr.and_expr xs)) (from_list-to_list es)
expr_of-node_of (Expr.or_expr es) ops = ap (λ xs. some (Expr.or_expr xs)) (from_list-to_list es)
expr_of-node_of (Expr.imply l r) ops = refl
expr_of-node_of (Expr.comparison k l r) ops = refl
expr_of-node_of (Expr.fp_query k e) ops = refl
expr_of-node_of (Expr.fp_cast k e t m) ops = refl
expr_of-node_of (Expr.bit_cast k e t) ops = refl
expr_of-node_of (Expr.fp_arithmetic k l r m) ops = refl
expr_of-node_of (Expr.fp_compare k l r) ops = refl
expr_of-node_of (Expr.select c t e) ops = refl
expr_of-node_of (Expr.array_read a i) ops = refl
expr_of-node_of (Expr.array_write a i v) ops = refl
expr_of-node_of (Expr.tuple_select e i) ops = refl
expr_of-node_of (Expr.tuple_construct ts es) ops =
    ap (λ xs. some (Expr.tuple_construct ts xs)) (from_list-to_list es)

mutual
  -- The table holds the expression at the address.
  pub data Denotes (s : Storage Node) : ℕ → Expr → Type 0 where
    denotes :
        {e : Expr} (x : Entry Node) (ops : List ℕ)
        → Stored s x
        → x.node ≡ node_of e ops
        → DenoteAll s ops (operands e)
        → (a : ℕ) → x.address ≡ a
        → Denotes s a e

  pub data DenoteAll (s : Storage Node) : List ℕ → List Expr → Type 0 where
    nothing_more : DenoteAll s [] []
    then_more :
        {a : ℕ} {e : Expr} {as' : List ℕ} {es : List Expr}
        → Denotes s a e
        → DenoteAll s as' es
        → DenoteAll s (a ∷ as') (e ∷ es)

node_operands-node_of :
    {s : Storage Node} (e : Expr) (ops : List ℕ)
    → DenoteAll s ops (operands e)
    → node_operands (node_of e ops) ≡ ops
unfolding node_operands node_of operands
node_operands-node_of (Expr.undef t) _ nothing_more = refl
node_operands-node_of (Expr.literal l) _ nothing_more = refl
node_operands-node_of (Expr.var_ref v) _ nothing_more = refl
node_operands-node_of (Expr.not_expr e) ops all = refl
node_operands-node_of (Expr.zext e w) ops all = refl
node_operands-node_of (Expr.sext e w) ops all = refl
node_operands-node_of (Expr.extract e o w) ops all = refl
node_operands-node_of (Expr.arithmetic k l r) ops all = refl
node_operands-node_of (Expr.bv_concat l r) ops all = refl
node_operands-node_of (Expr.and_expr es) ops all = refl
node_operands-node_of (Expr.or_expr es) ops all = refl
node_operands-node_of (Expr.imply l r) ops all = refl
node_operands-node_of (Expr.comparison k l r) ops all = refl
node_operands-node_of (Expr.fp_query k e) ops all = refl
node_operands-node_of (Expr.fp_cast k e t m) ops all = refl
node_operands-node_of (Expr.bit_cast k e t) ops all = refl
node_operands-node_of (Expr.fp_arithmetic k l r m) ops all = refl
node_operands-node_of (Expr.fp_compare k l r) ops all = refl
node_operands-node_of (Expr.select c t e) ops all = refl
node_operands-node_of (Expr.array_read a i) ops all = refl
node_operands-node_of (Expr.array_write a i v) ops all = refl
node_operands-node_of (Expr.tuple_select e i) ops all = refl
node_operands-node_of (Expr.tuple_construct ts es) ops all = refl

some-injective : {a b : Expr} → some a ≡ some b → a ≡ b
some-injective h = cc

-- An expression is its node with its operands.
node_of-injective :
    {s : Storage Node} (e f : Expr) (ops ops' : List ℕ)
    → DenoteAll s ops (operands e)
    → DenoteAll s ops' (operands f)
    → node_of e ops ≡ node_of f ops'
    → (ops ≡ ops') × (operands e ≡ operands f → e ≡ f)
node_of-injective e f ops ops' all all' same = (
  sym (node_operands-node_of e ops all) ∙ ap node_operands same ∙ node_operands-node_of f ops' all',
  λ are.
      some-injective (sym (expr_of-node_of e ops) ∙ ap₂ expr_of same are ∙ expr_of-node_of f ops'),
)

module _ (hash : Node → ℕ) (s : Storage Node) (t : IsTable ⦃hasher = node_hasher hash⦄ s) where
  mutual
    expr_at : (a : ℕ) (e f : Expr) → Denotes s a e → Denotes s a f → e ≡ f
    expr_at _ e f (denotes x ops stored node all a at) (denotes y ops' stored' node' all' _ at') =
        let is = t.by_address x y stored stored' (at ∙ sym at') in
        let nodes = sym node ∙ ap (λ (z : Entry Node). z.node) is ∙ node' in
        let (same, whole) = node_of-injective e f ops ops' all all' nodes in
        whole (
          exprs_at ops (operands e) (operands f) all
            (subst (λ l. DenoteAll s l (operands f)) (sym same) all'))

    exprs_at :
        (as' : List ℕ) (es fs : List Expr) → DenoteAll s as' es → DenoteAll s as' fs → es ≡ fs
    exprs_at _ _ _ nothing_more nothing_more = refl
    exprs_at _ _ _ (then_more {a} {e} {as'} {es} d all) (then_more {e = f} {es = fs} d' all') =
        ap₂ (λ x xs. x ∷ xs) (expr_at a e f d d') (exprs_at as' es fs all all')

  mutual
    address_of : (a b : ℕ) (e : Expr) → Denotes s a e → Denotes s b e → a ≡ b
    address_of _ _ e (denotes x ops stored node all a at)
          (denotes y ops' stored' node' all' b at') =
        let same = addresses_of ops ops' (operands e) all all' in
        let is = t.by_node x y stored stored' (node ∙ ap (node_of e) same ∙ sym node') in
        sym at ∙ ap (λ (z : Entry Node). z.address) is ∙ at'

    addresses_of :
        (as' bs : List ℕ) (es : List Expr) → DenoteAll s as' es → DenoteAll s bs es → as' ≡ bs
    addresses_of _ _ _ nothing_more nothing_more = refl
    addresses_of _ _ _ (then_more {a} {e} {as'} {es} d all) (then_more {a = b} {as' = bs} d' all') =
        ap₂ (λ x xs. x ∷ xs) (address_of a b e d d') (addresses_of as' bs es all all')

  -- In a table with one expression for each node and one for each address, each in the bucket of its
  -- hash code, and with the right count and two buckets at least, two addresses are equal exactly where
  -- the expressions that the table holds there have the same structure.
  pub address-eq_iff : (a b : ℕ) (e f : Expr) → Denotes s a e → Denotes s b f → (a ≡ b) ↔ (e ≡ f)
  address-eq_iff a b e f d d' = (
    λ same. expr_at a e f d (subst (λ c. Denotes s c f) (sym same) d'),
    λ same. address_of a b e d (subst (λ g. Denotes s b g) (sym same) d'),
  )
