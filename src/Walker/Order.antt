-- ===== src/Walker/Order.antt =====
-- The operands of an expression (NonNullaryExpr::getOperand), and a post-order traversal by
-- recursion: the results of the operands are handed to `visit` with the expression.
use gazer.Base.{List, [], ◌∷◌, map, ◌≡◌, refl, ap, Result, ok, ◌>>=◌}
use gazer.Core.Expr.{Expr, Exprs}

unfoldable pub to_list : Exprs → List Expr
to_list Exprs.nil = []
to_list (Exprs.cons e es) = e ∷ to_list es

unfoldable pub from_list : List Expr → Exprs
from_list [] = Exprs.nil
from_list (e ∷ es) = Exprs.cons e (from_list es)

pub to_list-from_list : (es : List Expr) → to_list (from_list es) ≡ es
unfolding to_list from_list
to_list-from_list [] = refl
to_list-from_list (e ∷ es) = ap (λ rest. e ∷ rest) (to_list-from_list es)

pub from_list-to_list : (es : Exprs) → from_list (to_list es) ≡ es
unfolding from_list to_list
from_list-to_list Exprs.nil = refl
from_list-to_list (Exprs.cons e es) = ap (λ rest. Exprs.cons e rest) (from_list-to_list es)

unfoldable pub operands : Expr → List Expr
unfolding to_list
operands (Expr.undef t) = []
operands (Expr.literal l) = []
operands (Expr.var_ref v) = []
operands (Expr.not_expr e) = e ∷ []
operands (Expr.zext e w) = e ∷ []
operands (Expr.sext e w) = e ∷ []
operands (Expr.extract e o w) = e ∷ []
operands (Expr.arithmetic k l r) = l ∷ r ∷ []
operands (Expr.bv_concat l r) = l ∷ r ∷ []
operands (Expr.and_expr es) = to_list es
operands (Expr.or_expr es) = to_list es
operands (Expr.imply l r) = l ∷ r ∷ []
operands (Expr.comparison k l r) = l ∷ r ∷ []
operands (Expr.fp_query k e) = e ∷ []
operands (Expr.fp_cast k e t m) = e ∷ []
operands (Expr.bit_cast k e t) = e ∷ []
operands (Expr.fp_arithmetic k l r m) = l ∷ r ∷ []
operands (Expr.fp_compare k l r) = l ∷ r ∷ []
operands (Expr.select c t e) = c ∷ t ∷ e ∷ []
operands (Expr.array_read a i) = a ∷ i ∷ []
operands (Expr.array_write a i v) = a ∷ i ∷ v ∷ []
operands (Expr.tuple_select e i) = e ∷ []
operands (Expr.tuple_construct ts es) = to_list es

-- The results of a list of steps, or the first fault among them.
abbrev pub sequence {ℓ} : {A : Type ℓ} → List (Result A) → Result (List A)
sequence [] = ok []
sequence (m ∷ ms) = m >>= λ a. sequence ms >>= λ as'. ok (a ∷ as')

module _ {R : Type 0} (visit : Expr → List R → Result R) where
  unfoldable mutual
    pub post_order : Expr → Result R
    post_order (Expr.undef t) = visit (Expr.undef t) []
    post_order (Expr.literal l) = visit (Expr.literal l) []
    post_order (Expr.var_ref v) = visit (Expr.var_ref v) []
    post_order (Expr.not_expr e) = sequence (post_order e ∷ []) >>= visit (Expr.not_expr e)
    post_order (Expr.zext e w) = sequence (post_order e ∷ []) >>= visit (Expr.zext e w)
    post_order (Expr.sext e w) = sequence (post_order e ∷ []) >>= visit (Expr.sext e w)
    post_order (Expr.extract e o w) = sequence (post_order e ∷ []) >>= visit (Expr.extract e o w)
    post_order (Expr.arithmetic k l r) =
        sequence (post_order l ∷ post_order r ∷ []) >>= visit (Expr.arithmetic k l r)
    post_order (Expr.bv_concat l r) =
        sequence (post_order l ∷ post_order r ∷ []) >>= visit (Expr.bv_concat l r)
    post_order (Expr.and_expr es) = sequence (post_order_all es) >>= visit (Expr.and_expr es)
    post_order (Expr.or_expr es) = sequence (post_order_all es) >>= visit (Expr.or_expr es)
    post_order (Expr.imply l r) =
        sequence (post_order l ∷ post_order r ∷ []) >>= visit (Expr.imply l r)
    post_order (Expr.comparison k l r) =
        sequence (post_order l ∷ post_order r ∷ []) >>= visit (Expr.comparison k l r)
    post_order (Expr.fp_query k e) = sequence (post_order e ∷ []) >>= visit (Expr.fp_query k e)
    post_order (Expr.fp_cast k e t m) =
        sequence (post_order e ∷ []) >>= visit (Expr.fp_cast k e t m)
    post_order (Expr.bit_cast k e t) = sequence (post_order e ∷ []) >>= visit (Expr.bit_cast k e t)
    post_order (Expr.fp_arithmetic k l r m) =
        sequence (post_order l ∷ post_order r ∷ []) >>= visit (Expr.fp_arithmetic k l r m)
    post_order (Expr.fp_compare k l r) =
        sequence (post_order l ∷ post_order r ∷ []) >>= visit (Expr.fp_compare k l r)
    post_order (Expr.select c t e) =
        sequence (post_order c ∷ post_order t ∷ post_order e ∷ []) >>= visit (Expr.select c t e)
    post_order (Expr.array_read a i) =
        sequence (post_order a ∷ post_order i ∷ []) >>= visit (Expr.array_read a i)
    post_order (Expr.array_write a i v) =
        sequence (post_order a ∷ post_order i ∷ post_order v ∷ [])
        >>= visit (Expr.array_write a i v)
    post_order (Expr.tuple_select e i) =
        sequence (post_order e ∷ []) >>= visit (Expr.tuple_select e i)
    post_order (Expr.tuple_construct ts es) =
        sequence (post_order_all es) >>= visit (Expr.tuple_construct ts es)

    pub post_order_all : Exprs → List (Result R)
    post_order_all Exprs.nil = []
    post_order_all (Exprs.cons e es) = post_order e ∷ post_order_all es

  pub post_order_all-map : (es : Exprs) → post_order_all es ≡ map post_order (to_list es)
  unfolding post_order to_list
  post_order_all-map Exprs.nil = refl
  post_order_all-map (Exprs.cons e es) = ap (λ rest. post_order e ∷ rest) (post_order_all-map es)

  -- One equation for all kinds of expressions.
  pub post_order_lem :
      (e : Expr) → post_order e ≡ (sequence (map post_order (operands e)) >>= visit e)
  unfolding post_order operands
  post_order_lem (Expr.and_expr es) =
      ap (λ rs. sequence rs >>= visit (Expr.and_expr es)) (post_order_all-map es)
  post_order_lem (Expr.or_expr es) =
      ap (λ rs. sequence rs >>= visit (Expr.or_expr es)) (post_order_all-map es)
  post_order_lem (Expr.tuple_construct ts es) =
      ap (λ rs. sequence rs >>= visit (Expr.tuple_construct ts es)) (post_order_all-map es)
  post_order_lem _ = refl

abbrev pub All {ℓ κ} : {A : Type ℓ} → (A → Type κ) → List A → Type κ
All P [] = Unit
All P (x ∷ xs) = P x × All P xs

-- Induction over the operands.
module _ {ℓ} (P : Expr → Type ℓ) (step : (e : Expr) → All P (operands e) → P e) where
  mutual
    unfolding operands to_list

    pub induction : (e : Expr) → P e
    induction (Expr.undef t) = step (Expr.undef t) tt
    induction (Expr.literal l) = step (Expr.literal l) tt
    induction (Expr.var_ref v) = step (Expr.var_ref v) tt
    induction (Expr.not_expr e) = step (Expr.not_expr e) (induction e, tt)
    induction (Expr.zext e w) = step (Expr.zext e w) (induction e, tt)
    induction (Expr.sext e w) = step (Expr.sext e w) (induction e, tt)
    induction (Expr.extract e o w) = step (Expr.extract e o w) (induction e, tt)
    induction (Expr.arithmetic k l r) =
        step (Expr.arithmetic k l r) (induction l, (induction r, tt))
    induction (Expr.bv_concat l r) = step (Expr.bv_concat l r) (induction l, (induction r, tt))
    induction (Expr.and_expr es) = step (Expr.and_expr es) (induction-All es)
    induction (Expr.or_expr es) = step (Expr.or_expr es) (induction-All es)
    induction (Expr.imply l r) = step (Expr.imply l r) (induction l, (induction r, tt))
    induction (Expr.comparison k l r) =
        step (Expr.comparison k l r) (induction l, (induction r, tt))
    induction (Expr.fp_query k e) = step (Expr.fp_query k e) (induction e, tt)
    induction (Expr.fp_cast k e t m) = step (Expr.fp_cast k e t m) (induction e, tt)
    induction (Expr.bit_cast k e t) = step (Expr.bit_cast k e t) (induction e, tt)
    induction (Expr.fp_arithmetic k l r m) =
        step (Expr.fp_arithmetic k l r m) (induction l, (induction r, tt))
    induction (Expr.fp_compare k l r) =
        step (Expr.fp_compare k l r) (induction l, (induction r, tt))
    induction (Expr.select c t e) =
        step (Expr.select c t e) (induction c, (induction t, (induction e, tt)))
    induction (Expr.array_read a i) = step (Expr.array_read a i) (induction a, (induction i, tt))
    induction (Expr.array_write a i v) =
        step (Expr.array_write a i v) (induction a, (induction i, (induction v, tt)))
    induction (Expr.tuple_select e i) = step (Expr.tuple_select e i) (induction e, tt)
    induction (Expr.tuple_construct ts es) = step (Expr.tuple_construct ts es) (induction-All es)

    pub induction-All : (es : Exprs) → All P (to_list es)
    induction-All Exprs.nil = tt
    induction-All (Exprs.cons e es) = (induction e, induction-All es)
