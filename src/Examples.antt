-- ===== src/Examples.antt =====
-- The theorems at concrete inputs, on the machine of `Machine`.
use gazer.Base.{
  ℕ, ◌+◌, ◌*◌, ◌≤◌, ◌≡◌, ◌≢◌, ◌↔◌, refl, Bool, true, false, not, Option, none, some, List, [], ◌∷◌,
  Result, ok, fault, Fault, ◌>>=◌, arith, ◌==◌, if◌then◌else◌, inl, inr, ◌⊎◌,
}
use gazer.Base.Int.{ℤ, pos, negsuc, div_ℤ, rem_ℤ, ◌+ℤ◌, ◌-ℤ◌}
use gazer.Core.Ty.{Ty, Tys, is_bool_type, equals, equals_iff}
use gazer.Core.Literal.{
  bool_lit, int_lit, bv_lit, real_lit, literal_type, Literal, Atom, undef, lit,
}
use gazer.Core.Expr.{Variable, ArithmeticKind, CompareKind, Expr, Exprs, type_of}
use gazer.Core.Create.{is_bv_only_compare, all_bool, is_nonempty}
use gazer.Walker.Order.{post_order}
use gazer.Walker.Size.{size}
use gazer.Walker.Stack.{walk}
use gazer.Walker.Rounds.{IsCoherent}
use gazer.Walker.Correct.{walk_lem}
use gazer.Evaluator.Arithmetic.{eval_mod, eval_binary_arithmetic}
use gazer.Evaluator.Compare.{compare_literals, eqb}
use gazer.Evaluator.Logic.{and_loop, or_loop}
use gazer.Evaluator.Connectives.{truth, AllAre, Reaches, and_loop-value, or_loop-value}
use gazer.Evaluator.Modulo.{IsModulo, eval_mod-euclidean}
use gazer.Evaluator.Negation.{not_eq-negates, not_eq-eq_bool}
use gazer.Evaluator.Visit.{Valuation, visit, eval, evaluate, get_variable_value}
use gazer.Core.Ty.Contexts.{ContextType, type_equals, in_context, type_equals_iff}
use gazer.Folding.Arithmetic.{build_arithmetic, fold_binary_expr}
use gazer.Folding.ArithmeticSound.{build_arithmetic_sound}
use gazer.Folding.Recursion.{swaps_forever, fold_binary_expr-swaps_forever, fold_binary_expr-ends}
use gazer.Folding.Logic.{bool_expr, two, build_and, build_or}
use gazer.Folding.AndSound.{build_and_sound}
use gazer.Folding.OrSound.{build_or_sound}
use gazer.Folding.Match.{as_select}
use gazer.Folding.Select.{build_select}
use gazer.Folding.SelectSwap.{build_select-swaps}
use gazer.Examples.Machine.{machine, or_rec}
use gazer.Examples.Laws.{machine-IsLlvm}
use gazer.Folding.Compare.{build_lt_eq}
use gazer.Folding.BuildLtEq.{build_lt_eq_sound}
mod Machine
mod Automata
mod Calls
mod Containers
mod Graphs
mod Removal
mod Resizing
mod Inserting
mod Naming
mod Building
mod Storage
mod Rewriting
mod Paths
mod Laws

abbrev x : Expr
x = Expr.var_ref (record { id = 0; ty = Ty.bv 8 })

abbrev p_var : Variable
p_var = record { id = 1; ty = Ty.bool }

abbrev q_var : Variable
q_var = record { id = 2; ty = Ty.bool }

-- x is 200, p true, q false, and n is 7.
abbrev values : Valuation
values v =
    if v.id == 0
    then some (bv_lit 8 200)
    else if v.id == 1
    then some (bool_lit true)
    else if v.id == 2
    then some (bool_lit false)
    else if v.id == 3
    then some (int_lit (pos 7))
    else none

abbrev n_ref : Expr
n_ref = Expr.var_ref (record { id = 3; ty = Ty.int })

abbrev byte : ℕ → Expr
byte n = Expr.literal (bv_lit 8 n)

abbrev int : ℕ → Expr
int n = Expr.literal (int_lit (pos n))

type_equals_iff_example :
    ((type_equals
          (ContextType.array 0 (ContextType.int 0) (ContextType.bool 0))
          (ContextType.array 0 (ContextType.int 0) (ContextType.bool 1))
        ≡ true)
      ↔ (ContextType.array 0 (ContextType.int 0) (ContextType.bool 0)
          ≡ ContextType.array 0 (ContextType.int 0) (ContextType.bool 1)))
    × (type_equals (in_context 0 (Ty.bv 8)) (in_context 0 (Ty.bv 8)) ≡ equals (Ty.bv 8) (Ty.bv 8))
type_equals_iff_example =
    type_equals_iff 0 (Ty.bv 8) (Ty.bv 8)
      (ContextType.array 0 (ContextType.int 0) (ContextType.bool 0))
      (ContextType.array 0 (ContextType.int 0) (ContextType.bool 1))

eval_mod-euclidean_example : IsModulo (negsuc 6) (pos 3) (pos 2)
unfolding eval_mod div_ℤ rem_ℤ ◌+ℤ◌
eval_mod-euclidean_example = eval_mod-euclidean (negsuc 6) (pos 3) (pos 2) refl

and_loop-value_example :
    (and_loop (truth true ∷ truth false ∷ undef Ty.bool ∷ []) false ≡ ok (truth false)) ↔ (
      (truth false ≡ truth true) × AllAre true (truth true ∷ truth false ∷ undef Ty.bool ∷ [])
      ⊎ (truth false ≡ truth false)
        × Reaches false true (truth true ∷ truth false ∷ undef Ty.bool ∷ []))
and_loop-value_example =
    and_loop-value (truth true ∷ truth false ∷ undef Ty.bool ∷ []) (truth false)

or_loop-value_example : (or_loop (truth false ∷ truth true ∷ []) false ≡ ok (truth true)) ↔ (
    (truth true ≡ truth false) × AllAre false (truth false ∷ truth true ∷ [])
    ⊎ (truth true ≡ truth true) × Reaches true false (truth false ∷ truth true ∷ []))
or_loop-value_example = or_loop-value (truth false ∷ truth true ∷ []) (truth true)

not_eq-negates_example :
    compare_literals CompareKind.not_eq (bv_lit 8 3) (bv_lit 8 4)
    ≡ (compare_literals CompareKind.eq (bv_lit 8 3) (bv_lit 8 4) >>= λ v. ok (not v))
unfolding literal_type
not_eq-negates_example = not_eq-negates (bv_lit 8 3) (bv_lit 8 4) (ground arith)

not_eq-eq_bool_example :
    (eval values (Expr.comparison CompareKind.not_eq (Expr.var_ref p_var) (Expr.var_ref p_var))
      ≡ ok (lit (bool_lit (eqb true true))))
    × (eval values (Expr.comparison CompareKind.eq (Expr.var_ref p_var) (Expr.var_ref p_var))
        ≡ ok (lit (bool_lit (eqb true true))))
unfolding post_order visit get_variable_value
not_eq-eq_bool_example =
    not_eq-eq_bool values (Expr.var_ref p_var) (Expr.var_ref p_var) true true refl refl

build_arithmetic_sound_example : eval values x ≡ ok (lit (bv_lit 8 200))
unfolding post_order visit get_variable_value build_arithmetic eval_binary_arithmetic or_rec
build_arithmetic_sound_example =
    build_arithmetic_sound machine-IsLlvm values ArithmeticKind.bv_or 2 (byte 0) x x (bv_lit 8 0)
      (bv_lit 8 200) (lit (bv_lit 8 200)) refl refl (omega arith) (omega arith) tt refl refl

fold_binary_expr-swaps_forever_example :
    fold_binary_expr 9 ArithmeticKind.add
      (Expr.literal (real_lit (pos 1) 2))
      (Expr.literal (real_lit (pos 1) 3))
    ≡ fault Fault.out_of_fuel
unfolding swaps_forever
fold_binary_expr-swaps_forever_example =
    fold_binary_expr-swaps_forever ArithmeticKind.add (Expr.literal (real_lit (pos 1) 2))
      (Expr.literal (real_lit (pos 1) 3)) refl 9

fold_binary_expr-ends_example :
    (fold_binary_expr 7 ArithmeticKind.add (byte 3) x
      ≡ fold_binary_expr 2 ArithmeticKind.add (byte 3) x)
    × (fold_binary_expr 2 ArithmeticKind.add (byte 3) x ≢ fault Fault.out_of_fuel)
unfolding swaps_forever
fold_binary_expr-ends_example = fold_binary_expr-ends ArithmeticKind.add (byte 3) x refl 5

build_and_sound_example :
    eval values (Expr.and_expr (two (Expr.var_ref p_var) (Expr.var_ref q_var))) ≡ ok (truth false)
unfolding post_order visit get_variable_value build_and all_bool is_bool_type type_of is_nonempty
    and_loop
build_and_sound_example =
    build_and_sound values
      (two (Expr.and_expr (two (Expr.var_ref p_var) (Expr.var_ref q_var))) (bool_expr true))
      (Expr.and_expr (two (Expr.var_ref p_var) (Expr.var_ref q_var))) (truth false) refl refl

build_or_sound_example : eval values (bool_expr true) ≡ ok (truth true)
unfolding post_order visit get_variable_value build_or or_loop
build_or_sound_example =
    build_or_sound values (two (Expr.var_ref q_var) (bool_expr true)) (bool_expr true) (truth true)
      refl refl

build_select-swaps_example :
    (e : Expr) × (build_select
        (Expr.var_ref p_var)
        (Expr.select (Expr.var_ref q_var) (int 1) (int 2))
        (int 1)
      ≡ ok e)
    × (eval values (
          Expr.select
            (Expr.var_ref p_var)
            (Expr.select (Expr.var_ref q_var) (int 1) (int 2))
            (int 1))
        ≡ ok (lit (int_lit (pos 2))))
    × (eval values e ≡ ok (lit (int_lit (pos 1))))
unfolding post_order visit type_of as_select
build_select-swaps_example =
    build_select-swaps values p_var q_var (int 1) (int 2) true false (pos 1) (pos 2)
      (λ is. absurd (omega (arith, is))) refl refl refl refl refl refl refl refl refl

abbrev total : List ℕ → ℕ
total [] = 0
total (n ∷ ns) = n + total ns

-- A walker that counts the nodes, with no state.
abbrev count : Expr → List ℕ → Result ℕ
count e counts = ok (1 + total counts)

walk_lem_example :
    ((t : Unit {0}) × (walk 0 count
          (λ _ _. none)
          (λ s _ _. s)
          20
          tt
          (Expr.not_expr (Expr.not_expr (Expr.var_ref p_var)))
        ≡ (post_order count (Expr.not_expr (Expr.not_expr (Expr.var_ref p_var))) >>= λ r.
            ok (r, t)))
      × IsCoherent 0 count (λ _ _. none) (λ s _ _. s) t)
unfolding size
walk_lem_example =
    walk_lem 0 count (λ _ _. none) (λ s _ _. s) (λ s e r c h. c)
      (Expr.not_expr (Expr.not_expr (Expr.var_ref p_var))) 20 tt (λ e r h. cc) (omega arith)

-- 3 + n <= 10 becomes n <= 7.
build_lt_eq_sound_example :
    eval values (Expr.comparison CompareKind.lt_eq n_ref (int 7)) ≡ ok (truth true)
unfolding post_order visit get_variable_value build_lt_eq eval_binary_arithmetic ◌+ℤ◌ ◌-ℤ◌ type_of
    is_bv_only_compare
build_lt_eq_sound_example =
    build_lt_eq_sound values (Expr.arithmetic ArithmeticKind.add (int 3) n_ref) (int 10)
      (Expr.comparison CompareKind.lt_eq n_ref (int 7)) (pos 10) (pos 10) refl refl refl
