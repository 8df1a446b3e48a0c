-- ===== src/Examples/Calls.antt =====
-- The call graph of a system of two automata, of which the first calls itself before its exit.
use gazer.Base.{
  ℕ, ◌≡◌, ◌≢◌, refl, sym, subst, true, ◌&&◌, List, [], ◌∷◌, ok, ◌>>=◌, arith, Memᴰ, inl, inr,
}
use gazer.Base.Memᴰ
use gazer.Core.Literal.{bool_lit}
use gazer.Core.Expr.{Expr}
use gazer.Automaton.Cfa.{Transition, call_edge, Cfa}
use gazer.Automaton.CallGraph.{create_call_graph, is_tail_recursive}
use gazer.Automaton.CallGraph.Added.{CalleesIn, calls_of}
use gazer.Automaton.CallGraph.Calls.{
  Distinct, no_automata, one_more, calls_self, only_before_exit, is_tail_recursive_lem,
}

abbrev call_to : ℕ → ℕ → Transition
call_to callee target = record {
  source = 0;
  target = target;
  guard = Expr.literal (bool_lit true);
  kind = call_edge callee [] [];
}

-- The first automaton has exit 1 and calls itself on the way there, the second one calls the first.
abbrev looping : Cfa
looping = record { address = 10; exit = 1; transitions = call_to 10 1 ∷ [] }

abbrev caller : Cfa
caller = record { address = 20; exit = 1; transitions = call_to 10 2 ∷ [] }

abbrev two_automata : List Cfa
two_automata = looping ∷ caller ∷ []

two_automata-Distinct : Distinct two_automata
two_automata-Distinct =
    one_more (λ other m e. absurd (twenty other m e))
      (one_more (λ other m. absurd (Memᴰ.not-nil m)) no_automata)
  where
    twenty : (other : Cfa) → Memᴰ other (caller ∷ []) → 10 ≢ other.address
    twenty other m =
        subst (λ (c : Cfa). 10 ≢ c.address) (sym (Memᴰ.eq_of_singleton m)) (omega arith)

call_to-CalleesIn : (target : ℕ) → CalleesIn (10 ∷ 20 ∷ []) (call_to 10 target ∷ [])
call_to-CalleesIn target edge m callee inputs outputs is =
    let this = Memᴰ.eq_of_singleton m in
    let same : callee ≡ 10 = cc in subst (λ c. Memᴰ c (10 ∷ 20 ∷ [])) (sym same) (Memᴰ.head refl)

two_automata-CalleesIn : (c : Cfa) → Memᴰ c two_automata → CalleesIn (10 ∷ 20 ∷ []) c.transitions
two_automata-CalleesIn c m = elim (Memᴰ.cases_cons m) [
  | inl is ↦
      subst (λ (d : Cfa). CalleesIn (10 ∷ 20 ∷ []) d.transitions) (sym is) (call_to-CalleesIn 1)
  | inr later ↦
      subst (λ (d : Cfa). CalleesIn (10 ∷ 20 ∷ []) d.transitions) (sym (Memᴰ.eq_of_singleton later))
        (call_to-CalleesIn 2)
]

is_tail_recursive_example :
    (create_call_graph two_automata >>= λ nodes. is_tail_recursive nodes looping)
    ≡ ok (
        calls_self 10 (calls_of (call_to 10 1 ∷ []))
        && only_before_exit 10 1 (calls_of (call_to 10 1 ∷ [])))
is_tail_recursive_example =
    is_tail_recursive_lem two_automata looping two_automata-Distinct two_automata-CalleesIn
      (Memᴰ.head refl)

is_tail_recursive-looping :
    (create_call_graph two_automata >>= λ nodes. is_tail_recursive nodes looping) ≡ ok true
unfolding create_call_graph is_tail_recursive
is_tail_recursive-looping = refl
