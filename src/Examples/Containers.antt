-- ===== src/Examples/Containers.antt =====
-- S-expressions and the scoped cache at concrete inputs.
use gazer.Base.{
  ℕ, ◌≡◌, refl, Bool, true, false, List, [], ◌∷◌, ◌++◌, some, ok, fault, Fault, ◌>>=◌, ◌↔◌, arith,
  decided, if◌then◌else◌, ℕ_discrete,
}
use gazer.Support.Sexpr.{
  Values, atom, list, nil, cons, is_space, is_stop, drop_spaces, do_parse, parse, print, equal,
  opening,
}
use gazer.Support.Sexpr.Texts.{last_char, char, ArePrintable, last_item, more_items, word, items}
use gazer.Support.Sexpr.RoundTrip.{steps, parse-print}
use gazer.Support.Sexpr.Unclosed.{do_parse-never_ends}
use gazer.Support.Sexpr.Equality.{Within, equal-Within}
use gazer.Support.Algorithm.{intersection_difference}
use gazer.Support.Algorithm.Members.{shared, without, intersection_difference_lem}
use gazer.Support.ScopedCache.{fresh, get, insert, insert_op, push_op, pop_op, run}
use gazer.Support.ScopedCache.Scopes.{has_root, nothing, inserts, get-insert, run-scope}

intersection_difference_example :
    intersection_difference ℕ_discrete (1 ∷ 1 ∷ 2 ∷ 2 ∷ []) (2 ∷ 3 ∷ []) ≡ (
      shared ℕ_discrete [] (1 ∷ 1 ∷ 2 ∷ 2 ∷ []) (2 ∷ 3 ∷ []),
      without ℕ_discrete (1 ∷ 1 ∷ 2 ∷ 2 ∷ []) (2 ∷ 3 ∷ []),
      without ℕ_discrete (2 ∷ 3 ∷ []) (1 ∷ 1 ∷ 2 ∷ 2 ∷ []),
    )
intersection_difference_example =
    intersection_difference_lem ℕ_discrete (1 ∷ 1 ∷ 2 ∷ 2 ∷ []) (2 ∷ 3 ∷ [])

-- The duplicates of the left range stay.
intersection_difference-duplicates :
    intersection_difference ℕ_discrete (1 ∷ 1 ∷ 2 ∷ 2 ∷ []) (2 ∷ 3 ∷ [])
    ≡ (2 ∷ [], 1 ∷ 1 ∷ [], 3 ∷ [])
unfolding intersection_difference ℕ_discrete
intersection_difference-duplicates = refl

-- (a (bc))
abbrev nested : Values
nested = cons (atom (97 ∷ [])) (cons (list (cons (atom (98 ∷ 99 ∷ [])) nil)) nil)

nested-ArePrintable : ArePrintable nested
unfolding is_stop is_space
nested-ArePrintable =
    more_items (word (last_char refl))
      (last_item (items (last_item (word (char refl (last_char refl))))))

-- The front is trimmed; a text with a last character that is no space needs no more.
drop_spaces-keeps :
    (first last : ℕ) (middle : List ℕ)
    → is_space first ≡ false
    → is_space last ≡ false
    → drop_spaces (first ∷ middle ++ last ∷ []) ≡ first ∷ middle ++ last ∷ []
unfolding drop_spaces
drop_spaces-keeps first last middle h h' = cc

parse-print_example :
    (print (list nested) >>= λ text. parse drop_spaces 20 text) ≡ ok (some (list nested))
unfolding steps
parse-print_example =
    parse-print drop_spaces drop_spaces-keeps nested 20 nested-ArePrintable (omega arith)

do_parse-never_ends_example : do_parse 100 (opening ∷ 97 ∷ 98 ∷ []) ≡ fault Fault.out_of_fuel
unfolding is_stop is_space
do_parse-never_ends_example = do_parse-never_ends 100 (97 ∷ 98 ∷ []) (char refl (last_char refl))

equal-Within_example : (equal (list nil) (list nested) ≡ ok true) ↔ Within (list nil) (list nested)
equal-Within_example = equal-Within (list nil) (list nested)

get-insert_example :
    (insert ℕ_discrete 3 true (fresh ℕ Bool) >>= λ next. ok (get next 3))
    ≡ ok (if decided (ℕ_discrete 3 3) then some true else get (fresh ℕ Bool) 3)
get-insert_example = get-insert ℕ_discrete (fresh ℕ Bool) has_root 3 3 true

run-scope_example :
    run ℕ_discrete (push_op ∷ (insert_op 3 true ∷ []) ++ pop_op ∷ []) (fresh ℕ Bool)
    ≡ ok (fresh ℕ Bool)
run-scope_example =
    run-scope ℕ_discrete (insert_op 3 true ∷ []) (fresh ℕ Bool) (inserts 3 true nothing) has_root
