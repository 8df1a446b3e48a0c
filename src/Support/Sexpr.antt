-- ===== src/Support/Sexpr.antt =====
-- S-expressions (include/gazer/Support/SExpr.h, src/Support/SExpr.cpp): values, their text, the parser and
-- the comparison. A text is the list of its character codes.
use gazer.Base.{
  ℕ, zero, suc, ◌-◌, Bool, true, false, not, ◌&&◌, ◌||◌, List, [], ◌∷◌, ◌++◌, Option, none, some,
  length, take, drop, ltb, leb, ◌==◌, if◌then◌else◌, Result, fault, ok, Fault, ◌>>=◌,
}
pub mod Texts
pub mod RoundTrip
pub mod Unclosed
pub mod Equality

-- A list of pointers: an element may be null.
mutual
  pub data Value : Type 0 where
    atom : List ℕ → Value
    list : Values → Value

  pub data Values : Type 0 where
    nil : Values
    cons : Value → Values → Values
    null : Values → Values

abbrev pub item : Option Value → Values → Values
item none vs = null vs
item (some v) vs = cons v vs

-- '(' and ')' and the white space of the "C" locale
abbrev pub opening : ℕ
opening = 40

abbrev pub closing : ℕ
closing = 41

abbrev pub blank : ℕ
blank = 32

unfoldable pub is_space : ℕ → Bool
is_space c = (c == blank) || leb 9 c && leb c 13

unfoldable pub is_stop : ℕ → Bool
unfolding is_space
is_stop c = is_space c || (c == opening) || (c == closing)

-- drop_while(&isspace)
unfoldable pub drop_spaces : List ℕ → List ℕ
drop_spaces [] = []
drop_spaces (c ∷ rest) = let tail = drop_spaces rest in if is_space c then tail else c ∷ rest

-- find_if: the first space or parenthesis
unfoldable pub find_stop : List ℕ → Option ℕ
find_stop [] = none
find_stop (c ∷ rest) = elim (is_stop c) [
  | true ↦ some 0
  | false ↦ elim (find_stop rest) [ none ↦ none | some k ↦ some (suc k) ]
]

-- std::min(input.find_if(...), input.size() - 1), where find_if gives npos for none
unfoldable pub close_pos : List ℕ → ℕ
unfolding find_stop
close_pos input = elim (find_stop input) [
  | none ↦ length input - 1
  | some k ↦ if ltb (length input - 1) k then length input - 1 else k
]

-- doParse and its loop. `front` of an empty text is a failed assertion.
unfoldable mutual
  pub do_parse : ℕ → List ℕ → Result (Option Value × List ℕ)
  do_parse zero input = fault Fault.out_of_fuel
  do_parse (suc fuel) input = elim (drop_spaces input) [
    | [] ↦ ok (none, [])
    | c ∷ rest ↦ elim (c == opening) [
      | true ↦ parse_items fuel rest >>= λ (p : Values × List ℕ). ok (some (list p.0), p.1)
      | false ↦ ok (
        some (atom (take (close_pos (c ∷ rest)) (c ∷ rest))),
        drop (close_pos (c ∷ rest)) (c ∷ rest),
      )
    ]
  ]

  pub parse_items : ℕ → List ℕ → Result (Values × List ℕ)
  parse_items zero input = fault Fault.out_of_fuel
  parse_items (suc fuel) [] = fault Fault.assertion
  parse_items (suc fuel) (c ∷ rest) = elim (c == closing) [
    | true ↦ ok (nil, rest)
    | false ↦ do_parse fuel (c ∷ rest) >>= λ (p : Option Value × List ℕ).
        parse_items fuel p.1 >>= λ (q : Values × List ℕ). ok (item p.0 q.0, q.1)
  ]

unfoldable pub back : List ℕ → Option ℕ
back [] = none
back (c ∷ []) = some c
back (c ∷ d ∷ rest) = back (d ∷ rest)

-- sexpr::parse on the trimmed text; a null result is `none`.
unfoldable pub parse_trimmed : ℕ → List ℕ → Result (Option Value)
unfolding do_parse back
parse_trimmed fuel [] = fault Fault.assertion
parse_trimmed fuel (c ∷ rest) = elim (back (c ∷ rest)) [
  | none ↦ fault Fault.assertion
  | some last ↦ elim (not (c == opening) && not (last == closing)) [
    | true ↦ ok none
    | false ↦ do_parse fuel (c ∷ rest) >>= λ (p : Option Value × List ℕ). ok (p.0)
  ]
]

-- sexpr::parse, with llvm::StringRef::trim
unfoldable pub parse : (List ℕ → List ℕ) → ℕ → List ℕ → Result (Option Value)
unfolding parse_trimmed
parse trim fuel input = parse_trimmed fuel (trim input)

-- Value::print: the loop runs to `size() - 1`, which wraps around for an empty list and reads past the
-- end.
unfoldable mutual
  pub print : Value → Result (List ℕ)
  print (atom text) = ok text
  print (list vs) = print_items vs >>= λ text. ok (opening ∷ text ++ closing ∷ [])

  pub print_items : Values → Result (List ℕ)
  print_items nil = fault Fault.undefined_behaviour
  print_items (null vs) = fault Fault.null_pointer
  print_items (cons v nil) = print v
  print_items (cons v vs) = print v >>= λ text. print_items vs >>= λ rest. ok (text ++ blank ∷ rest)

unfoldable pub same_text : List ℕ → List ℕ → Bool
same_text [] [] = true
same_text (c ∷ cs) (d ∷ ds) = (c == d) && same_text cs ds
same_text _ _ = false

-- Value::operator==: std::equal is given the end of the first list only.
unfoldable mutual
  unfolding same_text

  pub equal : Value → Value → Result Bool
  equal (atom a) (atom b) = ok (same_text a b)
  equal (list vs) (list ws) = equal_items vs ws
  equal _ _ = ok false

  pub equal_items : Values → Values → Result Bool
  equal_items nil ws = ok true
  equal_items (cons v vs) nil = fault Fault.undefined_behaviour
  equal_items (null vs) nil = fault Fault.undefined_behaviour
  equal_items (null vs) ws = fault Fault.null_pointer
  equal_items (cons v vs) (null ws) = fault Fault.null_pointer
  equal_items (cons v vs) (cons w ws) =
      equal v w >>= λ same. elim same [ false ↦ ok false | true ↦ equal_items vs ws ]
