-- ===== src/Support/Sexpr/Unclosed.antt =====
-- A list that is not closed: the parser takes an empty atom again and again.
use gazer.Base.{
  ℕ, zero, suc, ◌-◌, ◌≡◌, refl, ap, ◌∙◌, false, List, [], ◌∷◌, Option, none, some, length, take,
  drop, ◌==◌, ok, fault, Fault, arith,
}
use gazer.Support.Sexpr.{
  Value, atom, opening, closing, is_space, is_stop, drop_spaces, find_stop, close_pos, do_parse,
  parse_items,
}
use gazer.Support.Sexpr.Texts.{IsWord, last_char, char, stop-cases}

find_stop-none : {text : List ℕ} → IsWord text → find_stop text ≡ none
unfolding find_stop
find_stop-none (last_char h) = cc
find_stop-none (char h w) = let rest = find_stop-none w in cc

-- The last character stays.
drop-last :
    {text : List ℕ}
    → IsWord text
    → (n : ℕ) → length text ≡ suc n
    → (c : ℕ) × (is_stop c ≡ false) × (drop n text ≡ c ∷ [])
drop-last (last_char {c} h) zero e = (c, h, refl)
drop-last (last_char h) (suc n) e = absurd (omega (arith, e))
drop-last (char h (last_char h')) zero e = absurd (omega (arith, e))
drop-last (char h (char h' w)) zero e = absurd (omega (arith, e))
drop-last (char h w) (suc n) e = drop-last w n (omega (arith, e))

IsWord-length : {text : List ℕ} → IsWord text → (n : ℕ) × (length text ≡ suc n)
IsWord-length (last_char h) = (0, refl)
IsWord-length (char {rest} h w) = (length rest, refl)

close_pos-drop :
    (text : List ℕ)
    → IsWord text
    → (c : ℕ) × (is_stop c ≡ false) × (drop (close_pos text) text ≡ c ∷ [])
unfolding close_pos
close_pos-drop text w =
    let none_there = find_stop-none w in
    let (n, long) = IsWord-length w in
    let (c, h, drops) = drop-last w n long in
    let position : length text - 1 ≡ n = omega (arith, long) in (c, h, (cc))

-- One atom is read.
do_parse-step :
    (fuel : ℕ) {text : List ℕ}
    → IsWord text
    → do_parse (suc fuel) text
      ≡ ok (some (atom (take (close_pos text) text)), drop (close_pos text) text)
unfolding do_parse drop_spaces
do_parse-step fuel (last_char {c} h) = let (s, o, e) = stop-cases c h in cc
do_parse-step fuel (char {c} h w) = let (s, o, e) = stop-cases c h in cc

-- An item that is read with a fault after it.
parse_items-fault :
    (fuel c : ℕ) (rest after : List ℕ) (v : Option Value)
    → (c == closing) ≡ false
    → do_parse fuel (c ∷ rest) ≡ ok (v, after)
    → parse_items fuel after ≡ fault Fault.out_of_fuel
    → parse_items (suc fuel) (c ∷ rest) ≡ fault Fault.out_of_fuel
unfolding parse_items
parse_items-fault fuel c rest after v e reads stuck = cc

parse_items-starved : (text : List ℕ) → parse_items zero text ≡ fault Fault.out_of_fuel
unfolding parse_items
parse_items-starved text = refl

parse_items-hungry :
    (c : ℕ) (rest : List ℕ)
    → (c == closing) ≡ false
    → parse_items 1 (c ∷ rest) ≡ fault Fault.out_of_fuel
unfolding parse_items
parse_items-hungry c rest e = cc

-- The last character is left over by each round.
parse_items-char :
    (fuel c : ℕ) → is_stop c ≡ false → parse_items fuel (c ∷ []) ≡ fault Fault.out_of_fuel
parse_items-char zero c h = parse_items-starved (c ∷ [])
parse_items-char (suc zero) c h = let (s, o, e) = stop-cases c h in parse_items-hungry c [] e
parse_items-char (suc (suc fuel)) c h =
    let (s, o, e) = stop-cases c h in
    let (d, h', drops) = close_pos-drop (c ∷ []) (last_char h) in
    parse_items-fault (suc fuel) c [] (drop (close_pos (c ∷ [])) (c ∷ [])) _ e
      (do_parse-step fuel (last_char h))
      (ap (λ t. parse_items (suc fuel) t) drops ∙ parse_items-char (suc fuel) d h')

parse_items-word :
    (fuel : ℕ) {text : List ℕ} → IsWord text → parse_items fuel text ≡ fault Fault.out_of_fuel
parse_items-word zero {text} w = parse_items-starved text
parse_items-word (suc zero) (last_char {c} h) =
    let (s, o, e) = stop-cases c h in parse_items-hungry c [] e
parse_items-word (suc zero) (char {c} {rest} h w) =
    let (s, o, e) = stop-cases c h in parse_items-hungry c rest e
parse_items-word (suc (suc fuel)) (last_char {c} h) = parse_items-char (suc (suc fuel)) c h
parse_items-word (suc (suc fuel)) (char {c} {rest} h w) =
    let (s, o, e) = stop-cases c h in
    let (d, h', drops) = close_pos-drop (c ∷ rest) (char h w) in
    parse_items-fault (suc fuel) c rest (drop (close_pos (c ∷ rest)) (c ∷ rest)) _ e
      (do_parse-step fuel (char h w))
      (ap (λ t. parse_items (suc fuel) t) drops ∙ parse_items-char (suc fuel) d h')

-- On a parenthesis that a word follows, with nothing after the word, the parser does not end: the fuel runs
-- out, however much there is.
pub do_parse-never_ends :
    (fuel : ℕ) (text : List ℕ)
    → IsWord text
    → do_parse fuel (opening ∷ text) ≡ fault Fault.out_of_fuel
unfolding do_parse drop_spaces is_space
do_parse-never_ends zero text w = refl
do_parse-never_ends (suc fuel) text w = let stuck = parse_items-word fuel w in (cc)
