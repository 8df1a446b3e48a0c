-- ===== src/Support/Sexpr/RoundTrip.antt =====
-- A printed value is parsed again, with fuel for its size.
use gazer.Base.{
  ℕ, zero, suc, ◌+◌, ◌≤◌, ◌≡◌, refl, sym, ap, ap₂, ◌∙◌, subst, true, false, List, [], ◌∷◌, ◌++◌,
  some, take, drop, ◌==◌, ok, ◌>>=◌, arith, take-append, drop-append,
}
use mathlib.Core.List.{append_assoc, append-nil}
use gazer.Support.Sexpr.{
  Value, Values, atom, list, nil, cons, null, opening, closing, blank, is_space, is_stop,
  drop_spaces, close_pos, do_parse, parse_items, back, parse_trimmed, parse, print, print_items,
}
use gazer.Support.Sexpr.Texts.{
  IsWord, last_char, char, IsPrintable, word, items, ArePrintable, last_item, more_items, Starts,
  starts, stop-cases, IsWord-Starts, Starts-append, close_pos-word,
}

-- The fuel that the parser takes.
unfoldable mutual
  pub steps : Value → ℕ
  steps (atom text) = 1
  steps (list vs) = suc (steps_items vs)

  pub steps_items : Values → ℕ
  steps_items nil = 1
  steps_items (null vs) = suc (steps_items vs)
  steps_items (cons v vs) = suc (steps v + steps_items vs)

-- A text that starts with neither a space nor '(' gives the characters up to the close position.
do_parse-atom :
    (fuel c : ℕ) (rest : List ℕ)
    → is_space c ≡ false
    → (c == opening) ≡ false
    → do_parse (suc fuel) (c ∷ rest)
      ≡ ok (
        some (atom (take (close_pos (c ∷ rest)) (c ∷ rest))),
        drop (close_pos (c ∷ rest)) (c ∷ rest),
      )
unfolding do_parse drop_spaces
do_parse-atom fuel c rest s o = cc

do_parse-word :
    (fuel : ℕ) (text : List ℕ) (c : ℕ) (rest : List ℕ)
    → IsWord text
    → is_stop c ≡ true
    → do_parse (suc fuel) (text ++ c ∷ rest) ≡ ok (some (atom text), c ∷ rest)
do_parse-word fuel text c rest w stop =
    let position = close_pos-word text c rest w stop in
    let whole = text ++ c ∷ rest in
    let parses : do_parse (suc fuel) whole
        ≡ ok (some (atom (take (close_pos whole) whole)), drop (close_pos whole) whole) =
      first w in
    parses
    ∙ ap (λ n. ok (some (atom (take n whole)), drop n whole)) position
    ∙ ap₂ (λ t d. ok (some (atom t), d)) (take-append text (c ∷ rest)) (drop-append text (c ∷ rest))
  where
    first :
        {text' : List ℕ}
        → IsWord text'
        → do_parse (suc fuel) (text' ++ c ∷ rest)
          ≡ ok (
            some (atom (take (close_pos (text' ++ c ∷ rest)) (text' ++ c ∷ rest))),
            drop (close_pos (text' ++ c ∷ rest)) (text' ++ c ∷ rest),
          )
    first (last_char {c = d} h) =
        let (s, o, _) = stop-cases d h in do_parse-atom fuel d (c ∷ rest) s o
    first (char {c = d} {rest = more} h _) =
        let (s, o, _) = stop-cases d h in do_parse-atom fuel d (more ++ c ∷ rest) s o

-- The loop goes on with a value where neither a space nor ')' comes first, and passes over a space.
parse_items-next :
    (fuel : ℕ) {text : List ℕ} (v : Value) (vs : Values) (after rest : List ℕ)
    → Starts text
    → do_parse fuel text ≡ ok (some v, after)
    → parse_items fuel after ≡ ok (vs, rest)
    → parse_items (suc fuel) text ≡ ok (cons v vs, rest)
unfolding parse_items
parse_items-next fuel v vs after rest (starts s e) first more = cc

blank_is : is_space blank ≡ true
unfolding is_space
blank_is = refl

parse_items-blank :
    (fuel : ℕ) (text : List ℕ)
    → Starts text
    → parse_items fuel (blank ∷ text) ≡ parse_items fuel text
unfolding parse_items do_parse drop_spaces
parse_items-blank zero text s = refl
parse_items-blank (suc zero) text (starts s e) = cc
parse_items-blank (suc (suc fuel)) text (starts s e) = let b = blank_is in cc

-- What comes after the value: anything for a list, a space or a parenthesis for an atom.
Parses : Value → List ℕ → Type 0
Parses v text =
    (fuel : ℕ)
    → steps v ≤ fuel
    → (c : ℕ) (rest : List ℕ) → is_stop c ≡ true
    → do_parse fuel (text ++ c ∷ rest) ≡ ok (some v, c ∷ rest)

ParseAll : Values → List ℕ → Type 0
ParseAll vs text =
    (fuel : ℕ)
    → steps_items vs ≤ fuel
    → (rest : List ℕ) → parse_items fuel (text ++ closing ∷ rest) ≡ ok (vs, rest)

do_parse-list :
    (vs : Values) (text : List ℕ) (fuel : ℕ) (rest : List ℕ)
    → ParseAll vs text
    → steps (list vs) ≤ fuel
    → do_parse fuel ((opening ∷ text ++ closing ∷ []) ++ rest) ≡ ok (some (list vs), rest)
unfolding do_parse ParseAll drop_spaces is_space steps
do_parse-list vs text zero rest all h = absurd (omega (arith, h))
do_parse-list vs text (suc fuel) rest all h =
    let shape = append_assoc text (closing ∷ []) rest in
    let inner = all fuel (omega (arith, h)) rest in (cc)

parse_items-end :
    (fuel : ℕ) (rest : List ℕ) → 1 ≤ fuel → parse_items fuel (closing ∷ rest) ≡ ok (nil, rest)
unfolding parse_items
parse_items-end zero rest h = absurd (omega (arith, h))
parse_items-end (suc fuel) rest h = refl

word-Parses : (text : List ℕ) → IsWord text → Parses (atom text) text
unfolding Parses steps
word-Parses text w zero h c rest stop = absurd (omega (arith, h))
word-Parses text w (suc fuel) h c rest stop = do_parse-word fuel text c rest w stop

last-ParseAll :
    (v : Value) (text : List ℕ) → Starts text → Parses v text → ParseAll (cons v nil) text
unfolding Parses ParseAll steps is_stop is_space
last-ParseAll v text begins parses zero h rest = absurd (omega (arith, h))
last-ParseAll v text begins parses (suc fuel) h rest =
    parse_items-next fuel v nil (closing ∷ rest) rest (Starts-append (closing ∷ rest) begins)
      (parses fuel (omega (arith, h)) closing rest refl)
      (parse_items-end fuel rest (omega (arith, h)))

more-ParseAll :
    (v : Value) (vs : Values) (text others : List ℕ)
    → Starts text
    → Parses v text
    → Starts others
    → ParseAll vs others
    → ParseAll (cons v vs) (text ++ blank ∷ others)
unfolding Parses ParseAll steps is_stop is_space
more-ParseAll v vs text others begins parses begins' all zero h rest = absurd (omega (arith, h))
more-ParseAll v vs text others begins parses begins' all (suc fuel) h rest =
    let after = blank ∷ others ++ closing ∷ rest in
    let continues =
      parse_items-blank fuel (others ++ closing ∷ rest) (Starts-append (closing ∷ rest) begins')
      ∙ all fuel (omega (arith, h)) rest in
    subst (λ t. parse_items (suc fuel) t ≡ ok (cons v vs, rest))
      (sym (append_assoc text (blank ∷ others) (closing ∷ rest)))
      (parse_items-next fuel v vs after rest (Starts-append after begins)
        (parses fuel (omega (arith, h)) blank (others ++ closing ∷ rest) refl) continues)

print_items-more :
    (v : Value) (vs : Values) (text others : List ℕ)
    → ArePrintable vs
    → print v ≡ ok text
    → print_items vs ≡ ok others
    → print_items (cons v vs) ≡ ok (text ++ blank ∷ others)
unfolding print
print_items-more v _ text others (last_item p) h h' = cc
print_items-more v _ text others (more_items p ps) h h' = cc

opening-Starts : (rest : List ℕ) → Starts (opening ∷ rest)
unfolding is_space
opening-Starts rest = starts refl refl

list-Parses :
    (vs : Values) (text : List ℕ)
    → ParseAll vs text
    → Parses (list vs) (opening ∷ text ++ closing ∷ [])
unfolding Parses
list-Parses vs text all fuel h c rest stop = do_parse-list vs text fuel (c ∷ rest) all h

mutual
  unfolding print

  value-text :
      (v : Value)
      → IsPrintable v
      → (text : List ℕ) × (print v ≡ ok text) × Starts text × Parses v text
  value-text _ (word {text} w) = (text, refl, IsWord-Starts w, word-Parses text w)
  value-text _ (items {vs} all) =
      let (text, prints, begins, parses) = items-text vs all in
      (
        opening ∷ text ++ closing ∷ [],
        (cc),
        opening-Starts (text ++ closing ∷ []),
        list-Parses vs text parses,
      )

  items-text :
      (vs : Values)
      → ArePrintable vs
      → (text : List ℕ) × (print_items vs ≡ ok text) × Starts text × ParseAll vs text
  items-text _ (last_item {v} p) =
      let (text, prints, begins, parses) = value-text v p in
      (text, prints, begins, last-ParseAll v text begins parses)
  items-text _ (more_items {v} {vs} p all) =
      let (text, prints, begins, parses) = value-text v p in
      let (others, prints', begins', parses') = items-text vs all in
      (
        text ++ blank ∷ others,
        print_items-more v vs text others all prints prints',
        Starts-append (blank ∷ others) begins,
        more-ParseAll v vs text others begins parses begins' parses',
      )

back-append : (xs : List ℕ) (c : ℕ) → back (xs ++ c ∷ []) ≡ some c
unfolding back
back-append [] c = refl
back-append (x ∷ []) c = refl
back-append (x ∷ y ∷ xs) c = back-append (y ∷ xs) c

parse_trimmed-list :
    (fuel : ℕ) (text : List ℕ) (v : Value)
    → do_parse fuel (opening ∷ text ++ closing ∷ []) ≡ ok (some v, [])
    → parse_trimmed fuel (opening ∷ text ++ closing ∷ []) ≡ ok (some v)
unfolding parse_trimmed
parse_trimmed-list fuel text v h = let last = back-append (opening ∷ text) closing in cc

-- Where trimming a text changes nothing between a first and a last character that are not spaces, a list
-- with elements, in which every list has elements and every atom is a word, is printed as a text that is
-- parsed as the list, with fuel for its size.
pub parse-print :
    (trim : List ℕ → List ℕ)
    → ((first last : ℕ) (middle : List ℕ)
        → is_space first ≡ false
        → is_space last ≡ false
        → trim (first ∷ middle ++ last ∷ []) ≡ first ∷ middle ++ last ∷ [])
    → (vs : Values) (fuel : ℕ) → ArePrintable vs
    → steps (list vs) ≤ fuel
    → (print (list vs) >>= λ text. parse trim fuel text) ≡ ok (some (list vs))
unfolding parse print is_space
parse-print trim keeps vs fuel all h =
    let (text, prints, begins, parses) = items-text vs all in
    let whole = opening ∷ text ++ closing ∷ [] in
    let parsed =
      subst (λ t. do_parse fuel t ≡ ok (some (list vs), [])) (append-nil whole)
        (do_parse-list vs text fuel [] parses h) in
    let trimmed = ap (λ t. parse_trimmed fuel t) (keeps opening closing text refl refl) in
    let done = trimmed ∙ parse_trimmed-list fuel text (list vs) parsed in (cc)
