-- ===== src/Support/Sexpr/Texts.antt =====
-- Words, and values that have a text: what the parser does at the start of their texts.
use gazer.Base.{
  ℕ, ◌-◌, ◌≡◌, true, false, List, [], ◌∷◌, ◌++◌, some, length, ltb, ◌==◌, arith, length-append,
}
use gazer.Support.Sexpr.{
  Value, Values, atom, list, nil, cons, opening, closing, is_space, is_stop, drop_spaces, find_stop,
  close_pos,
}

-- At least one character, and none of them a space or a parenthesis.
pub data IsWord : List ℕ → Type 0 where
  last_char : {c : ℕ} → is_stop c ≡ false → IsWord (c ∷ [])
  char : {c : ℕ} {rest : List ℕ} → is_stop c ≡ false → IsWord rest → IsWord (c ∷ rest)

mutual
  -- The values whose atoms are words and whose lists have elements.
  pub data IsPrintable : Value → Type 0 where
    word : {text : List ℕ} → IsWord text → IsPrintable (atom text)
    items : {vs : Values} → ArePrintable vs → IsPrintable (list vs)

  pub data ArePrintable : Values → Type 0 where
    last_item : {v : Value} → IsPrintable v → ArePrintable (cons v nil)
    more_items :
        {v : Value} {vs : Values} → IsPrintable v → ArePrintable vs → ArePrintable (cons v vs)

-- Neither a space nor a closing parenthesis comes first.
pub data Starts : List ℕ → Type 0 where
  starts : {c : ℕ} {rest : List ℕ} → is_space c ≡ false → (c == closing) ≡ false → Starts (c ∷ rest)

pub stop-cases :
    (c : ℕ)
    → is_stop c ≡ false
    → (is_space c ≡ false) × ((c == opening) ≡ false) × ((c == closing) ≡ false)
unfolding is_stop is_space
stop-cases c h = ground arith

pub IsWord-Starts : {text : List ℕ} → IsWord text → Starts text
IsWord-Starts (last_char {c} h) = let (s, o, e) = stop-cases c h in starts s e
IsWord-Starts (char {c} h w) = let (s, o, e) = stop-cases c h in starts s e

pub Starts-append : {text : List ℕ} (rest : List ℕ) → Starts text → Starts (text ++ rest)
Starts-append rest (starts s e) = starts s e

pub drop_spaces-Starts : {text : List ℕ} → Starts text → drop_spaces text ≡ text
unfolding drop_spaces
drop_spaces-Starts (starts {c} {rest} s e) = cc

pub find_stop-word :
    (text : List ℕ) (c : ℕ) (rest : List ℕ)
    → IsWord text
    → is_stop c ≡ true
    → find_stop (text ++ c ∷ rest) ≡ some (length text)
unfolding find_stop
find_stop-word _ c rest (last_char h) stop = cc
find_stop-word _ c rest (char {rest = text} h w) stop =
    let below = find_stop-word text c rest w stop in cc

pub close_pos-word :
    (text : List ℕ) (c : ℕ) (rest : List ℕ)
    → IsWord text
    → is_stop c ≡ true
    → close_pos (text ++ c ∷ rest) ≡ length text
unfolding close_pos
close_pos-word text c rest w stop =
    let found = find_stop-word text c rest w stop in
    let long = length-append text (c ∷ rest) in
    let inside : ltb (length (text ++ c ∷ rest) - 1) (length text) ≡ false = ground (arith, long) in
    cc
