-- ===== src/Manifest/Words.antt =====
-- The words of a line: `is_space`, `trim`, `first_word`, `to_action`, `first_wildcard_word`.
use makebelieve.Base.{
  ℕ, zero, suc, Bool, ◌&&◌, ◌||◌, Option, none, some, [], ◌∷◌, if◌then◌else◌, length, drop, ◌==◌,
  ℕ-HasTest, List-HasTest,
}
use makebelieve.Text.{Bytes, codes, contains, is_empty}
use makebelieve.Manifest.{Action, run, capture, copy, tracing}

unfoldable pub is_space : ℕ → Bool
is_space c = c == b' ' || c == b'\t' || c == b'\r' || c == b'\n'

-- The first loop of `trim`.
unfoldable pub trim_front : Bytes → Bytes
unfolding is_space
trim_front [] = []
trim_front (c ∷ text) = if is_space c then trim_front text else c ∷ text

-- The second loop: a byte stays if it or one behind it is no space.
unfoldable pub trim_back : Bytes → Bytes
unfolding is_space is_empty
trim_back [] = []
trim_back (c ∷ text) =
    let rest = trim_back text in if is_space c && is_empty rest then [] else c ∷ rest

unfoldable pub trim : Bytes → Bytes
unfolding trim_front trim_back
trim text = trim_back (trim_front text)

unfoldable pub first_word : Bytes → Bytes
unfolding is_space
first_word [] = []
first_word (c ∷ text) = if is_space c then [] else c ∷ first_word text

unfoldable pub to_action : Bytes → Option Action
to_action word =
    if word == codes "run"
    then some run
    else if word == codes "capture"
    then some capture
    else if word == codes "copy"
    then some copy
    else if word == codes "tracing"
    then some tracing
    else none

-- One round takes at least one byte off, so the length of the text is fuel enough.
unfoldable pub wildcard_word_from : ℕ → Bytes → Bytes
unfolding first_word trim contains is_empty
wildcard_word_from zero text = []
wildcard_word_from (suc fuel) text =
    let word = first_word text in
    let rest = wildcard_word_from fuel (trim (drop (length word) text)) in
    if is_empty text then [] else if contains word b'*' then word else rest

unfoldable pub first_wildcard_word : Bytes → Bytes
unfolding wildcard_word_from
first_wildcard_word text = wildcard_word_from (suc (length text)) (trim text)
