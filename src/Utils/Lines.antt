-- ===== src/Utils/Lines.antt =====
-- web/src/app/utils.js: fetchLinesIterator. A text is its list of code units, and the reader gives a
-- list of chunks, of bytes, and then is done.
pub mod Ends
use coop_messenger.Prelude.{
  ℕ, zero, suc, ◌≤◌, ◌<◌, ◌≡◌, refl, sym, ap, Bool, ◌||◌, Option, none, some, List, [], ◌∷◌, ◌++◌,
  append-nil, append_assoc, arith, eqb, length, map, if◌then◌else◌, Option-cases, Bool-cases, inl,
  inr, ◌∙◌,
}

abbrev pub Text : Type 0
Text = List ℕ

-- `/\n|\r|\r\n/`: the first alternative that matches is one of the single characters.
abbrev pub is_newline : ℕ → Bool
is_newline c = eqb c 10 || eqb c 13

-- `re.exec`, with the text before the match and the text behind it.
unfoldable pub next_line : Text → Option (Text × Text)
next_line [] = none
next_line (c ∷ s) =
    if is_newline c
    then some ([], s)
    else elim (next_line s) [ none ↦ none | some (line, rest) ↦ some (c ∷ line, rest) ]

-- The lines that are complete in a chunk, and `chunk.substr(startIndex)`; each line takes one from
-- the fuel.
unfoldable pub drain : ℕ → Text → List Text × Text
unfolding next_line
drain zero chunk = ([], chunk)
drain (suc fuel) chunk = elim (next_line chunk) [
  | none ↦ ([], chunk)
  | some (line, rest) ↦ let (lines, left) = drain fuel rest in (line ∷ lines, left)
]

-- The last line, if it did not end in a newline.
abbrev pub last_line : Text → List Text
last_line [] = []
last_line (c ∷ s) = (c ∷ s) ∷ []

-- The loop, over the reads that are left. A chunk has no more lines than characters.
unfoldable pub read_lines : List Text → Text → List Text
unfolding drain
read_lines [] chunk = let (lines, left) = drain (length chunk) chunk in lines ++ last_line left
read_lines (more ∷ reads) chunk =
    let (lines, left) = drain (length chunk) chunk in lines ++ read_lines reads (left ++ more)

-- The bytes of a chunk. `decode` is `decode` of the TextDecoder, which without the option `stream`
-- decodes each chunk for itself; that of no chunk is "".
abbrev pub Bytes : Type 0
Bytes = List ℕ

unfoldable pub fetch_lines : (Bytes → Text) → List Bytes → List Text
unfolding read_lines
fetch_lines decode [] = read_lines [] []
fetch_lines decode (first ∷ reads) = read_lines (map decode reads) (decode first)

-- The lines of a text, in one go: `cur` is the line so far.
abbrev pub lines_from : Text → Text → List Text
lines_from cur [] = last_line cur
lines_from cur (c ∷ s) =
    if is_newline c then cur ∷ lines_from [] s else lines_from (cur ++ c ∷ []) s

abbrev pub concat : List Text → Text
concat [] = []
concat (t ∷ ts) = t ++ concat ts

split_some :
    (a b c e : Text)
    → ◌≡◌ {A = Option (Text × Text)} (some (a, b)) (some (c, e))
    → (a ≡ c) × (b ≡ e)
split_some a b c e h = (ap fst_or h, ap snd_or h)
  where
    fst_or : Option (Text × Text) → Text
    fst_or none = []
    fst_or (some p) = p.0

    snd_or : Option (Text × Text) → Text
    snd_or none = []
    snd_or (some p) = p.1

lines_from-next_line :
    (cur chunk more line rest : Text)
    → next_line chunk ≡ some (line, rest)
    → lines_from cur (chunk ++ more) ≡ (cur ++ line) ∷ lines_from [] (rest ++ more)
unfolding next_line
lines_from-next_line cur [] more line rest h = ground arith
lines_from-next_line cur (c ∷ s) more line rest h = elim (Bool-cases (is_newline c)) [
  | inl newline ↦
      let (same_line, same_rest) = split_some [] s line rest (rw newline at h) in
      rw (newline, ← same_line, ← same_rest, append-nil) refl
  | inr other ↦ elim (Option-cases (next_line s)) [
    | inl e ↦ absurd (ground arith)
    | inr ((l, r), e) ↦
        let found : ◌≡◌ {A = Option (Text × Text)} (some (c ∷ l, r)) (some (line, rest)) =
          rw (other, e) at h in
        let (same_line, same_rest) = split_some (c ∷ l) r line rest found in
        rw (other, ← same_line, ← same_rest)
          (lines_from-next_line (cur ++ c ∷ []) s more l r e
            ∙ rw (append_assoc cur (c ∷ []) l) refl)
  ]
]

length-next_line :
    (chunk line rest : Text) → next_line chunk ≡ some (line, rest) → length rest < length chunk
unfolding next_line
length-next_line [] line rest h = absurd (ground arith)
length-next_line (c ∷ s) line rest h = elim (Bool-cases (is_newline c)) [
  | inl newline ↦
      let (same_line, same_rest) = split_some [] s line rest (rw newline at h) in
      rw (← same_rest) (omega arith)
  | inr other ↦ elim (Option-cases (next_line s)) [
    | inl e ↦ absurd (ground arith)
    | inr ((l, r), e) ↦
        let found : ◌≡◌ {A = Option (Text × Text)} (some (c ∷ l, r)) (some (line, rest)) =
          rw (other, e) at h in
        let (same_line, same_rest) = split_some (c ∷ l) r line rest found in
        rw (← same_rest) (omega (arith, length-next_line s l r e))
  ]
]

-- A chunk in which no line is complete.
lines_from-no_line :
    (cur chunk : Text) → next_line chunk ≡ none → lines_from cur chunk ≡ last_line (cur ++ chunk)
unfolding next_line
lines_from-no_line cur [] h = rw append-nil refl
lines_from-no_line cur (c ∷ s) h = elim (Bool-cases (is_newline c)) [
  | inl newline ↦ absurd (ground arith)
  | inr other ↦
      rw other (
        lines_from-no_line (cur ++ c ∷ []) s (ground arith) ∙ rw (append_assoc cur (c ∷ []) s) refl)
]

drain-none :
    (fuel : ℕ) (chunk : Text) → next_line chunk ≡ none → drain (suc fuel) chunk ≡ ([], chunk)
unfolding drain
drain-none fuel chunk e = ground arith

drain_line :
    (fuel : ℕ) (chunk line rest : Text)
    → next_line chunk ≡ some (line, rest)
    → drain (suc fuel) chunk ≡ (line ∷ (drain fuel rest).0, (drain fuel rest).1)
unfolding drain
drain_line fuel chunk line rest e = ground arith

drain_zero : drain 0 [] ≡ ([], [])
unfolding drain
drain_zero = refl

next_line-nil : next_line [] ≡ none
unfolding next_line
next_line-nil = refl

-- With as much fuel as characters, draining gives the complete lines, and what is left has none.
drain_lem :
    (fuel : ℕ) (chunk more : Text)
    → length chunk ≤ fuel
    → (lines_from [] (chunk ++ more)
        ≡ (drain fuel chunk).0 ++ lines_from [] ((drain fuel chunk).1 ++ more))
      × (next_line (drain fuel chunk).1 ≡ none)
drain_lem zero [] more h = rw drain_zero (refl, next_line-nil)
drain_lem zero (c ∷ s) more h = absurd (omega arith)
drain_lem (suc fuel) chunk more h = elim (Option-cases (next_line chunk)) [
  | inl e ↦ rw (drain-none fuel chunk e) (refl, e)
  | inr ((line, rest), e) ↦
      let shorter = length-next_line chunk line rest e in
      let (same, left) = drain_lem fuel rest more (omega arith) in
      rw (drain_line fuel chunk line rest e)
        (lines_from-next_line [] chunk more line rest e ∙ ap (◌∷◌ line) same, left)
]

read_lines-lines_from :
    (reads : List Text) (chunk : Text)
    → read_lines reads chunk ≡ lines_from [] (chunk ++ concat reads)
unfolding read_lines
read_lines-lines_from [] chunk =
    let (same, left) = drain_lem (length chunk) chunk [] (omega arith) in
    sym (
      same
      ∙ ap (λ t. (drain (length chunk) chunk).0 ++ t)
          (rw append-nil (lines_from-no_line [] (drain (length chunk) chunk).1 left)))
read_lines-lines_from (more ∷ reads) chunk =
    let (same, left) = drain_lem (length chunk) chunk (more ++ concat reads) (omega arith) in
    sym (
      same
      ∙ ap (λ t. (drain (length chunk) chunk).0 ++ t)
          (sym (
            read_lines-lines_from reads ((drain (length chunk) chunk).1 ++ more)
            ∙ rw append_assoc refl)))

-- The lines are those of one text, ended by "\n" or "\r" each, and a last one without an end if it is not
-- empty: the text that the chunks give if each is decoded for itself, one after the other. So they do
-- not depend on where a line is cut, but they do on where a character is.
pub fetch_lines-lines_from :
    (decode : Bytes → Text) (reads : List Bytes)
    → fetch_lines decode reads ≡ lines_from [] (concat (map decode reads))
unfolding fetch_lines
fetch_lines-lines_from decode [] = read_lines-lines_from [] []
fetch_lines-lines_from decode (first ∷ reads) =
    read_lines-lines_from (map decode reads) (decode first)
