-- ===== src/Commands/Words.antt =====
-- What web/src/app/SlashCommands.js and web/src/components/ChatInput.jsx use of JavaScript's strings: `trim()`, `split(/\s+/)` and
-- `join(" ")`.
use Prim.Native.Char.{Char, code}
use Prim.Native.String
use text.Mathlib.TextLemmas.{nil-append, cons-append}
use coop_messenger.Prelude.{
  ◌≡◌, refl, ap, ◌∙◌, String, Bool, true, false, ◌&&◌, ◌||◌, not, List, [], ◌∷◌, all, eqb, leb,
  arith, if◌then◌else◌,
}

-- What `\s` matches and `trim` removes.
unfoldable pub is_white : Char → Bool
is_white c =
    (leb 9 (code c) && leb (code c) 13)
    || (eqb (code c) 32
        || (eqb (code c) 160
            || (eqb (code c) 5760
                || ((leb 8192 (code c) && leb (code c) 8202)
                    || (eqb (code c) 8232
                        || (eqb (code c) 8233
                            || (eqb (code c) 8239
                                || (eqb (code c) 8287
                                    || (eqb (code c) 12288 || eqb (code c) 65279)))))))))

unfoldable pub trim_start : String → String
trim_start String.[] = ""
trim_start (String.◌∷◌ c s) = let left = trim_start s in if is_white c then left else String.◌∷◌ c s

abbrev pub is_empty : String → Bool
is_empty String.[] = true
is_empty (String.◌∷◌ c s) = false

unfoldable pub trim_end : String → String
trim_end String.[] = ""
trim_end (String.◌∷◌ c s) =
    let left = trim_end s in if is_white c && is_empty left then "" else String.◌∷◌ c left

unfoldable pub trim : String → String
unfolding trim_start trim_end
trim s = trim_end (trim_start s)

-- Puts a character in front of the first part.
abbrev pub with_char : Char → List String → List String
with_char c [] = String.◌∷◌ c "" ∷ []
with_char c (w ∷ ws) = String.◌∷◌ c w ∷ ws

-- The parts of a text, whose first characters still belong to a separator if `in_white`.
unfoldable pub parts : Bool → String → List String
parts in_white String.[] = "" ∷ []
parts in_white (String.◌∷◌ c s) =
    let after_white = parts true s in
    let after_char = parts false s in
    if is_white c
    then (if in_white then after_white else "" ∷ after_white)
    else with_char c after_char

-- `split(/\s+/)`
unfoldable pub words : String → List String
unfolding parts
words = parts false

-- `join(" ")`
unfoldable pub unwords : List String → String
unwords [] = ""
unwords (w ∷ []) = w
unwords (w ∷ v ∷ ws) = String.◌++◌ w (String.◌∷◌ " " (unwords (v ∷ ws)))

abbrev pub no_white : String → Bool
no_white String.[] = true
no_white (String.◌∷◌ c s) = not (is_white c) && no_white s

abbrev pub all_white : String → Bool
all_white String.[] = true
all_white (String.◌∷◌ c s) = is_white c && all_white s

-- A word that `split` can give: not empty, and in one piece.
abbrev pub is_word : String → Bool
is_word String.[] = false
is_word (String.◌∷◌ c s) = not (is_white c) && no_white s

parts-no_white : (s : String) → no_white s ≡ true → parts false s ≡ s ∷ []
unfolding parts
parts-no_white String.[] h = refl
parts-no_white (String.◌∷◌ c s) h = ground (arith, parts-no_white s)

parts-append :
    (w t : String)
    → no_white w ≡ true
    → parts false (String.◌++◌ w (String.◌∷◌ " " t)) ≡ w ∷ parts true t
unfolding parts is_white
parts-append String.[] t h = rw nil-append refl
parts-append (String.◌∷◌ c w) t h = rw cons-append (ground (arith, parts-append w t))

starts_black : String → Bool
starts_black String.[] = false
starts_black (String.◌∷◌ c s) = not (is_white c)

starts_black-append : (s t : String) → starts_black s ≡ true → starts_black (String.◌++◌ s t) ≡ true
unfolding starts_black
starts_black-append String.[] t h = absurd (ground (arith, h))
starts_black-append (String.◌∷◌ c s) t h = rw cons-append h

starts_black_word : (s : String) → is_word s ≡ true → starts_black s ≡ true
unfolding starts_black
starts_black_word String.[] h = h
starts_black_word (String.◌∷◌ c s) h = ground arith

starts_black-unwords :
    (w : String) (ws : List String) → is_word w ≡ true → starts_black (unwords (w ∷ ws)) ≡ true
unfolding unwords
starts_black-unwords w [] h = starts_black_word w h
starts_black-unwords w (v ∷ ws) h =
    starts_black-append w (String.◌∷◌ " " (unwords (v ∷ ws))) (starts_black_word w h)

parts_black : (s : String) → starts_black s ≡ true → parts true s ≡ parts false s
unfolding starts_black parts
parts_black String.[] h = refl
parts_black (String.◌∷◌ c s) h = ground arith

no_white_word : (s : String) → is_word s ≡ true → no_white s ≡ true
no_white_word String.[] h = refl
no_white_word (String.◌∷◌ c s) h = h

-- Splitting gives back the words that were joined.
pub words-unwords :
    (w : String) (ws : List String)
    → is_word w ≡ true
    → all is_word ws ≡ true
    → words (unwords (w ∷ ws)) ≡ w ∷ ws
unfolding words unwords
words-unwords w [] h a = parts-no_white w (no_white_word w h)
words-unwords w (v ∷ ws) h a =
    parts-append w (unwords (v ∷ ws)) (no_white_word w h)
    ∙ ap (w ∷◌) (
        parts_black (unwords (v ∷ ws)) (starts_black-unwords v ws (ground arith))
        ∙ words-unwords v ws (ground arith) (ground arith))

trim_start_black : (s : String) → starts_black s ≡ true → trim_start s ≡ s
unfolding starts_black trim_start
trim_start_black String.[] h = refl
trim_start_black (String.◌∷◌ c s) h = ground arith

is_empty_black : (s : String) → starts_black s ≡ true → is_empty s ≡ false
unfolding starts_black
is_empty_black String.[] h = absurd (ground (arith, h))
is_empty_black (String.◌∷◌ c s) h = refl

trim_end_white : (s : String) → all_white s ≡ true → trim_end s ≡ ""
unfolding trim_end
trim_end_white String.[] h = refl
trim_end_white (String.◌∷◌ c s) h = rw (trim_end_white s (ground arith)) (ground arith)

trim_end-append_white :
    (s t : String) → all_white t ≡ true → trim_end (String.◌++◌ s t) ≡ trim_end s
unfolding trim_end
trim_end-append_white String.[] t h = rw nil-append (trim_end_white t h)
trim_end-append_white (String.◌∷◌ c s) t h = rw (cons-append, trim_end-append_white s t h) refl

is_empty-append : (s t : String) → is_empty t ≡ false → is_empty (String.◌++◌ s t) ≡ false
is_empty-append String.[] t h = rw nil-append h
is_empty-append (String.◌∷◌ c s) t h = rw cons-append refl

trim_end-append :
    (s t : String)
    → is_empty t ≡ false
    → trim_end t ≡ t
    → trim_end (String.◌++◌ s t) ≡ String.◌++◌ s t
unfolding trim_end
trim_end-append String.[] t h e = rw nil-append e
trim_end-append (String.◌∷◌ c s) t h e =
    rw (cons-append, trim_end-append s t h e, is_empty-append s t h) (ground arith)

trim_end_word : (s : String) → no_white s ≡ true → trim_end s ≡ s
unfolding trim_end
trim_end_word String.[] h = refl
trim_end_word (String.◌∷◌ c s) h = ground (arith, trim_end_word s)

trim_end-unwords :
    (w : String) (ws : List String)
    → is_word w ≡ true
    → all is_word ws ≡ true
    → trim_end (unwords (w ∷ ws)) ≡ unwords (w ∷ ws)
unfolding unwords trim_end
trim_end-unwords w [] h a = trim_end_word w (no_white_word w h)
trim_end-unwords w (v ∷ ws) h a =
    let rest : trim_end (unwords (v ∷ ws)) ≡ unwords (v ∷ ws) =
      trim_end-unwords v ws (ground arith) (ground arith) in
    trim_end-append w (String.◌∷◌ " " (unwords (v ∷ ws))) refl (
      rw rest (
        ground
          (arith, is_empty_black (unwords (v ∷ ws)) (starts_black-unwords v ws (ground arith)))))

-- A text loses the white space behind it, and nothing if it has none before it.
pub trim-unwords :
    (w : String) (ws : List String) (after : String)
    → is_word w ≡ true
    → all is_word ws ≡ true
    → all_white after ≡ true
    → trim (String.◌++◌ (unwords (w ∷ ws)) after) ≡ unwords (w ∷ ws)
unfolding trim
trim-unwords w ws after h a b =
    ap trim_end (
      trim_start_black (String.◌++◌ (unwords (w ∷ ws)) after)
        (starts_black-append (unwords (w ∷ ws)) after (starts_black-unwords w ws h)))
    ∙ trim_end-append_white (unwords (w ∷ ws)) after b
    ∙ trim_end-unwords w ws h a

trim_start_white : (s : String) → all_white s ≡ true → trim_start s ≡ ""
unfolding trim_start
trim_start_white String.[] h = refl
trim_start_white (String.◌∷◌ c s) h = rw (trim_start_white s (ground arith)) (ground arith)

-- A text without white space stays, whatever white space comes behind it.
pub trim-append_white :
    (s t : String) → no_white s ≡ true → all_white t ≡ true → trim (String.◌++◌ s t) ≡ s
unfolding trim
trim-append_white String.[] t h k = rw (nil-append, trim_start_white t k) (trim_end_white "" refl)
trim-append_white (String.◌∷◌ c s) t h k =
    ap trim_end (
      trim_start_black (String.◌++◌ (String.◌∷◌ c s) t)
        (starts_black-append (String.◌∷◌ c s) t (starts_black_word (String.◌∷◌ c s) h)))
    ∙ trim_end-append_white (String.◌∷◌ c s) t k
    ∙ trim_end_word (String.◌∷◌ c s) h
