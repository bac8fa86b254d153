-- ===== src/Admin/Topics.antt =====
-- The topics of an invite.
use Prim.Native.Char.{code}
use Prim.Native.String
use text.Mathlib.TextLemmas.{nil-append, cons-append}
use coop_messenger.Prelude.{
  ◌≡◌, refl, sym, ap, ◌∙◌, String, Bool, true, ◌&&◌, not, List, [], ◌∷◌, all, eqb, map, filter,
  arith, ◌===◌,
}
use coop_messenger.Commands.{is_white, all_white, no_white, trim, trim_start, trim-append_white}
use coop_messenger.Admin.Names.{split_topics, join_names, topic_names, topics_clean}

abbrev no_comma : String → Bool
no_comma String.[] = true
no_comma (String.◌∷◌ c s) = not (eqb (code c) b',') && no_comma s

split_topics-one : (s : String) → no_comma s ≡ true → split_topics s ≡ s ∷ []
unfolding split_topics
split_topics-one String.[] h = refl
split_topics-one (String.◌∷◌ c s) h = ground (arith, split_topics-one s (ground arith))

split_topics-append :
    (s t : String)
    → no_comma s ≡ true
    → split_topics (String.◌++◌ s (String.◌∷◌ "," t)) ≡ s ∷ split_topics t
unfolding split_topics
split_topics-append String.[] t h = rw nil-append refl
split_topics-append (String.◌∷◌ c s) t h =
    rw (cons-append, split_topics-append s t (ground arith)) (ground arith)

split_topics-join_names :
    (name : String) (names : List String)
    → all no_comma (name ∷ names) ≡ true
    → split_topics (join_names (name ∷ names)) ≡ name ∷ names
unfolding join_names
split_topics-join_names name [] h = split_topics-one name (ground arith)
split_topics-join_names name (other ∷ names) h =
    split_topics-append name (join_names (other ∷ names)) (ground arith)
    ∙ ap (◌∷◌ name) (split_topics-join_names other names (ground arith))

-- A part of what is typed between two commas: a name, or nothing, with white space around it.
pub record Piece : Type 0 where
  pub before : String
  pub name : String
  pub after : String

abbrev pub text_of : Piece → String
text_of piece = String.◌++◌ piece.before (String.◌++◌ piece.name piece.after)

abbrev pub is_piece : Piece → Bool
is_piece piece =
    all_white piece.before && no_white piece.name && no_comma piece.name && all_white piece.after

-- Texts with one comma between them.
abbrev pub with_commas : List String → String
with_commas [] = ""
with_commas (t ∷ []) = t
with_commas (t ∷ ts) = String.◌++◌ t (String.◌∷◌ "," (with_commas ts))

abbrev pub is_typed : String → Bool
is_typed name = not (name === "")

join_names-with_commas : (l : List String) → join_names l ≡ with_commas l
unfolding join_names
join_names-with_commas [] = refl
join_names-with_commas (t ∷ []) = refl
join_names-with_commas (t ∷ u ∷ ts) = rw (← join_names-with_commas (u ∷ ts)) refl

no_comma-append :
    (s t : String) → no_comma s ≡ true → no_comma t ≡ true → no_comma (String.◌++◌ s t) ≡ true
no_comma-append String.[] t h k = rw nil-append k
no_comma-append (String.◌∷◌ c s) t h k =
    rw cons-append (ground (arith, h, no_comma-append s t (ground arith) k))

no_comma_white : (s : String) → all_white s ≡ true → no_comma s ≡ true
unfolding is_white
no_comma_white String.[] h = refl
no_comma_white (String.◌∷◌ c s) h = ground (arith, h, no_comma_white s (ground (arith, h)))

text_of-no_comma : (l : List Piece) → all is_piece l ≡ true → all no_comma (map text_of l) ≡ true
text_of-no_comma [] h = refl
text_of-no_comma (piece ∷ l) h =
    let rest = text_of-no_comma l (ground (arith, h)) in
    let here =
      no_comma-append piece.before (String.◌++◌ piece.name piece.after)
        (no_comma_white piece.before (ground (arith, h)))
        (no_comma-append piece.name piece.after (ground (arith, h))
          (no_comma_white piece.after (ground (arith, h)))) in
    rw (here, rest) refl

trim_start-append_white :
    (s t : String) → all_white s ≡ true → trim_start (String.◌++◌ s t) ≡ trim_start t
unfolding trim_start
trim_start-append_white String.[] t h = rw nil-append refl
trim_start-append_white (String.◌∷◌ c s) t h =
    rw cons-append (ground (arith, h, trim_start-append_white s t (ground (arith, h))))

trim-text_of :
    (l : List Piece) → all is_piece l ≡ true → map trim (map text_of l) ≡ map (λ q. q.name) l
unfolding trim
trim-text_of [] h = refl
trim-text_of (piece ∷ l) h =
    rw
      (
        trim_start-append_white piece.before (String.◌++◌ piece.name piece.after)
            (ground (arith, h)),
        trim-append_white piece.name piece.after (ground (arith, h)) (ground (arith, h)),
        trim-text_of l (ground (arith, h)),
      )
      refl

topic_names_lem :
    (piece : Piece) (pieces : List Piece)
    → all is_piece (piece ∷ pieces) ≡ true
    → topic_names (with_commas (map text_of (piece ∷ pieces)))
      ≡ filter is_typed (map (λ q. q.name) (piece ∷ pieces))
topic_names_lem piece pieces h =
    ap (λ l. filter is_typed (map trim l))
      (ap split_topics (sym (join_names-with_commas (map text_of (piece ∷ pieces))))
        ∙ split_topics-join_names (text_of piece) (map text_of pieces)
            (text_of-no_comma (piece ∷ pieces) h))
    ∙ ap (filter is_typed) (trim-text_of (piece ∷ pieces) h)

kept-no_comma :
    (l : List Piece)
    → all is_piece l ≡ true
    → all no_comma (filter is_typed (map (λ q. q.name) l)) ≡ true
kept-no_comma [] h = refl
kept-no_comma (piece ∷ l) h = ground (arith, h, kept-no_comma l (ground (arith, h)))

-- If the field of the topics has names in it, without commas and without white space in them, with
-- commas between them and white space around any of them, and between some commas perhaps no name, but
-- at least one name in all, then what is sent to the server are these names, in their order, with one
-- comma and no white space between them, and split at its commas it gives exactly them.
pub split_topics-topics_clean :
    (piece : Piece) (pieces : List Piece) (name : String) (names : List String)
    → all is_piece (piece ∷ pieces) ≡ true
    → filter is_typed (map (λ q. q.name) (piece ∷ pieces)) ≡ name ∷ names
    → let sent = topics_clean (with_commas (map text_of (piece ∷ pieces))) in
      (sent ≡ with_commas (name ∷ names)) × (split_topics sent ≡ name ∷ names)
unfolding topics_clean
split_topics-topics_clean piece pieces name names h kept =
    let no_commas : all no_comma (name ∷ names) ≡ true =
      rw kept at (kept-no_comma (piece ∷ pieces) h) in
    rw (topic_names_lem piece pieces h, kept)
      (join_names-with_commas (name ∷ names), split_topics-join_names name names no_commas)
