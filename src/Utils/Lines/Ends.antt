-- ===== src/Utils/Lines/Ends.antt =====
-- The loop over the lines of a chunk comes to its end.
use coop_messenger.Prelude.{
  ℕ, zero, suc, ◌≤◌, ◌≡◌, refl, ap, ◌∙◌, none, [], ◌∷◌, arith, leb, length, Option-cases,
  Bool-cases, inl, inr,
}
use coop_messenger.Utils.Lines.{
  Text, next_line, drain, drain-none, drain_line, drain_zero, drain_lem, length-next_line,
  next_line-nil,
}

drain_more :
    (fuel : ℕ) (chunk : Text) → length chunk ≤ fuel → drain (suc fuel) chunk ≡ drain fuel chunk
drain_more zero [] h = rw drain_zero (drain-none 0 [] next_line-nil)
drain_more zero (c ∷ s) h = absurd (omega arith)
drain_more (suc fuel) chunk h = elim (Option-cases (next_line chunk)) [
  | inl e ↦ drain-none (suc fuel) chunk e ∙ rw (drain-none fuel chunk e) refl
  | inr ((line, rest), e) ↦
      let shorter = length-next_line chunk line rest e in
      rw
        (
          drain_line (suc fuel) chunk line rest e,
          drain_line fuel chunk line rest e,
          drain_more fuel rest (omega arith),
        )
        refl
]

drain_enough :
    (fuel : ℕ) (chunk : Text) → length chunk ≤ fuel → drain fuel chunk ≡ drain (length chunk) chunk
drain_enough zero [] h = refl
drain_enough zero (c ∷ s) h = absurd (omega arith)
drain_enough (suc fuel) chunk h = elim (Bool-cases (leb (length chunk) fuel)) [
  | inl more ↦ drain_more fuel chunk (ground arith) ∙ drain_enough fuel chunk (ground arith)
  | inr exactly ↦ let same : suc fuel ≡ length chunk = ground arith in ap (λ n. drain n chunk) same
]

length-drain : (fuel : ℕ) (chunk : Text) → length (drain fuel chunk).0 ≤ length chunk
unfolding drain
length-drain zero chunk = omega arith
length-drain (suc fuel) chunk = elim (Option-cases (next_line chunk)) [
  | inl e ↦ rw (drain-none fuel chunk e) (omega arith)
  | inr ((line, rest), e) ↦
      let shorter = length-next_line chunk line rest e in
      let fewer = length-drain fuel rest in rw (drain_line fuel chunk line rest e) (omega arith)
]

-- The loop over a chunk ends: with as many rounds as the chunk has code units, or with any more, it
-- comes to the same lines, of which there are no more than code units, and in what is left no line
-- is complete, so that no further round would do anything.
pub drain_ends :
    (fuel : ℕ) (chunk : Text)
    → length chunk ≤ fuel
    → (drain fuel chunk ≡ drain (length chunk) chunk)
      × (length (drain fuel chunk).0 ≤ length chunk)
      × (next_line (drain fuel chunk).1 ≡ none)
drain_ends fuel chunk h =
    (drain_enough fuel chunk h, length-drain fuel chunk, (drain_lem fuel chunk [] h).1)
