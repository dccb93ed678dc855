-- ===== src/Names/Sequence.antt =====
-- The names that `GetNextStringInSequence` counts through.

use verrazzano_monitoring_op.Prelude.{
  ℕ, ◌+◌, ◌<◌, ◌≡◌, refl, ap, ◌∙◌, String, ◌<>◌, none, List, [], ◌∷◌, ◌++◌, arith, ltb, length,
  length-append, ◌≢◌, false, Bool-cases, inl, inr,
}
use verrazzano_monitoring_op.Prelude.Int.{add64-pos}
use verrazzano_monitoring_op.Prelude.Text.{split, atoi, digits, itoa}
use verrazzano_monitoring_op.Prelude.Text.Parts.{
  split-append, split_of_Lacks, split-ne-nil, join-split, join-append_last,
}
use verrazzano_monitoring_op.Prelude.Text.Numbers.{atoi-digits, digits-Lacks}
use verrazzano_monitoring_op.Names.{last_token, set_last, get_next_string_in_sequence}

-- the n-th name of the sequence behind a base name
abbrev pub numbered : String → ℕ → String
numbered base n = base <> String.◌∷◌ "-" (digits n)

last_token-append : (ts : List String) (t : String) → last_token (ts ++ t ∷ []) ≡ t
last_token-append [] t = refl
last_token-append (u ∷ []) t = refl
last_token-append (u ∷ v ∷ us) t = last_token-append (v ∷ us) t

set_last-append : (ts : List String) (t u : String) → set_last (ts ++ t ∷ []) u ≡ ts ++ u ∷ []
set_last-append [] t u = refl
set_last-append (v ∷ []) t u = refl
set_last-append (v ∷ w ∷ us) t u = ap (λ (l : List String). v ∷ l) (set_last-append (w ∷ us) t u)

split-numbered :
    (base : String) (n : ℕ) → split (numbered base n) "-" ≡ split base "-" ++ digits n ∷ []
split-numbered base n =
    split-append base (digits n) "-"
    ∙ ap (λ (l : List String). split base "-" ++ l)
        (split_of_Lacks (digits n) "-" (digits-Lacks n "-" (omega arith)))

many_tokens : (ts : List String) (t : String) → ts ≢ [] → ltb (length (ts ++ t ∷ [])) 2 ≡ false
many_tokens [] t h = absurd (h refl)
many_tokens (u ∷ us) t h = ground (arith, length-append us (t ∷ []))

first : digits 1 ≡ "1"
unfolding digits
first = refl

-- From the n-th name of a sequence to the next one, up to the largest `int`.
pub next-numbered :
    (base : String) (n : ℕ)
    → n + 1 < 9223372036854775808
    → get_next_string_in_sequence (numbered base n) ≡ numbered base (n + 1)
unfolding get_next_string_in_sequence
next-numbered base n h =
    rw
      (
        split-numbered base n,
        many_tokens (split base "-") (digits n) (split-ne-nil base "-"),
        last_token-append (split base "-") (digits n),
        atoi-digits n (omega arith),
        set_last-append (split base "-"),
        add64-pos n 1 h,
      )
      (unfold itoa in
        join-append_last (split base "-") _ "-" (split-ne-nil base "-")
        ∙ ap (λ (s : String). s <> String.◌∷◌ "-" (digits (n + 1))) (join-split base "-"))

-- A name whose last part is no number starts a sequence at 1.
pub next_of_base :
    (base : String)
    → atoi (last_token (split base "-")) ≡ none
    → get_next_string_in_sequence base ≡ numbered base 1
unfolding get_next_string_in_sequence
next_of_base base h = elim (Bool-cases (ltb (length (split base "-")) 2)) [
  | inl e ↦ rw (e, first) refl
  | inr e ↦ rw (e, h, first) refl
]
