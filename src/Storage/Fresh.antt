-- ===== src/Storage/Fresh.antt =====
-- The names of a new storage element.
use text.Mathlib.TextLemmas.{append_cancel_left, tail-eq_of_cons-eq, length-cons}
use text.Mathlib.TextLemmas
use Prim.Native.String.{count}
use verrazzano_monitoring_op.Prelude.{
  ℕ, zero, suc, ◌+◌, ◌<◌, ◌≡◌, ◌≢◌, refl, sym, ap, ◌∙◌, String, Option, none, some, List, [], ◌∷◌,
  arith, All, false, ◌=ₜ◌,
}
use verrazzano_monitoring_op.Prelude.Text.{split, atoi, digits}
use verrazzano_monitoring_op.Prelude.Text.Numbers.{atoi-digits}
use verrazzano_monitoring_op.Prelude.Int.{ℤ, pos, pos_part}
use verrazzano_monitoring_op.Names.{last_token}
use verrazzano_monitoring_op.Prelude.Io.{ok}
use verrazzano_monitoring_op.Vmi.{Storage}
use verrazzano_monitoring_op.Storage.{init_storage_element}
use verrazzano_monitoring_op.Names.Sequence.{numbered, next-numbered, next_of_base}
use verrazzano_monitoring_op.Storage.Sizes.{
  init_storage_element-names_for, following, names_for, names_for_nil,
}

-- `k` names of a sequence, from the n-th on
abbrev pub numbers : String → ℕ → ℕ → List String
numbers base n zero = []
numbers base n (suc k) = numbered base n ∷ numbers base (n + 1) k

following-numbers :
    (k n : ℕ) (base : String)
    → n + k < 9223372036854775808
    → following k (numbered base n) ≡ numbers base (n + 1) k
following-numbers zero n base h = refl
following-numbers (suc k) n base h = rw (next-numbered base n (omega arith)) (
    ap (λ (l : List String). numbered base (n + 1) ∷ l)
      (following-numbers k (n + 1) base (omega arith)))

abbrev pub Distinct : List String → Type 0
Distinct [] = Unit
Distinct (x ∷ xs) = All (λ y. y ≢ x) xs × Distinct xs

numbered-injective :
    (base : String) (n m : ℕ)
    → n < 9223372036854775808
    → m < 9223372036854775808
    → numbered base n ≡ numbered base m
    → n ≡ m
numbered-injective base n m hn hm e =
    ap num (sym (atoi-digits n hn) ∙ ap atoi same ∙ atoi-digits m hm)
  where
    same : digits n ≡ digits m
    same = tail-eq_of_cons-eq (append_cancel_left base _ _ e)

    num : Option ℤ → ℕ
    num none = 0
    num (some z) = pos_part z

numbered-ne-base : (base : String) (n : ℕ) → numbered base n ≢ base
numbered-ne-base base n e = omega (
  arith,
  sym (TextLemmas.length-append base (String.◌∷◌ "-" (digits n))) ∙ ap count e,
  length-cons "-" (digits n),
)

later :
    (base : String) (m n k : ℕ)
    → m < n
    → n + k < 9223372036854775808
    → All (λ y. y ≢ numbered base m) (numbers base n k)
later base m n zero h b = tt
later base m n (suc k) h b = (
  λ e. absurd (omega (arith, numbered-injective base n m (omega arith) (omega arith) e)),
  later base m (n + 1) k (omega arith) (omega arith),
)

not_base : (base : String) (n k : ℕ) → All (λ y. y ≢ base) (numbers base n k)
not_base base n zero = tt
not_base base n (suc k) = (numbered-ne-base base n, not_base base (n + 1) k)

numbers-Distinct :
    (base : String) (n k : ℕ) → n + k < 9223372036854775808 → Distinct (numbers base n k)
numbers-Distinct base n zero h = tt
numbers-Distinct base n (suc k) h = (
  later base n (n + 1) k (omega arith) (omega arith),
  numbers-Distinct base (n + 1) k (omega arith),
)

-- A storage element with a size and without names, of a node group whose name does not end in a
-- number and that has at least one replica, gets the base name and then the base name with -1, -2 and
-- so on behind it, one for each replica; all of them differ, and nothing else of the element changes.
pub fresh_names :
    (s : Storage) (base : String) (r : ℕ)
    → (s.size =ₜ "") ≡ false
    → s.pvc_names ≡ []
    → atoi (last_token (split base "-")) ≡ none
    → r + 1 < 9223372036854775808
    → (init_storage_element (some s) (pos (r + 1)) base
        ≡ ok (some (record s { pvc_names = base ∷ numbers base 1 r })))
      × Distinct (base ∷ numbers base 1 r)
fresh_names s base r sized unnamed h b = (
  (init_storage_element-names_for s (r + 1) base sized).0
      ∙ ap (λ (ns : List String). ok (some (record s { pvc_names = ns })))
          (ap (names_for (r + 1) base) unnamed ∙ names),
  (not_base base 1 r, numbers-Distinct base 1 r (omega arith)),
)
  where
    sequence : (k : ℕ) → k < 9223372036854775807 → following k base ≡ numbers base 1 k
    sequence zero c = refl
    sequence (suc k) c =
        rw (next_of_base base h)
          (ap (λ (l : List String). numbered base 1 ∷ l) (following-numbers k 1 base (omega arith)))

    names : names_for (r + 1) base [] ≡ base ∷ numbers base 1 r
    names = names_for_nil r base ∙ ap (λ (l : List String). base ∷ l) (sequence r (omega arith))
