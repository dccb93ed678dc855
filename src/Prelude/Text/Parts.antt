-- ===== src/Prelude/Text/Parts.antt =====
-- `strings.Split` and `strings.Join` undo one another.
use Prim.Native.Char.{Char, code}
use text.Mathlib.TextEquality.{Char-path}
use text.Mathlib.TextLemmas.{append_assoc, nil-append, cons-append}
use verrazzano_monitoring_op.Prelude.{
  String, ◌<>◌, ◌≡◌, ◌≢◌, refl, sym, ap, ◌∙◌, true, false, inl, inr, List, [], ◌∷◌, ◌++◌, ◌==◌,
  Bool-cases, ==_iff,
}
use verrazzano_monitoring_op.Prelude.Text.{split, push, join}

-- the separator does not occur
abbrev pub Lacks : Char → String → Type 0
Lacks sep String.[] = Unit
Lacks sep (String.◌∷◌ c s) = ((code c == code sep) ≡ false) × Lacks sep s

push-ne-nil : (c : Char) (ps : List String) → push c ps ≢ []
unfolding push
push-ne-nil c [] = cc
push-ne-nil c (p ∷ ps) = cc

pub split-ne-nil : (s : String) (sep : Char) → split s sep ≢ []
unfolding split
split-ne-nil String.[] sep = cc
split-ne-nil (String.◌∷◌ c s) sep = elim (Bool-cases (code c == code sep)) [
  | inl e ↦ rw e (cc)
  | inr e ↦ rw e (push-ne-nil c (split s sep))
]

join-push :
    (c sep : Char) (ps : List String) → ps ≢ [] → join (push c ps) sep ≡ String.◌∷◌ c (join ps sep)
unfolding join push
join-push c sep [] h = absurd (h refl)
join-push c sep (p ∷ []) h = refl
join-push c sep (p ∷ q ∷ ps) h = cons-append _ _ _

join-empty :
    (sep : Char) (ps : List String) → ps ≢ [] → join ("" ∷ ps) sep ≡ String.◌∷◌ sep (join ps sep)
unfolding join
join-empty sep [] h = absurd (h refl)
join-empty sep (p ∷ ps) h = nil-append _

-- Joining the parts of a split gives the text back.
pub join-split : (s : String) (sep : Char) → join (split s sep) sep ≡ s
unfolding split
join-split String.[] sep = unfold join in refl
join-split (String.◌∷◌ c s) sep = elim (Bool-cases (code c == code sep)) [
  | inl e ↦ rw e (
      join-empty sep _ (split-ne-nil s sep)
      ∙ ap (String.◌∷◌ sep) (join-split s sep)
      ∙ ap (λ (x : Char). String.◌∷◌ x s) (Char-path sep c (sym ((==_iff _ _).0 e))))
  | inr e ↦ rw e (join-push c sep _ (split-ne-nil s sep) ∙ ap (String.◌∷◌ c) (join-split s sep))
]

pub split_of_Lacks : (s : String) (sep : Char) → Lacks sep s → split s sep ≡ s ∷ []
unfolding split push
split_of_Lacks String.[] sep h = refl
split_of_Lacks (String.◌∷◌ c s) sep (h, hs) = rw (h, split_of_Lacks s sep hs) refl

push-append : (c : Char) (ps qs : List String) → ps ≢ [] → push c (ps ++ qs) ≡ push c ps ++ qs
unfolding push
push-append c [] qs h = absurd (h refl)
push-append c (p ∷ ps) qs h = refl

code_self : (c : Char) → (code c == code c) ≡ true
code_self c = (==_iff _ _).1 refl

-- A text behind a separator is split on its own.
pub split-append :
    (s t : String) (sep : Char) → split (s <> String.◌∷◌ sep t) sep ≡ split s sep ++ split t sep
unfolding split
split-append String.[] t sep = rw (nil-append, code_self sep) refl
split-append (String.◌∷◌ c s) t sep = elim (Bool-cases (code c == code sep)) [
  | inl e ↦ rw (cons-append, e, split-append s t sep) refl
  | inr e ↦ rw (cons-append, e, split-append s t sep) (push-append c _ _ (split-ne-nil s sep))
]

pub join-append_last :
    (ps : List String) (q : String) (sep : Char)
    → ps ≢ []
    → join (ps ++ q ∷ []) sep ≡ join ps sep <> String.◌∷◌ sep q
unfolding join
join-append_last [] q sep h = absurd (h refl)
join-append_last (p ∷ []) q sep h = refl
join-append_last (p ∷ r ∷ ps) q sep h =
    rw (join-append_last (r ∷ ps) q sep (cc), append_assoc, cons-append) refl
