-- ===== src/Names.antt =====
-- The names of pkg/resources/helper.go, and of pkg/vmo/pvc_update.go.
pub mod Sequence
use verrazzano_monitoring_op.Prelude.{
  String, ◌<>◌, Option, none, some, List, [], ◌∷◌, ltb, if◌then◌else◌, length,
}
use verrazzano_monitoring_op.Prelude.Int.{ℤ, pos, add64}
use verrazzano_monitoring_op.Prelude.Text.{split, join, atoi, itoa}

abbrev pub vmo_service_name_prefix : String
vmo_service_name_prefix = "vmi-"

unfoldable pub get_meta_name : String → String → String
get_meta_name vmo_name component_name = vmo_service_name_prefix <> vmo_name <> "-" <> component_name

-- `tokens[len(tokens)-1]`; `split` returns no empty list
abbrev pub last_token : List String → String
last_token [] = ""
last_token (t ∷ []) = t
last_token (t ∷ u ∷ ts) = last_token (u ∷ ts)

-- `tokens[len(tokens)-1] = t`
abbrev pub set_last : List String → String → List String
set_last [] t = []
set_last (u ∷ []) t = t ∷ []
set_last (u ∷ v ∷ us) t = u ∷ set_last (v ∷ us) t

-- what `GetNextStringInSequence` does with the outcome of `Atoi`
count_up : String → List String → Option ℤ → String
count_up name tokens none = name <> "-1"
count_up name tokens (some number) = join (set_last tokens (itoa (add64 number (pos 1)))) "-"

unfoldable pub get_next_string_in_sequence : String → String
unfolding count_up
get_next_string_in_sequence name =
    let tokens = split name "-" in
    if ltb (length tokens) 2 then name <> "-1" else count_up name tokens (atoi (last_token tokens))
