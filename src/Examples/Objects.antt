-- ===== src/Examples/Objects.antt =====
-- Index patterns of Dashboards.
use verrazzano_monitoring_op.Prelude.{
  any, ℕ, zero, suc, ◌-◌, ◌*◌, ◌≤◌, String, ◌≡◌, refl, some, List, [], ◌∷◌, ◌=ₜ◌, if◌then◌else◌,
  arith,
}
use verrazzano_monitoring_op.Prelude.Int.{pos}
use verrazzano_monitoring_op.Prelude.Io.{ok}
use verrazzano_monitoring_op.Prelude.Io.Cost.{AtMost}
use verrazzano_monitoring_op.Server.{Call, http, Reply}
use verrazzano_monitoring_op.SavedObject.{SavedObject}
use verrazzano_monitoring_op.Dashboards.{patterns_url, get_patterns, update_objects, titles_of}
use verrazzano_monitoring_op.Dashboards.Paging.{IsPage, page_reply, get_patterns_complete}
use verrazzano_monitoring_op.Dashboards.Titles.{sets_title, titles_stay_unique}
use verrazzano_monitoring_op.Examples.Inputs.{settings, answer}

abbrev pattern : String → String → SavedObject
pattern id title = record { id = id; title = title }

-- three patterns, of which two become the same
abbrev patterns : List SavedObject
patterns = pattern "1" "vmi-a" ∷ pattern "2" "vmi-b" ∷ pattern "3" "other" ∷ []

abbrev first_page : Reply
first_page = record (answer 200 "") {
  total = pos 3;
  saved_objects = pattern "1" "vmi-a" ∷ pattern "2" "vmi-b" ∷ [];
}

abbrev second_page : Reply
second_page = record (answer 200 "") { total = pos 3; saved_objects = pattern "3" "other" ∷ [] }

abbrev paging : List Call → Call → Reply
paging tr (http method url body) =
    if url =ₜ patterns_url "http://osd" 2 "" 1 then first_page else second_page
paging tr c = first_page

serves_pages :
    (tr : List Call) (page : ℕ)
    → 1 ≤ page
    → (page - 1) * 2 ≤ 3
    → IsPage patterns 2 page (page_reply paging "http://osd" 2 "" tr page)
unfolding patterns_url
serves_pages tr zero h le = absurd (omega arith)
serves_pages tr (suc zero) h le = record {
  error = refl;
  status = refl;
  decoded = refl;
  total = refl;
  items = refl;
}
serves_pages tr (suc (suc zero)) h le = record {
  error = refl;
  status = refl;
  decoded = refl;
  total = refl;
  items = refl;
}
serves_pages tr (suc (suc (suc n))) h le = absurd (omega arith)

get_patterns_complete_example :
    (get_patterns 4 settings "http://osd" 2 "" paging []).0 ≡ ok (some patterns)
get_patterns_complete_example =
    get_patterns_complete paging settings "http://osd" 2 "" patterns (λ url. refl) serves_pages
      (omega arith) 4 [] (omega arith)

get_patterns_run : get_patterns 4 settings "http://osd" 2 "" paging [] ≡ (
  ok (some patterns),
  http "GET" (patterns_url "http://osd" 2 "" 1) ""
      ∷ http "GET" (patterns_url "http://osd" 2 "" 2) ""
      ∷ [],
)
unfolding get_patterns patterns_url
get_patterns_run = refl

abbrev renamed : String → String
renamed title = if title =ₜ "other" then "" else "verrazzano-application*"

titles_stay_unique_example :
    AtMost
      (sets_title "verrazzano-application*")
      1
      (update_objects renamed settings "http://osd" (titles_of patterns) patterns)
unfolding titles_of any
titles_stay_unique_example =
    titles_stay_unique settings "http://osd" "verrazzano-application*" renamed (titles_of patterns)
      patterns

update_run :
    update_objects renamed settings "http://osd"
      (titles_of patterns)
      patterns
      (λ tr c. first_page)
      []
    ≡ (
      ok tt,
      http "PUT" "http://osd/api/saved_objects/index-pattern/1"
            "{\"attributes\":{\"title\":\"verrazzano-application*\"}}"
          ∷ http "DELETE" "http://osd/api/saved_objects/index-pattern/2" ""
          ∷ [],
    )
unfolding update_objects titles_of
update_run = refl
