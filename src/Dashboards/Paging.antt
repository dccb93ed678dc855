-- ===== src/Dashboards/Paging.antt =====
-- The loop over the pages of `getPatterns` in pkg/opensearch_dashboards/opensearch_dashboards_upgrade.go.
use verrazzano_monitoring_op.Prelude.{
  ℕ, zero, suc, ◌+◌, ◌-◌, ◌*◌, ◌≤◌, ◌<◌, String, ◌≡◌, refl, ap, inl, inr, true, false, none, some,
  List, [], ◌∷◌, ◌++◌, arith, leb, if◌then◌else◌, Bool-cases, length, take,
}
use verrazzano_monitoring_op.Prelude.Int.{pos}
use verrazzano_monitoring_op.Prelude.Io.{ok}
use native.Mathlib.Nat.{add-zero}
use verrazzano_monitoring_op.Server.{Config, Call, http, Reply}
use verrazzano_monitoring_op.SavedObject.{SavedObject}
use verrazzano_monitoring_op.Dashboards.{patterns_url, pages_loop, get_patterns}

module _ {ℓ} {A : Type ℓ} where
  abbrev pub drop : ℕ → List A → List A
  drop zero xs = xs
  drop (suc n) [] = []
  drop (suc n) (x ∷ xs) = drop n xs

  take-append-drop : (n k : ℕ) (xs : List A) → take n xs ++ take k (drop n xs) ≡ take (n + k) xs
  take-append-drop zero k xs = let e : 0 + k ≡ k = omega arith in rw e refl
  take-append-drop (suc n) zero [] = let e : suc n + 0 ≡ suc n = omega arith in rw e refl
  take-append-drop (suc n) (suc k) [] =
      let e : suc n + suc k ≡ suc (n + suc k) = omega arith in rw e refl
  take-append-drop (suc n) k (x ∷ xs) =
      let e : suc n + k ≡ suc (n + k) = omega arith in rw (e, take-append-drop n k xs) refl

  length-take_le : (n : ℕ) (xs : List A) → length (take n xs) ≤ n
  length-take_le zero xs = omega arith
  length-take_le (suc n) [] = omega arith
  length-take_le (suc n) (x ∷ xs) = omega (arith, length-take_le n xs)

  length-take_short : (n : ℕ) (xs : List A) → length (take n xs) < length xs → n ≤ length xs
  length-take_short zero xs h = omega arith
  length-take_short (suc n) [] h = absurd (omega arith)
  length-take_short (suc n) (x ∷ xs) h = omega (arith, length-take_short n xs (omega arith))

  take_all : (n : ℕ) (xs : List A) → length xs ≤ n → take n xs ≡ xs
  take_all zero [] h = refl
  take_all zero (x ∷ xs) h = absurd (omega arith)
  take_all (suc n) [] h = refl
  take_all (suc n) (x ∷ xs) h = ap (λ t. x ∷ t) (take_all n xs (omega arith))

next : (k n : ℕ) → k * n + n ≡ (k + 1) * n
next k n = grind arith

-- the answer to the request for a page
abbrev pub page_reply : (List Call → Call → Reply) → String → ℕ → String → List Call → ℕ → Reply
page_reply env endpoint per_page search_query tr page =
    env tr (http "GET" (patterns_url endpoint per_page search_query page) "")

-- The answer is the page of a Dashboards that holds `objects`.
pub record IsPage (objects : List SavedObject) (per_page page : ℕ) (reply : Reply) : Type 0 where
  pub error : reply.error ≡ none
  pub status : reply.status ≡ 200
  pub decoded : reply.decode_error ≡ none
  pub total : reply.total ≡ pos (length objects)
  pub items : reply.saved_objects ≡ take per_page (drop ((page - 1) * per_page) objects)

module _ (env : List Call → Call → Reply) (config : Config) (endpoint : String) (per_page : ℕ)
    (search_query : String) (objects : List SavedObject)
    (made : (url : String) → config.new_request_error url ≡ none)
    (serves : (tr : List Call) (page : ℕ)
      → 1 ≤ page
      → (page - 1) * per_page ≤ length objects
      → IsPage objects per_page page (page_reply env endpoint per_page search_query tr page))
    (positive : 0 < per_page) where
  url : ℕ → String
  url page = patterns_url endpoint per_page search_query page

  reached :
      (c : ℕ)
      → leb (length objects) (length (take (c + per_page) objects)) ≡ true
      → length objects ≤ c + per_page
  reached c e = ground (arith, length-take_le (c + per_page) objects)

  advanced :
      (rounds page c : ℕ)
      → c ≡ (page - 1) * per_page
      → length objects < c + suc rounds
      → 1 ≤ page
      → leb (length objects) (length (take (c + per_page) objects)) ≡ false
      → (c + per_page ≡ (page + 1 - 1) * per_page)
        × (c + per_page ≤ length objects)
        × (length objects < c + per_page + rounds)
  advanced rounds page c h more p e =
      let le = length-take_short (c + per_page) objects (ground arith) in
      let e : page + 1 - 1 ≡ page - 1 + 1 = omega arith in
      (rw (e, h) (next (page - 1) per_page), le, omega arith)

  -- one round
  round :
      (rounds page c : ℕ) (tr : List Call)
      → c ≡ (page - 1) * per_page
      → IsPage objects per_page page (page_reply env endpoint per_page search_query tr page)
      → pages_loop (suc rounds) config endpoint per_page search_query page (take c objects) env tr
        ≡ (if leb (length objects) (length (take (c + per_page) objects))
            then (ok (some (take (c + per_page) objects)), tr ++ http "GET" (url page) "" ∷ [])
            else pages_loop rounds config endpoint per_page search_query
                (page + 1)
                (take (c + per_page) objects)
                env
                (tr ++ http "GET" (url page) "" ∷ []))
  unfolding pages_loop url
  round rounds page c tr h reply =
      let objects' = take (c + per_page) objects in
      rw
        (
          made (url page),
          reply.error,
          reply.status,
          reply.decoded,
          reply.total,
          reply.items,
          ← h,
          take-append-drop c per_page objects,
          add-zero (length objects),
          add-zero (length objects'),
        )
        (elim (Bool-cases (leb (length objects) (length objects'))) [
          | inl e ↦ rw e refl
          | inr e ↦ rw e refl
        ])

  served :
      (rounds page c : ℕ) (tr : List Call)
      → c ≡ (page - 1) * per_page
      → c ≤ length objects
      → length objects < c + rounds
      → 1 ≤ page
      → (pages_loop rounds config endpoint per_page search_query page (take c objects) env tr).0
        ≡ ok (some objects)
  served zero page c tr h le more p = absurd (omega arith)
  served (suc rounds) page c tr h le more p =
      rw (round rounds page c tr h (serves tr page p (rw (← h) le)))
        (elim (Bool-cases (leb (length objects) (length (take (c + per_page) objects)))) [
          | inl e ↦ rw (e, take_all (c + per_page) objects (reached c e)) refl
          | inr e ↦ rw e (
              let (h', le', more') = advanced rounds page c h more p e in
              served rounds (page + 1) (c + per_page) _ h' le' more' (omega arith))
        ])

  -- Where requests can be made, the size of a page is positive, and Dashboards answers the request for a
  -- page, as far as there are any, with that part of its index patterns and the number of them all,
  -- `get_patterns` ends in one round more than there are index patterns, or any larger number of rounds,
  -- and returns all of them in their order.
  pub get_patterns_complete :
      (rounds : ℕ) (tr : List Call)
      → length objects < rounds
      → (get_patterns rounds config endpoint per_page search_query env tr).0 ≡ ok (some objects)
  unfolding get_patterns
  get_patterns_complete rounds tr h =
      served rounds 1 0 tr (omega arith) (omega arith) (omega arith) (omega arith)
