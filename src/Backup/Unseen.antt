-- ===== src/Backup/Unseen.antt =====
-- Failures that verrazzano-backup-hook/opensearch/opensearch.go does not notice.
use verrazzano_monitoring_op.Prelude.{
  String, ◌<>◌, ◌≡◌, refl, true, false, none, some, List, [], ◌∷◌, ◌++◌, ◌==◌,
}
use verrazzano_monitoring_op.Prelude.Int.{ℤ}
use verrazzano_monitoring_op.Backup.Hook.{ok, Setting, Call, http, Answer, ask}
use verrazzano_monitoring_op.Backup.Search.{Search, http_helper, delete_data, data_index_url}

-- the answer has arrived and been read, and its status is 200
pub record Accepted (answer : Answer) : Type 0 where
  pub error : answer.error ≡ none
  pub read_error : answer.read_error ≡ none
  pub status : (answer.status == 200) ≡ true
  pub decode_error : answer.decode_error ≡ none

-- the answer has arrived and been read, and its status is another one
pub record Refused (answer : Answer) : Type 0 where
  pub error : answer.error ≡ none
  pub read_error : answer.read_error ≡ none
  pub status : (answer.status == 200) ≡ false

module _ (setting : Setting) (o : Search) (d : ℤ)
    (timeout : setting.parse_duration o.timeout ≡ some d)
    (urls : (url : String) → setting.request_error url ≡ none) (env : List Call → Call → Answer)
    (tr : List Call) (method url body : String) where
  accepted :
      Accepted (env tr (http method url body))
      → http_helper setting o method url body env tr
        ≡ (ok (some (env tr (http method url body))), tr ++ http method url body ∷ [])
  unfolding http_helper ask
  accepted a = rw (timeout, urls url, a.error, a.read_error, a.status, a.decode_error) refl

  refused :
      Refused (env tr (http method url body))
      → http_helper setting o method url body env tr ≡ (ok none, tr ++ http method url body ∷ [])
  unfolding http_helper ask
  refused r = rw (timeout, urls url, r.error, r.read_error, r.status) refl

abbrev pub streams_call : Search → Call
streams_call o = http "DELETE" (o.base_url <> "/_data_stream/*") ""

abbrev pub indices_call : Setting → Search → Call
indices_call setting o = http "DELETE" (data_index_url setting o) ""

module _ (setting : Setting) (o : Search) (env : List Call → Call → Answer) (tr : List Call) where
  -- Where the timeout can be parsed and requests can be made, and the deletion of the data streams is
  -- acknowledged, `DeleteData` reports success also if OpenSearch refuses to delete the indices,
  -- whatever the status that it answers with.
  pub delete_data_unrefused :
      (d : ℤ)
      → setting.parse_duration o.timeout ≡ some d
      → ((url : String) → setting.request_error url ≡ none)
      → Accepted (env tr (streams_call o))
      → (env tr (streams_call o)).acknowledged ≡ some true
      → Refused (env (tr ++ streams_call o ∷ []) (indices_call setting o))
      → delete_data setting o env tr
        ≡ (ok tt, (tr ++ streams_call o ∷ []) ++ (indices_call setting o) ∷ [])
  unfolding delete_data
  delete_data_unrefused d timeout urls first acknowledged second =
      rw
        (
          accepted setting o d timeout urls env tr "DELETE" (o.base_url <> "/_data_stream/*") ""
              first,
          acknowledged,
          refused setting o d timeout urls env (tr ++ streams_call o ∷ []) "DELETE"
              (data_index_url setting o) "" second,
        )
        refl
