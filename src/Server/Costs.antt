-- ===== src/Server/Costs.antt =====
-- How often the parts that the clients of a server share call it.
use verrazzano_monitoring_op.Prelude.{ℕ, ◌≤◌, String, Option, none, some, arith}
use verrazzano_monitoring_op.Prelude.Io.{Error, call}
use verrazzano_monitoring_op.Prelude.Io.Cost.{
  AtMost-if, AtMost-bind_free, AtMost, AtMost-pure, AtMost-raise, AtMost-call, AtMost-bind,
}
use verrazzano_monitoring_op.Server.{Config, Call, http, check_error, ask, request, request_json}

module _ {weight : Call → ℕ} where
  pub AtMost-check_error : (e : Option Error) → AtMost weight 0 (check_error e)
  AtMost-check_error none = AtMost-pure 0 tt
  AtMost-check_error (some e) = AtMost-raise 0 e

  pub AtMost-ask : (n : ℕ) (c : Call) → weight c ≤ n → AtMost weight n (ask c)
  unfolding ask
  AtMost-ask n c h = record {
    bound = λ env tr. omega (
      arith,
      (AtMost-bind n 0 (call c) _ (AtMost-call n c h) (λ reply.
            AtMost-bind 0 0 _ _ (AtMost-check_error reply.error) (λ u. AtMost-pure 0 reply))).bound
          env tr,
    );
  }

  -- a request is free where HTTP is
  pub AtMost-request :
      (config : Config) (method url body : String) (e : Error)
      → weight (http method url body) ≤ 0
      → AtMost weight 0 (request config method url body e)
  unfolding request
  AtMost-request config method url body e h =
      AtMost-bind_free 0 _ _ (AtMost-check_error (config.new_request_error url)) (λ u.
        AtMost-bind_free 0 _ _ (AtMost-ask 0 (http method url body) h)
          (λ reply. AtMost-if 0 _ _ _ (AtMost-pure 0 reply) (AtMost-raise 0 e)))

  pub AtMost-request_json :
      (config : Config) (method url body : String) (e : Error)
      → weight (http method url body) ≤ 0
      → AtMost weight 0 (request_json config method url body e)
  unfolding request_json
  AtMost-request_json config method url body e h =
      AtMost-bind_free 0 _ _ (AtMost-request config method url body e h) (λ reply.
        AtMost-bind_free 0 _ _ (AtMost-check_error reply.decode_error) (λ u. AtMost-pure 0 reply))
