-- ===== src/Backup/Hook.antt =====
-- Steps of the backup hook, verrazzano-backup-hook: what it calls, and how it ends.
-- A duration is a number of nanoseconds; `Seconds()` of one is compared with whole seconds as the
-- exact quotient. `os.Exit` ends the program.
use verrazzano_monitoring_op.Prelude.{
  ℕ, ◌+◌, ◌*◌, ◌/◌, String, Bool, Option, none, some, List, [], ◌∷◌, ◌++◌, ltb, if◌then◌else◌,
}
use verrazzano_monitoring_op.Prelude.Int.{ℤ, pos, pos_part, neg_part, ◌+ℤ◌, quot}
use verrazzano_monitoring_op.Prelude.Io.{Error}

pub data Outcome {ℓ} (A : Type ℓ) : Type ℓ where
  ok : A → Outcome A
  err : Error → Outcome A
  exit : Outcome A
  panic : Outcome A
  running : Outcome A  -- a loop is not yet left after the rounds that it was given

-- what the environment and the libraries give
pub record Setting : Type 0 where
  pub environment : String → Option String
  pub parse_duration : String → Option ℤ  -- `time.ParseDuration`, in nanoseconds
  pub request_error : String → Option Error  -- of `http.NewRequestWithContext`, for a URL
  pub quote : String → String  -- `strconv.Quote`
  pub parse_bool : String → Option Bool  -- `strconv.ParseBool`

pub data Call : Type 0 where
  random : Call  -- `rand.Int` below `constants.Max`
  http : String → String → String → Call
  get_object : String → String → String → Call  -- a kind, a namespace and a name
  list_objects : String → String → String → Call  -- a kind, a namespace and a label selector
  update_object : String → String → String → Call
  delete_object : String → String → String → Call
  scale : String → String → ℤ → Call  -- a namespace, a deployment and its new replicas
  exec_in_pod : String → String → String → Call  -- a pod, a container and a command
  read_file : String → Call
  read_credentials : String → Call  -- a credentials file, written to a temporary file and read by viper
  get_context : Call  -- the clients of Kubernetes, which `main` makes anew in each round
  update_scale : String → String → ℤ → Call  -- of a stateful set

pub record Pod : Type 0 where
  pub name : String
  pub phase : String
  pub conditions : List (String × String)  -- type and status

-- An answer; of a JSON document, a field that it does not name is `none`.
pub record Answer : Type 0 where
  pub error : Option Error
  pub not_found : Bool
  pub number : ℕ
  pub status : ℕ
  pub read_error : Option Error
  pub decode_error : Option Error
  pub health : Option String
  pub acknowledged : Option Bool
  pub accepted : Option Bool
  pub snapshots : Option (List String)  -- the states of the snapshots
  pub data_streams : Option (List String)  -- the states of the data streams
  pub nodes_total : Option ℤ
  pub nodes_successful : Option ℤ
  pub nodes_failed : Option ℤ
  pub pods : List Pod
  pub text : String
  pub names : List String
  pub replicas : Option ℤ
  pub storage_location : String
  pub post_hooks : List (List String)  -- the timeouts of the hooks of each resource
  pub credential_name : String
  pub credential_key : String
  pub credential_namespace : String
  pub region : String
  pub s3_url : String
  pub bucket : String
  pub access_key : String
  pub secret_access_key : String

abbrev pub Hook {ℓ} : Type ℓ → Type ℓ
Hook A = (List Call → Call → Answer) → List Call → Outcome A × List Call

module _ {ℓ} {A : Type ℓ} where
  abbrev pub pure : A → Hook A
  pure a env trace = (ok a, trace)

  abbrev pub stop : Outcome A → Hook A
  stop o env trace = (o, trace)

module _ {ℓ} {A B : Type ℓ} where
  abbrev pub continue :
      (A → Hook B) → (List Call → Call → Answer) → Outcome A → List Call → Outcome B × List Call
  continue f env (ok a) trace = f a env trace
  continue f env (err e) trace = (err e, trace)
  continue f env exit trace = (exit, trace)
  continue f env panic trace = (panic, trace)
  continue f env running trace = (running, trace)

  infixl 10 ◌>>=◌ ◌>>◌
  abbrev pub ◌>>=◌ : Hook A → (A → Hook B) → Hook B
  ◌>>=◌ m f env trace = continue f env (m env trace).0 (m env trace).1

  abbrev pub ◌>>◌ : Hook A → Hook B → Hook B
  m >> n = m >>= λ _. n

  abbrev pub handle :
      (Error → Hook B)
      → (A → Hook B)
      → (List Call → Call → Answer)
      → Outcome A
      → List Call
      → Outcome B × List Call
  handle g f env (ok a) trace = f a env trace
  handle g f env (err e) trace = g e env trace
  handle g f env exit trace = (exit, trace)
  handle g f env panic trace = (panic, trace)
  handle g f env running trace = (running, trace)

  -- `if err != nil { g } else { f }`
  abbrev pub on_error : Hook A → (Error → Hook B) → (A → Hook B) → Hook B
  on_error m g f env trace = handle g f env (m env trace).0 (m env trace).1

abbrev pub call : Call → Hook Answer
call c env trace = (ok (env trace c), trace ++ c ∷ [])

-- `if err != nil { return err }`
abbrev pub check_error : Option Error → Hook (Unit {0})
check_error none = pure tt
check_error (some e) = stop (err e)

-- `if err != nil { return fmt.Errorf(…) }`
abbrev pub relabelled : Error → Option Error → Hook (Unit {0})
relabelled e none = pure tt
relabelled e (some inner) = stop (err e)

unfoldable pub ask : Call → Hook Answer
ask c = do answer ← call c; check_error answer.error; pure answer

-- a variable after a JSON document has been decoded into it
abbrev pub kept {ℓ} : {A : Type ℓ} → Option A → A → A
kept none v = v
kept (some w) v = w

abbrev pub some_or_exit {ℓ} : {A : Type ℓ} → Option A → Hook A
some_or_exit none = stop exit
some_or_exit (some a) = pure a

abbrev pub some_or_raise {ℓ} : {A : Type ℓ} → Error → Option A → Hook A
some_or_raise e none = stop (err e)
some_or_raise e (some a) = pure a

abbrev pub some_or_panic {ℓ} : {A : Type ℓ} → Option A → Hook A
some_or_panic none = stop panic
some_or_panic (some a) = pure a

-- `GetEnvWithDefault`
unfoldable pub get_env_with_default : Setting → String → String → String
get_env_with_default setting key default_value = kept (setting.environment key) default_value

abbrev pub billion : ℕ
billion = 1000000000

abbrev pub wait_min : ℕ
wait_min = 10

abbrev pub wait_max : ℕ
wait_max = 25

-- `float64(n) < d.Seconds()` of whole seconds and a duration
abbrev pub before : ℤ → ℤ → Bool
before n d = ltb (pos_part n * billion + neg_part d) (pos_part d + neg_part n * billion)

-- `int(d.Seconds())`
abbrev pub whole_seconds : ℤ → ℤ
whole_seconds d = quot d billion

-- the seconds to wait for a random number and a timeout
unfoldable pub wait_seconds : ℕ → ℤ → ℤ
unfolding quot
wait_seconds number timeout =
    let random_int = if ltb number wait_min then (wait_min + wait_max) / 2 else number in
    if ltb (pos_part timeout) (random_int * billion + neg_part timeout)
    then whole_seconds timeout
    else pos random_int

-- `WaitRandom`; that it sleeps does not show
unfoldable pub wait_random : Setting → String → Hook ℤ
unfolding wait_seconds
wait_random setting timeout = do
  answer ← call random
  relabelled "Unable to generate random number" answer.error
  d ← some_or_raise "Unable to parse time duration" (setting.parse_duration timeout)
  pure (wait_seconds answer.number d)

-- The time passed after one more wait, or the error `e` where the timeout has passed.
unfoldable pub wait_or : Setting → String → ℤ → ℤ → Error → Hook ℤ
unfolding wait_random ◌+ℤ◌
wait_or setting timeout total time e =
    if before time total
    then (wait_random setting timeout >>= λ duration. pure (time +ℤ duration))
    else stop (err e)

-- `BasicAuth` of interface.go
pub record BasicAuth : Type 0 where
  pub required : Bool
  pub username : String
  pub password : String
