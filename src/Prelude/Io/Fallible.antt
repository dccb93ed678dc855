-- ===== src/Prelude/Io/Fallible.antt =====
-- `◌>>=◌` for functions that may fail and call no server.
use verrazzano_monitoring_op.Prelude.Io.{Result, ok, err, panic}

infixl 10 ◌>>=◌ ◌>>◌
abbrev pub ◌>>=◌ {ℓ κ} : {A : Type ℓ} {B : Type κ} → Result A → (A → Result B) → Result B
ok a >>= f = f a
err e >>= f = err e
panic >>= f = panic

abbrev pub ◌>>◌ {ℓ κ} : {A : Type ℓ} {B : Type κ} → Result A → Result B → Result B
m >> n = m >>= λ _. n
