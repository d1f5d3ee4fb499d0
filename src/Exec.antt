-- ===== src/Exec.antt =====
-- Operations that change a state and may fail: what they return is beside the state that they leave,
-- also where they return an error.
pub mod Keeps
use wos.Abi.{Error, Result, ok, err}

abbrev pub Exec {ℓ} : (State A : Type ℓ) → Type ℓ
Exec State A = State → Result A × State

pub gets {ℓ} : {State A : Type ℓ} → (State → A) → Exec State A
gets look = λ s. (ok (look s), s)

pub modify : {State : Type 0} → (State → State) → Exec State (Unit {0})
modify change = λ s. (ok tt, change s)

-- The return value, for a caller that goes on whatever it is, and the call for one that does not look
-- at it.
pub attempt {ℓ} : {State A : Type ℓ} → Exec State A → Exec State (Result A)
attempt op s = let (answer, after) = op s in (ok answer, after)

pub ignore : {State A : Type 0} → Exec State A → Exec State (Unit {0})
ignore op s = (ok tt, (op s).1)

pub raise {ℓ} : {State A : Type ℓ} → Error → Exec State A
raise code = λ s. (err code, s)

pub lift {ℓ} : {State A : Type ℓ} → Result A → Exec State A
lift answer = λ s. (answer, s)

pub pure {ℓ} : {State A : Type ℓ} → A → Exec State A
pure answer = λ s. (ok answer, s)

abbrev pub continue {ℓ} : {State A B : Type ℓ} → Result A → (A → Exec State B) → Exec State B
continue (err code) next = λ s. (err code, s)
continue (ok answer) next = next answer

infixl 10 ◌>>=◌ ◌>>◌
-- With it the seven above open too.
unfoldable pub ◌>>=◌ {ℓ} : {State A B : Type ℓ} → Exec State A → (A → Exec State B) → Exec State B
unfolding gets modify attempt ignore raise lift pure
op >>= next = λ s. continue (op s).0 next (op s).1

abbrev pub ◌>>◌ {ℓ} : {State A B : Type ℓ} → Exec State A → Exec State B → Exec State B
op >> after = op >>= (λ _. after)
