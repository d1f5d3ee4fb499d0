-- ===== src/Exec/Keeps.antt =====
-- Predicates that an operation keeps, whether it fails or not.
use wos.Prelude.{Bool, true, false, if◌then◌else◌}
use wos.Abi.{Error, Result, ok, err}
use wos.Exec.{Exec, gets, modify, attempt, ignore, raise, lift, pure, continue, ◌>>=◌}

pub record Keeps {ℓ κ} {State A : Type ℓ} (Good : State → Type κ) (op : Exec State A)
    : Type (ℓ ⊔ κ) where
  pub at : (before : State) → Good before → Good (op before).1

pub Keeps-modify {κ} :
    {State : Type 0} {Good : State → Type κ} (change : State → State)
    → ((before : State) → Good before → Good (change before))
    → Keeps Good (modify change)
unfolding modify
Keeps-modify change keeps = record { at = keeps }

pub Keeps-ignore {κ} :
    {State A : Type 0} {Good : State → Type κ} (op : Exec State A)
    → Keeps Good op
    → Keeps Good (ignore op)
unfolding ignore
Keeps-ignore op keeps = record { at = keeps.at }

module _ {ℓ κ} {State A : Type ℓ} {Good : State → Type κ} where
  pub Keeps-if :
      (test : Bool) (yes_op no_op : Exec State A)
      → Keeps Good yes_op
      → Keeps Good no_op
      → Keeps Good (if test then yes_op else no_op)
  Keeps-if false yes_op no_op yes_keeps no_keeps = no_keeps
  Keeps-if true yes_op no_op yes_keeps no_keeps = yes_keeps

  pub Keeps-attempt : (op : Exec State A) → Keeps Good op → Keeps Good (attempt op)
  unfolding attempt
  Keeps-attempt op keeps = record { at = keeps.at }

  pub Keeps-gets : (look : State → A) → Keeps Good (gets look)
  unfolding gets
  Keeps-gets look = record { at = λ _ good. good }

  pub Keeps-lift : (answer : Result A) → Keeps Good (lift answer)
  unfolding lift
  Keeps-lift answer = record { at = λ _ good. good }

  pub Keeps-pure : (answer : A) → Keeps Good (pure answer)
  unfolding pure
  Keeps-pure answer = record { at = λ _ good. good }

  pub Keeps-raise : (code : Error) → Keeps {A = A} Good (raise code)
  unfolding raise
  Keeps-raise code = record { at = λ _ good. good }

-- The rest of a block, for each answer that it can go on with.
Keeps-continue {ℓ κ} :
    {State A B : Type ℓ} {Good : State → Type κ} (answer : Result A) (next : A → Exec State B)
    → ((a : A) → Keeps Good (next a))
    → Keeps Good (continue answer next)
Keeps-continue (err code) next keeps = record { at = λ _ good. good }
Keeps-continue (ok a) next keeps = record { at = (keeps a).at }

pub Keeps-bind {ℓ κ} :
    {State A B : Type ℓ} {Good : State → Type κ} (op : Exec State A) (next : A → Exec State B)
    → Keeps Good op
    → ((a : A) → Keeps Good (next a))
    → Keeps Good (op >>= next)
unfolding ◌>>=◌
Keeps-bind op next first rest = record {
  at = λ s good. (Keeps-continue (op s).0 next rest).at (op s).1 (first.at s good);
}

pub ruleset keeps_rules = (
  Keeps-bind, Keeps-if, Keeps-attempt, Keeps-ignore, Keeps-gets, Keeps-lift, Keeps-pure,
  Keeps-raise,
)
