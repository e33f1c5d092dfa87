-- ===== src/Solver.antt =====
-- What the solvers share: the error of oink/src/error.hpp, and the loops that may not end.
use urss.Base.{Option, none, some}

-- The result of a solver, or LOGIC_ERROR, which throws, or the fuel has run out.
pub data Result {ℓ} (A : Type ℓ) : Type ℓ where
  ok : A → Result A
  logic_error : Result A
  out_of_fuel : Result A

-- A loop on fuel: `none` means that the fuel ran out.
abbrev pub of_option {ℓ} : {A : Type ℓ} → Option A → Result A
of_option none = out_of_fuel
of_option (some a) = ok a

infixl 5 ◌>>=◌
abbrev pub ◌>>=◌ {ℓ κ} : {A : Type ℓ} {B : Type κ} → Result A → (A → Result B) → Result B
ok a >>= f = f a
logic_error >>= f = logic_error
out_of_fuel >>= f = out_of_fuel
