-- ===== src/Base/Results.antt =====
-- The outcome of code that may end in `rim_report_error`, and the signed numbers.
use Prim.Native.Nat.{ℕ}
use mathlib.Core.Bool.{Bool, true, false, not, true≢false}
use mathlib.Core.Logic.{◌≢◌}
use mathlib.Core.Option.{Option, none, some}
use mathlib.Core.Path.{ap}

pub data Result {ℓ} (E A : Type ℓ) : Type ℓ where
  error : E → Result E A
  okay : A → Result E A

-- `negsuc n` is -(n + 1).
pub data ℤ : Type 0 where
  pos : ℕ → ℤ
  negsuc : ℕ → ℤ

-- The same outcome, with another result.
abbrev pub in_place : {E A B : Type 0} → B → Result E A → Result E B
in_place b (error e) = error e
in_place b (okay _) = okay b

-- The rest of a computation, which an error skips.
abbrev pub bind : {E A B : Type 0} → Result E A → (A → Result E B) → Result E B
bind (error e) f = error e
bind (okay a) f = f a

abbrev pub is_okay : {E A : Type 0} → Result E A → Bool
is_okay (error e) = false
is_okay (okay a) = true

pub okay≢error : {E A : Type 0} {a : A} {e : E} → (◌≢◌ {A = Result E A} (okay a) (error e))
okay≢error h = true≢false (ap is_okay h)

abbrev is_pos : ℤ → Bool
is_pos (pos n) = true
is_pos (negsuc n) = false

pub negsuc≢pos : {m n : ℕ} → negsuc m ≢ pos n
negsuc≢pos h = true≢false (ap (λ z. not (is_pos z)) h)

abbrev is_none {ℓ} : {A : Type ℓ} → Option A → Bool
is_none none = true
is_none (some _) = false

pub none≢some {ℓ} : {A : Type ℓ} {a : A} → (◌≢◌ {A = Option A} none (some a))
none≢some h = true≢false (ap is_none h)
