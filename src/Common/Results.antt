-- ===== src/Common/Results.antt =====
-- A C++ computation that may throw: the exception is its `what()` text.
use Prim.Native.String.{String}
use mathlib.Core.Path.{◌≡◌}

pub data Result {ℓ} (A : Type ℓ) : Type ℓ where
  ok : A → Result A
  throws : String → Result A

infixl 5 ◌>>=◌
abbrev pub ◌>>=◌ {ℓ κ} : {A : Type ℓ} {B : Type κ} → Result A → (A → Result B) → Result B
ok a >>= f = f a
throws e >>= f = throws e

-- `try { … } catch (const std::exception &e) { … }`
abbrev pub catch {ℓ} : {A : Type ℓ} → Result A → (String → Result A) → Result A
catch (ok a) f = ok a
catch (throws e) f = f e

-- `try { … } catch (...) { }` around an assignment: the old value stays.
abbrev pub or_else {ℓ} : {A : Type ℓ} → Result A → A → A
or_else (ok a) d = a
or_else (throws e) d = d

abbrev pub Throws {ℓ} : {A : Type ℓ} → Result A → Type ℓ
Throws r = (e : String) × (r ≡ throws e)

-- tl::expected<A, std::string>: an answer or an error text, without an exception.
pub data Expected {ℓ} (A : Type ℓ) : Type ℓ where
  expected : A → Expected A
  unexpected : String → Expected A
