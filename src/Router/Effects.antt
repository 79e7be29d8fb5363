-- ===== src/Router/Effects.antt =====
-- Code that acts on a state and may throw: the state stays as the throw left it.
use ocppwo.Common.{String, Result, ok, throws}

abbrev pub Eff : Type 0 → Type 0 → Type 0
Eff S A = S → Result A × S

-- std::function<void(std::string&&)>
abbrev pub Send : Type 0 → Type 0
Send S = String → Eff S (Unit {0})

abbrev pub after {ℓ} :
    {S : Type 0} {A : Type ℓ} {B : Type 0} → Result A × S → (A → Eff S B) → Result B × S
after (ok a, s) f = f a s
after (throws e, s) f = (throws e, s)

infixl 5 ◌>>=◌
abbrev pub ◌>>=◌ : {S A B : Type 0} → Eff S A → (A → Eff S B) → Eff S B
◌>>=◌ m f s = after (m s) f

abbrev pub lift : {S A : Type 0} → Result A → Eff S A
lift r s = (r, s)

abbrev pub rescue : {S A : Type 0} → Result A × S → (String → Eff S A) → Result A × S
rescue (ok a, s) f = (ok a, s)
rescue (throws e, s) f = f e s

-- `try { m } catch (const std::exception &e) { f(e.what()) }`
abbrev pub try_catch : {S A : Type 0} → Eff S A → (String → Eff S A) → Eff S A
try_catch m f s = rescue (m s) f
