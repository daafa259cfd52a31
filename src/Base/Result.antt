-- ===== src/Base/Result.antt =====
-- Kernel code that may call `panic`: a value, or the panic's message.
use mathlib.Core.Path.{◌≡◌}
use mathlib.Core.Bool.{Bool, true, false}
use Prim.Native.String.{String}

pub data Res {ℓ} (A : Type ℓ) : Type ℓ where
  ok : A → Res A
  panic : String → Res A

infixl 5 ◌>>=◌
abbrev pub ◌>>=◌ {ℓ κ} : {A : Type ℓ} {B : Type κ} → Res A → (A → Res B) → Res B
panic message >>= next = panic message
ok value >>= next = next value

-- `if(!test) panic(message);`
abbrev pub check {ℓ} : {B : Type ℓ} → Bool → String → Res B → Res B
check true m k = k
check false m k = panic m

pub ok-injective {ℓ} : {A : Type ℓ} {a b : A} → ok a ≡ ok b → a ≡ b
ok-injective e = cc
