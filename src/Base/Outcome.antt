-- ===== src/Base/Outcome.antt =====
-- What a call ends with: a value, or the exception that it raises.
use mathlib.Core.Path.{◌≡◌, refl}
use mathlib.Core.Bool.{Bool, true, false}

pub data Result {ℓ} (E : Type 0) (A : Type ℓ) : Type ℓ where
  ok : A → Result E A
  err : E → Result E A

abbrev pub is_ok {ℓ} : {E : Type 0} {A : Type ℓ} → Result E A → Bool
is_ok (ok value) = true
is_ok (err exception) = false

-- `if test: raise exception`
abbrev pub raise_if : {E : Type 0} → Bool → E → Result E (Unit {0})
raise_if false exception = ok tt
raise_if true exception = err exception

-- `except E as exc: raise F`
abbrev pub rethrow {ℓ} : {E F : Type 0} {A : Type ℓ} → (E → F) → Result E A → Result F A
rethrow convert (err exception) = err (convert exception)
rethrow convert (ok value) = ok value

-- What stands behind a call is skipped where the call raises.
abbrev pub ◌>>=◌ {ℓ κ} :
    {E : Type 0} {A : Type ℓ} {B : Type κ} (call : Result E A) (next : A → Result E B) → Result E B
err exception >>= next = err exception
ok value >>= next = next value

abbrev pub ◌>>◌ {ℓ} :
    {E : Type 0} {B : Type ℓ} (call : Result E (Unit {0})) (next : Result E B) → Result E B
call >> next = call >>= λ done. next

infixl 5 ◌>>=◌ ◌>>◌
-- A chain that returned: its first call returned, and the rest did with that value.
pub >>=-eq-ok {ℓ κ} :
    {E : Type 0} {A : Type ℓ} {B : Type κ} (call : Result E A) (next : A → Result E B) {result : B}
    → (call >>= next) ≡ ok result
    → (value : A) × (call ≡ ok value) × (next value ≡ ok result)
>>=-eq-ok (err exception) next h = cc
>>=-eq-ok (ok value) next h = (value, refl, h)

pub raise_if-eq-ok :
    {E : Type 0} (test : Bool) (e : E) {u : Unit {0}} → raise_if test e ≡ ok u → test ≡ false
raise_if-eq-ok true e h = cc
raise_if-eq-ok false e h = refl

pub rethrow-eq-ok {ℓ} :
    {E F : Type 0} {A : Type ℓ} (f : E → F) (m : Result E A) {a : A} → rethrow f m ≡ ok a → m ≡ ok a
rethrow-eq-ok f (ok a) h = cc
rethrow-eq-ok f (err e) h = cc

pub >>-eq-ok {ℓ} :
    {E : Type 0} {B : Type ℓ} (test : Bool) (e : E) {k : Result E B} {b : B}
    → (raise_if test e >> k) ≡ ok b
    → (test ≡ false) × (k ≡ ok b)
>>-eq-ok true e h = cc
>>-eq-ok false e h = (refl, h)

pub ok_inj {ℓ} : {E : Type 0} {A : Type ℓ} {a b : A} → ◌≡◌ {A = Result E A} (ok a) (ok b) → a ≡ b
ok_inj h = cc

pub ok_of {ℓ} : {E : Type 0} {A : Type ℓ} (m : Result E A) → is_ok m ≡ true → (a : A) × (m ≡ ok a)
ok_of (ok a) h = (a, refl)
ok_of (err e) h = cc
