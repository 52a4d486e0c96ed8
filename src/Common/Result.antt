-- ===== src/Common/Result.antt =====
-- The result of code that may throw: `need(ok, message)` throws `std::runtime_error(message)`.
use Prim.Native.String.{String}
use mathlib.Core.Path.{◌≡◌, refl}
use mathlib.Core.Logic.{◌⊎◌, inl, inr}
use mathlib.Core.Bool.{Bool, true, false}
use mathlib.Core.Option.{Option, none, some}

pub data Result {ℓ} (Value : Type ℓ) : Type ℓ where
  err : String → Result Value
  ok : Value → Result Value

abbrev pub need : Bool → String → Result (Unit {0})
need false message = err message
need true message = ok tt

abbrev pub need_some {ℓ} : {Value : Type ℓ} → Option Value → String → Result Value
need_some (some value) message = ok value
need_some none message = err message

infixl 5 ◌>>=◌
infixl 5 ◌>>◌
abbrev pub ◌>>=◌ {ℓ κ} : {V : Type ℓ} {W : Type κ} → Result V → (V → Result W) → Result W
err thrown >>= next = err thrown
ok value >>= next = next value

abbrev pub ◌>>◌ {ℓ} : {W : Type ℓ} → Result (Unit {0}) → Result W → Result W
err thrown >> next = err thrown
ok done >> next = next

pub Result-cases {ℓ} :
    {Value : Type ℓ} (r : Result Value)
    → ((value : Value) × (r ≡ ok value)) ⊎ ((thrown : String) × (r ≡ err thrown))
Result-cases (err thrown) = inr (thrown, refl)
Result-cases (ok value) = inl (value, refl)

-- A bind that returned: its first part returned, and the rest did on that value.
pub >>=-eq-ok {ℓ κ} :
    {V : Type ℓ} {W : Type κ} (first : Result V) (next : V → Result W) {w : W}
    → (first >>= next) ≡ ok w
    → (value : V) × (first ≡ ok value) × (next value ≡ ok w)
>>=-eq-ok (err thrown) next returned = cc
>>=-eq-ok (ok value) next returned = (value, refl, returned)

pub >>-eq-ok {ℓ} :
    {W : Type ℓ} (first : Result (Unit {0})) (next : Result W) {w : W}
    → (first >> next) ≡ ok w
    → (first ≡ ok tt) × (next ≡ ok w)
>>-eq-ok (err thrown) next returned = cc
>>-eq-ok (ok done) next returned = (refl, returned)

-- A guard that did not throw.
pub need-eq-ok : (b : Bool) (message : String) → need b message ≡ ok tt → b ≡ true
need-eq-ok true message h = refl
need-eq-ok false message h = cc

-- Equal results have equal values.
pub same_ok {ℓ} : {A : Type ℓ} (a b : A) → ◌≡◌ {A = Result A} (ok a) (ok b) → a ≡ b
same_ok a b h = cc

pub same_pair {ℓ κ} :
    {A : Type ℓ} {B : Type κ} (a a' : A) (b b' : B)
    → ◌≡◌ {A = Result (A × B)} (ok (a, b)) (ok (a', b'))
    → b ≡ b'
same_pair a a' b b' h = cc
