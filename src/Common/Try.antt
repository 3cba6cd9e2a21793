-- ===== src/Common/Try.antt =====
-- The result of a call that may fail, with the error's value.
use mathlib.Core.Path.{◌≡◌, refl, ap, subst}
use mathlib.Core.Bool.{Bool, true, false}
use mathlib.Core.Option.{Option, none, some}
use mathlib.Core.Logic.{◌⊎◌, inl, inr}

pub data Try {ℓ κ} (E : Type ℓ) (A : Type κ) : Type (ℓ ⊔ κ) where
  err : E → Try E A
  ok : A → Try E A

module _ {ℓ κ μ} {E : Type ℓ} {A : Type κ} {B : Type μ} where
  infixl 5 ◌>>=◌
  abbrev pub ◌>>=◌ : Try E A → (A → Try E B) → Try E B
  err fault >>= next = err fault
  ok a >>= next = next a

  -- A chain that succeeds has a first call that did.
  pub >>=-eq-ok :
      (m : Try E A) (next : A → Try E B) {b : B}
      → (m >>= next) ≡ ok b
      → (a : A) × (m ≡ ok a) × (next a ≡ ok b)
  >>=-eq-ok (err fault) next h = cc
  >>=-eq-ok (ok a) next h = (a, refl, h)

-- The error of a call, seen from its caller.
abbrev pub map_err {ℓ κ μ} : {E : Type ℓ} {F : Type κ} {A : Type μ} → (E → F) → Try E A → Try F A
map_err wrap (err fault) = err (wrap fault)
map_err wrap (ok a) = ok a

-- A test that must hold, and a value that must be there, or else an error.
abbrev pub require {ℓ} : {E : Type ℓ} → Bool → E → Try E (Unit {0})
require false fault = err fault
require true fault = ok tt

abbrev pub found {ℓ κ} : {E : Type ℓ} {A : Type κ} → Option A → E → Try E A
found none fault = err fault
found (some a) fault = ok a

pub require-eq-ok {ℓ} :
    {E : Type ℓ} (b : Bool) (e : E) {u : Unit {0}} → require b e ≡ ok u → b ≡ true
require-eq-ok true e h = refl
require-eq-ok false e h = cc

pub found-eq-ok {ℓ κ} :
    {E : Type ℓ} {A : Type κ} (o : Option A) (e : E) {a : A} → found o e ≡ ok a → o ≡ some a
found-eq-ok none e h = cc
found-eq-ok (some b) e h = cc

pub map_err-eq-ok {ℓ κ μ} :
    {E : Type ℓ} {F : Type κ} {A : Type μ} (wrap : E → F) (m : Try E A) {a : A}
    → map_err wrap m ≡ ok a
    → m ≡ ok a
map_err-eq-ok wrap (err fault) h = cc
map_err-eq-ok wrap (ok a) h = cc

pub Try-cases {ℓ κ} :
    {E : Type ℓ} {A : Type κ} (m : Try E A) → ((a : A) × (m ≡ ok a)) ⊎ ((e : E) × (m ≡ err e))
Try-cases (err fault) = inr (fault, refl)
Try-cases (ok a) = inl (a, refl)

-- Every error of a call has a property.
abbrev pub Fails {ℓ κ μ} : {E : Type ℓ} {A : Type κ} → (E → Type μ) → Try E A → Type (ℓ ⊔ κ ⊔ μ)
Fails {E = E} P m = (e : E) → m ≡ err e → P e

pub Fails-bind {ℓ κ μ ν} :
    {E : Type ℓ} {A : Type κ} {B : Type μ} (P : E → Type ν) (m : Try E A) (next : A → Try E B)
    (e : E)
    → (m >>= next) ≡ err e
    → Fails P m
    → ((a : A) → next a ≡ err e → P e)
    → P e
Fails-bind P (err fault) next e h k l = k e (ap err (cc h))
Fails-bind P (ok a) next e h k l = l a h

pub Fails-require {ℓ μ} :
    {E : Type ℓ} (P : E → Type μ) (b : Bool) (e : E) → P e → Fails P (require b e)
Fails-require P true e h e' k = cc
Fails-require P false e h e' k = subst P (cc k) h

pub Fails-found {ℓ κ μ} :
    {E : Type ℓ} {A : Type κ} (P : E → Type μ) (o : Option A) (e : E) → P e → Fails P (found o e)
Fails-found P none e h e' k = subst P (cc k) h
Fails-found P (some a) e h e' k = cc

pub ok_inj {ℓ κ} : {E : Type ℓ} {A : Type κ} {a b : A} → Path (Try E A) (ok a) (ok b) → a ≡ b
ok_inj h = cc

pub ok_pair {ℓ κ μ} :
    {E : Type ℓ} {A : Type κ} {B : Type μ} {a c : A} {b d : B}
    → Path (Try E (A × B)) (ok (a, b)) (ok (c, d))
    → (a ≡ c) × (b ≡ d)
ok_pair h = (cc, cc)

-- A guard ahead of a chain.
pub Fails-require_bind {ℓ μ} :
    {E : Type 0} {B : Type ℓ} (P : E → Type μ) (b : Bool) {e : E} (next : Unit {0} → Try E B)
    → P e
    → Fails P (next tt)
    → Fails P (require b e >>= next)
Fails-require_bind P true next p k e' h = k e' h
Fails-require_bind P false next p k e' h = subst P (cc h) p

pub Fails-found_bind {ℓ κ μ} :
    {E : Type 0} {A : Type κ} {B : Type ℓ} (P : E → Type μ) (o : Option A) {e : E}
    {next : A → Try E B}
    → P e
    → ((a : A) → Fails P (next a))
    → Fails P (found o e >>= next)
Fails-found_bind P none p k e' h = subst P (cc h) p
Fails-found_bind P (some a) p k e' h = k a e' h
