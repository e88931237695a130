-- ===== src/Base/Calls.antt =====
-- How a Rust call ends: it returns, panics, waits, or has undefined behaviour. A call that waits goes on
-- once another thread has changed what it waits for.
-- `Result` and `unwrap` are those of Rust's standard library.
-- It models no file of the repository.
use mathlib.Core.Path.{◌≡◌, refl, subst}
use mathlib.Core.Bool.{Bool, true, false}
use hooch.Base.Tests.{if◌then◌else◌}
use mathlib.Core.Option.{Option, none, some}

pub data Exec {ℓ} (A : Type ℓ) : Type ℓ where
  done : A → Exec A
  panicked : Exec A
  blocked : Exec A
  undefined : Exec A

infixl 5 ◌>>=◌
abbrev pub ◌>>=◌ {ℓ κ} : {A : Type ℓ} {B : Type κ} → Exec A → (A → Exec B) → Exec B
done a >>= f = f a
panicked >>= f = panicked
blocked >>= f = blocked
undefined >>= f = undefined

pub data Result {ℓ κ} (A : Type ℓ) (E : Type κ) : Type (ℓ ⊔ κ) where
  ok : A → Result A E
  err : E → Result A E

abbrev pub unwrap {ℓ κ} : {A : Type ℓ} {E : Type κ} → Result A E → Exec A
unwrap (ok a) = done a
unwrap (err e) = panicked

abbrev pub unwrap_some {ℓ} : {A : Type ℓ} → Option A → Exec A
unwrap_some (some a) = done a
unwrap_some none = panicked

-- Rust's `catch_unwind`, with nothing in place of the panic's payload.
abbrev pub catch_unwind {ℓ} : {A : Type ℓ} → Exec A → Exec (Option A)
catch_unwind (done a) = done (some a)
catch_unwind panicked = done none
catch_unwind blocked = blocked
catch_unwind undefined = undefined

-- The call returns, and its result satisfies `P`.
abbrev pub Returns {ℓ} : {A : Type ℓ} → (A → Type 0) → Exec A → Type 0
Returns P (done a) = P a
Returns P panicked = ⊥
Returns P blocked = ⊥
Returns P undefined = ⊥

pub Returns-done {ℓ} :
    {A : Type ℓ} (P : A → Type 0) (m : Exec A) {a : A} → m ≡ done a → Returns P m → P a
Returns-done P m e h = subst (Returns P) e h

pub Returns-map {ℓ} :
    {A : Type ℓ} (P Q : A → Type 0) (m : Exec A)
    → Returns P m
    → ((a : A) → m ≡ done a → P a → Q a)
    → Returns Q m
Returns-map P Q (done a) h f = f a refl h
Returns-map P Q panicked h f = h
Returns-map P Q blocked h f = h
Returns-map P Q undefined h f = h

pub >>=-done {ℓ} : {A : Type ℓ} (m : Exec A) → (m >>= done) ≡ m
>>=-done (done a) = refl
>>=-done panicked = refl
>>=-done blocked = refl
>>=-done undefined = refl

pub Returns-bind {ℓ κ} :
    {A : Type ℓ} {B : Type κ} (P : A → Type 0) (Q : B → Type 0) (m : Exec A) (f : A → Exec B)
    → Returns P m
    → ((a : A) → P a → Returns Q (f a))
    → Returns Q (m >>= f)
Returns-bind P Q (done a) f h g = g a h
Returns-bind P Q panicked f h g = h
Returns-bind P Q blocked f h g = h
Returns-bind P Q undefined f h g = h

-- The result of a call that returns.
pub Returns-value {ℓ} :
    {A : Type ℓ} (P : A → Type 0) (m : Exec A) → Returns P m → (a : A) × (m ≡ done a) × P a
Returns-value P (done a) h = (a, refl, h)
Returns-value P panicked h = elim h [ ]
Returns-value P blocked h = elim h [ ]
Returns-value P undefined h = elim h [ ]

-- If the call returns, then its result satisfies `P`.
abbrev pub Whenever {ℓ} : {A : Type ℓ} → (A → Type 0) → Exec A → Type 0
Whenever P (done a) = P a
Whenever P panicked = Unit
Whenever P blocked = Unit
Whenever P undefined = Unit

pub Whenever-done {ℓ} :
    {A : Type ℓ} (P : A → Type 0) (m : Exec A) {a : A} → m ≡ done a → Whenever P m → P a
Whenever-done P m e h = subst (Whenever P) e h

pub Returns-both {ℓ} :
    {A : Type ℓ} (P Q : A → Type 0) (m : Exec A)
    → Returns P m
    → Whenever Q m
    → Returns (λ a. P a × Q a) m
Returns-both P Q (done a) h k = (h, k)
Returns-both P Q panicked h k = h
Returns-both P Q blocked h k = h
Returns-both P Q undefined h k = h

pub Whenever-of_Returns {ℓ} :
    {A : Type ℓ} (P : A → Type 0) (m : Exec A) → Returns P m → Whenever P m
Whenever-of_Returns P (done a) h = h
Whenever-of_Returns P panicked h = tt
Whenever-of_Returns P blocked h = tt
Whenever-of_Returns P undefined h = tt

pub Whenever-map {ℓ κ} :
    {A : Type ℓ} {B : Type κ} (P : B → Type 0) (m : Exec A) (f : A → B)
    → ((a : A) → P (f a))
    → Whenever P (m >>= λ a. done (f a))
Whenever-map P (done a) f h = h a
Whenever-map P panicked f h = tt
Whenever-map P blocked f h = tt
Whenever-map P undefined f h = tt

pub Whenever-bind {ℓ κ} :
    {A : Type ℓ} {B : Type κ} (P : A → Type 0) (Q : B → Type 0) (m : Exec A) (f : A → Exec B)
    → Whenever P m
    → ((a : A) → P a → Whenever Q (f a))
    → Whenever Q (m >>= f)
Whenever-bind P Q (done a) f h g = g a h
Whenever-bind P Q panicked f h g = tt
Whenever-bind P Q blocked f h g = tt
Whenever-bind P Q undefined f h g = tt

pub Whenever-then {ℓ κ} :
    {A : Type ℓ} {B : Type κ} (P : B → Type 0) (m : Exec A) (f : A → Exec B)
    → ((a : A) → Whenever P (f a))
    → Whenever P (m >>= f)
Whenever-then P (done a) f h = h a
Whenever-then P panicked f h = tt
Whenever-then P blocked f h = tt
Whenever-then P undefined f h = tt

pub Whenever-if :
    {A : Type 0} (P : A → Type 0) (b : Bool) (x y : Exec A)
    → Whenever P x
    → Whenever P y
    → Whenever P (if b then x else y)
Whenever-if P true x y hx hy = hx
Whenever-if P false x y hx hy = hy

-- The rest of a call knows what the first part has returned.
pub Whenever-returned :
    {A B : Type 0} (P : B → Type 0) (m : Exec A) (f : A → Exec B)
    → ((a : A) → m ≡ done a → Whenever P (f a))
    → Whenever P (m >>= f)
Whenever-returned P (done a) f h = h a refl
Whenever-returned P panicked f h = tt
Whenever-returned P blocked f h = tt
Whenever-returned P undefined f h = tt
