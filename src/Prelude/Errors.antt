-- ===== src/Prelude/Errors.antt =====
-- A computation that may raise: `err` carries the exception.
use mathlib.Core.Path.{◌≡◌, refl}
use mathlib.Core.Logic.{◌⊎◌, inl, inr}
use mathlib.Core.Bool.{Bool, true, false}
use mathlib.Core.Option.{Option, none, some}
use mathlib.Core.List.{List, [], ◌∷◌}
use qveris_capability_benchm.Prelude.Lists.{All}

pub data Result {ℓ κ} (E : Type ℓ) (A : Type κ) : Type (ℓ ⊔ κ) where
  ok : A → Result E A
  err : E → Result E A

module _ {ℓ} {E : Type ℓ} where
  infixl 5 ◌>>=◌ ◌>>◌
  abbrev pub ◌>>=◌ {κ μ} : {A : Type κ} {B : Type μ} → Result E A → (A → Result E B) → Result E B
  ok a >>= f = f a
  err e >>= f = err e

  abbrev pub ◌>>◌ {κ} : {B : Type κ} → Result E (Unit {0}) → Result E B → Result E B
  ok u >> k = k
  err e >> k = err e

  -- `if b: raise e`
  abbrev pub raise_if : Bool → E → Result E (Unit {0})
  raise_if true e = err e
  raise_if false e = ok tt

  -- `if o is None: raise e`
  abbrev pub require {κ} : {A : Type κ} → E → Option A → Result E A
  require e none = err e
  require e (some a) = ok a

  pub require-eq-ok {κ} :
      {A : Type κ} (e : E) (o : Option A) {a : A} → require e o ≡ ok a → o ≡ some a
  require-eq-ok e none h = absurd (cc)
  require-eq-ok e (some b) h = cc

  -- `try: … except Exception as exc: raise f(exc) from exc`
  abbrev pub rethrow {κ μ} : {A : Type κ} {F : Type μ} → (F → E) → Result F A → Result E A
  rethrow f (ok a) = ok a
  rethrow f (err e) = err (f e)

  -- `for x in xs: check(x)`: the first exception ends the loop.
  abbrev pub for_each {κ} : {A : Type κ} → (A → Result E (Unit {0})) → List A → Result E (Unit {0})
  for_each check [] = ok tt
  for_each check (x ∷ xs) = check x >> for_each check xs

  pub >>-eq-ok {κ} :
      {B : Type κ} (m : Result E (Unit {0})) (k : Result E B) {b : B}
      → (m >> k) ≡ ok b
      → (m ≡ ok tt) × (k ≡ ok b)
  >>-eq-ok (ok u) k h = (refl, h)
  >>-eq-ok (err e) k h = absurd (cc)

  pub >>=-eq-ok {κ μ} :
      {A : Type κ} {B : Type μ} (r : Result E A) (go : A → Result E B) {c : B}
      → (r >>= go) ≡ ok c
      → (a : A) × (r ≡ ok a) × (go a ≡ ok c)
  >>=-eq-ok (err e) go h = absurd (cc)
  >>=-eq-ok (ok a) go h = (a, refl, h)

  pub raise_if-eq-ok : (b : Bool) (e : E) → raise_if b e ≡ ok tt → b ≡ false
  raise_if-eq-ok true e h = absurd (cc)
  raise_if-eq-ok false e h = refl

  pub for_each-All {κ} :
      {A : Type κ} (check : A → Result E (Unit {0})) (xs : List A)
      → for_each check xs ≡ ok tt
      → All (λ x. check x ≡ ok tt) xs
  for_each-All check [] h = tt
  for_each-All check (x ∷ xs) h =
      let (first, rest) = >>-eq-ok (check x) (for_each check xs) h in
      (first, for_each-All check xs rest)

  pub All-for_each {κ} :
      {A : Type κ} (check : A → Result E (Unit {0})) (xs : List A)
      → All (λ x. check x ≡ ok tt) xs
      → for_each check xs ≡ ok tt
  All-for_each check [] h = refl
  All-for_each check (x ∷ xs) h = rw h.0 (All-for_each check xs h.1)

  pub Result-cases {κ} :
      {A : Type κ} (r : Result E A) → ((a : A) × (r ≡ ok a)) ⊎ ((e : E) × (r ≡ err e))
  Result-cases (ok a) = inl (a, refl)
  Result-cases (err e) = inr (e, refl)

pub rethrow-eq-ok {ℓ κ μ} :
    {E : Type ℓ} {A : Type κ} {F : Type μ} (f : F → E) (r : Result F A) {a : A}
    → rethrow f r ≡ ok a
    → r ≡ ok a
rethrow-eq-ok f (ok b) h = cc
rethrow-eq-ok f (err e) h = absurd (cc)

pub ok-injective {ℓ κ} :
    {E : Type ℓ} {A : Type κ} {a b : A} → (h : ◌≡◌ {A = Result E A} (ok a) (ok b)) → b ≡ a
ok-injective h = cc
