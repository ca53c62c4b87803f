-- ===== src/Prelude/Results.antt =====
-- What a chain of fallible steps returned says what each step returned.
use wintermute.Prelude.{
  ◌≡◌, refl, ◌⊎◌, inl, inr, Bool, true, false, Result, ok, err, arith, refuse_if, ◌>>=◌, ◌>>◌,
}

module _ {ℓ κ μ} {E : Type κ} {A : Type ℓ} {B : Type μ} where
  pub bind-ok :
      (m : Result E A) (f : A → Result E B) (b : B)
      → (m >>= f) ≡ ok b
      → (x : A) × (m ≡ ok x) × (f x ≡ ok b)
  bind-ok (ok a) f b h = (a, refl, h)
  bind-ok (err e) f b h = ground arith

pub seq-ok {κ μ} :
    {E : Type κ} {B : Type μ} (m : Result E (Unit {0})) (k : Result E B) (b : B)
    → (m >> k) ≡ ok b
    → (m ≡ ok tt) × (k ≡ ok b)
seq-ok (ok u) k b h = (refl, h)
seq-ok (err e) k b h = ground arith

pub refuse_if-ok {κ} : {E : Type κ} (c : Bool) (e : E) → refuse_if c e ≡ ok tt → c ≡ false
refuse_if-ok true e h = ground arith
refuse_if-ok false e h = refl

abbrev the_ok {ℓ κ} : (E : Type κ) {A : Type ℓ} → A → Result E A
the_ok E a = ok a

pub ok_inj {ℓ κ} : {E : Type κ} {A : Type ℓ} {a b : A} → the_ok E a ≡ ok b → a ≡ b
ok_inj h = ground arith

pub Result-cases {ℓ κ} :
    {E : Type κ} {A : Type ℓ} (r : Result E A) → ((a : A) × (r ≡ ok a)) ⊎ ((e : E) × (r ≡ err e))
Result-cases (ok a) = inl (a, refl)
Result-cases (err e) = inr (e, refl)
