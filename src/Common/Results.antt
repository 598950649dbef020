-- ===== src/Common/Results.antt =====
-- Rust's `Result`, and code that reads and writes a state and may return early with `?`.
use mathlib.Core.Path.{◌≡◌, refl, ap}
use mathlib.Core.Logic.{◌⊎◌, inl, inr}
use mathlib.Core.Option.{Option, none, some}

pub data Result {ℓ κ} (E : Type κ) (A : Type ℓ) : Type (ℓ ⊔ κ) where
  ok : A → Result E A
  err : E → Result E A

-- A call that began in a state: its result, and the state that it left. What was written before
-- an early return stays written.
abbrev pub Effect : Type 0 → Type 0 → Type 0 → Type 0
Effect S E A = S → Result E A × S

module _ {S E A : Type 0} where
  abbrev pub pure : A → Effect S E A
  pure a s = (ok a, s)

  abbrev pub fail : E → Effect S E A
  fail e s = (err e, s)

  -- `result?`
  abbrev pub lift : Result E A → Effect S E A
  lift r s = (r, s)

  abbrev pub gets : (S → A) → Effect S E A
  gets f s = (ok (f s), s)

abbrev pub modify : {S E : Type 0} → (S → S) → Effect S E (Unit {0})
modify f s = (ok tt, f s)

infixl 5 ◌>>=◌ ◌>>◌
abbrev pub ◌>>=◌ : {S E A B : Type 0} → Effect S E A → (A → Effect S E B) → Effect S E B
◌>>=◌ m f s = let (r, s') = m s in elim r [ ok a ↦ f a s' | err e ↦ (err e, s') ]

abbrev pub ◌>>◌ : {S E B : Type 0} → Effect S E (Unit {0}) → Effect S E B → Effect S E B
m >> k = m >>= λ _. k

-- Code behind code that is known to return.
pub bind-ok :
    {S E A B : Type 0} (m : Effect S E A) (k : A → Effect S E B) {s s' : S} {a : A}
    → m s ≡ (ok a, s')
    → (m >>= k) s ≡ k a s'
bind-ok {S} {E} {A} m k e =
    ap (λ (x : Result E A × S). elim x.0 [ ok a ↦ k a x.1 | err e ↦ (err e, x.1) ]) e

-- `option.ok_or(e)`
abbrev pub ok_or {ℓ κ} : {A : Type ℓ} {E : Type κ} → Option A → E → Result E A
ok_or none e = err e
ok_or (some a) e = ok a

-- `result.map_err(f)`
abbrev pub map_err {ℓ κ ι} :
    {A : Type ℓ} {E : Type κ} {F : Type ι} → (E → F) → Result E A → Result F A
map_err f (ok a) = ok a
map_err f (err e) = err (f e)

pub Result-cases {ℓ κ} :
    {A : Type ℓ} {E : Type κ} (r : Result E A) → ((a : A) × (r ≡ ok a)) ⊎ ((e : E) × (r ≡ err e))
Result-cases (ok a) = inl (a, refl)
Result-cases (err e) = inr (e, refl)
