-- ===== src/Checked.antt =====
-- Rust's `Result`, with the operator `?` as the bind of a `do` block.
use coclai.Prelude.{◌≡◌, refl, ◌⊎◌, inl, inr, Option, none, some, Bool, true, false}

pub data Checked {ℓ} (E A : Type ℓ) : Type ℓ where
  ok : A → Checked E A
  err : E → Checked E A

infixl 5 ◌>>=◌ ◌>>◌
abbrev pub ◌>>=◌ {ℓ} : {E A B : Type ℓ} → Checked E A → (A → Checked E B) → Checked E B
err e >>= next = err e
ok value >>= next = next value

abbrev pub ◌>>◌ {ℓ} : {E A B : Type ℓ} → Checked E A → Checked E B → Checked E B
err e >> next = err e
ok _ >> next = next

module _ {ℓ} {E : Type ℓ} where
  pub Checked-cases :
      {A : Type ℓ} (r : Checked E A) → ((e : E) × (r ≡ err e)) ⊎ ((a : A) × (r ≡ ok a))
  Checked-cases (ok a) = inr (a, refl)
  Checked-cases (err e) = inl (e, refl)

  -- `Option::ok_or`.
  abbrev pub ok_or : {A : Type ℓ} → Option A → E → Checked E A
  ok_or none e = err e
  ok_or (some a) e = ok a

-- `if test { return Err(e); }`.
abbrev pub refuse_if : {E : Type 0} → Bool → E → Checked E (Unit {0})
refuse_if true e = err e
refuse_if false e = ok tt
