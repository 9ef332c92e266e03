-- ===== src/Attempt.antt =====
-- Code that may raise, as steps that stay shut: `do` blocks over `Result`, and what holds of the value
-- of such a computation if it returns.
use lipas.Prelude.{
  ap, Result, ok, err, if◌then◌else◌, ◌≡◌, refl, subst, Bool, true, false, Option, none, some,
}

-- `x = m` followed by the rest of the function, and `if not b: raise x`.
infixl 5 ◌>>=◌ ◌>>◌
unfoldable pub ◌>>=◌ : {E A B : Type 0} → Result E A → (A → Result E B) → Result E B
err x >>= rest = err x
ok a >>= rest = rest a

unfoldable pub ◌>>◌ : {E B : Type 0} → Result E (Unit {0}) → Result E B → Result E B
err x >> rest = err x
ok a >> rest = rest

unfoldable pub guard : {E : Type 0} → Bool → E → Result E (Unit {0})
guard true x = ok tt
guard false x = err x

-- A value that must be there.
unfoldable pub required : {E A : Type 0} → E → Option A → Result E A
required x none = err x
required x (some a) = ok a

-- What holds of the value of a computation, if it returns.
pub data Post {E A : Type 0} (Q : A → Type 0) (m : Result E A) : Type 0 where
  returns : ((a : A) → m ≡ ok a → Q a) → Post Q m

pub ok_injective : {E A : Type 0} {a b : A} → Path (Result E A) (ok a) (ok b) → a ≡ b
ok_injective h = cc h

pub Post-value :
    {E A : Type 0} {Q : A → Type 0} {m : Result E A} {a : A} → Post Q m → m ≡ ok a → Q a
Post-value (returns k) = k _

pub Post-bind :
    {E A B : Type 0} {Q : B → Type 0} (m : Result E A) (rest : A → Result E B)
    → ((a : A) → m ≡ ok a → Post Q (rest a))
    → Post Q (m >>= rest)
unfolding ◌>>=◌
Post-bind (err x) rest k = returns (λ b h. absurd (cc h))
Post-bind (ok a) rest k = k a refl

pub Post-guard :
    {E B : Type 0} {Q : B → Type 0} (b : Bool) (x : E) (r : Result E B)
    → (b ≡ true → Post Q r)
    → Post Q (guard b x >> r)
unfolding ◌>>◌ guard
Post-guard false x r k = returns (λ b h. absurd (cc h))
Post-guard true x r k = k refl

pub Post-if :
    {E B : Type 0} {Q : B → Type 0} (b : Bool) (r s : Result E B)
    → (b ≡ true → Post Q r)
    → (b ≡ false → Post Q s)
    → Post Q (if b then r else s)
Post-if false r s k l = l refl
Post-if true r s k l = k refl

pub Post-ok : {E A : Type 0} {Q : A → Type 0} {a : A} → Q a → Post {E = E} Q (ok a)
Post-ok {Q} q = returns (λ b h. subst Q (ok_injective h) q)

pub Post-err : {E A : Type 0} {Q : A → Type 0} {x : E} → Post Q (err x)
Post-err = returns (λ b h. absurd (cc h))

pub Post-weaken :
    {E A : Type 0} {Q R : A → Type 0} {m : Result E A} → Post Q m → ((a : A) → Q a → R a) → Post R m
Post-weaken (returns q) k = returns (λ a h. k a (q a h))

pub required-eq-ok :
    {E A : Type 0} (x : E) (o : Option A) {a : A} → required x o ≡ ok a → o ≡ some a
unfolding required
required-eq-ok x none h = absurd (cc h)
required-eq-ok x (some b) h = cc h

-- The computation raises.
abbrev pub raises : {E A : Type 0} → Result E A → Bool
raises (err x) = true
raises (ok a) = false

pub bind-ok :
    {E A B : Type 0} {m : Result E A} {a : A} (f : A → Result E B) → m ≡ ok a → (m >>= f) ≡ f a
unfolding ◌>>=◌
bind-ok f h = ap (λ m. m >>= f) h

pub guard-true :
    {E B : Type 0} {b : Bool} (x : E) (m : Result E B) → b ≡ true → (guard b x >> m) ≡ m
unfolding ◌>>◌ guard
guard-true x m h = ap (λ b. guard b x >> m) h

pub required-some : {E A : Type 0} (x : E) {o : Option A} {a : A} → o ≡ some a → required x o ≡ ok a
unfolding required
required-some x h = ap (required x) h
