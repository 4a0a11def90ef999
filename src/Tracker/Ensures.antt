-- ===== src/Tracker/Ensures.antt =====
-- Postconditions of tracker computations. A computation that fails an assertion has no result to
-- speak of; where a theorem says that one returns, it states the result as an equation.
use libconntrack_cm.Base.{◌≡◌, refl, subst, Bool, true, false}
use libconntrack_cm.Packet.{Fault, Result, ok, stop}
use libconntrack_cm.Store.{Tracker, M, and_then, lift, check}

pub data Ensures {A : Type 0} (P : A → Tracker → Type 0) : Result (A × Tracker) → Type 0 where
  done : {a : A} {t : Tracker} → P a t → Ensures P (ok (a, t))
  failed : {e : Fault} → Ensures P (stop e)

abbrev Holds : {A : Type 0} → (A → Tracker → Type 0) → Result (A × Tracker) → Type 0
Holds P (ok (a, t)) = P a t
Holds P (stop e) = Unit

Holds-Ensures :
    {A : Type 0} {P : A → Tracker → Type 0} {r : Result (A × Tracker)} → Ensures P r → Holds P r
Holds-Ensures (done p) = p
Holds-Ensures failed = tt

-- What the computation returns satisfies its postcondition.
pub result :
    {A : Type 0} {P : A → Tracker → Type 0} {a : A} {t : Tracker} {r : Result (A × Tracker)}
    → Ensures P r
    → r ≡ ok (a, t)
    → P a t
result {P} h e = subst (Holds P) e (Holds-Ensures h)

pub mono :
    {A : Type 0} {P Q : A → Tracker → Type 0} {r : Result (A × Tracker)}
    → Ensures P r
    → ((a : A) (t : Tracker) → P a t → Q a t)
    → Ensures Q r
mono (done p) weaken = done (weaken _ _ p)
mono failed weaken = failed

-- Two postconditions of one computation.
pub both :
    {A : Type 0} {P Q : A → Tracker → Type 0} {r : Result (A × Tracker)}
    → Ensures P r
    → Ensures Q r
    → Ensures (λ a t. P a t × Q a t) r
both (done p) e = done (p, result e refl)
both failed e = failed

module _ {A B : Type 0} {P : A → Tracker → Type 0} {Q : B → Tracker → Type 0} where
  pub bind :
      {r : Result (A × Tracker)} {f : A → M B}
      → Ensures P r
      → ((a : A) (u : Tracker) → P a u → Ensures Q (f a u))
      → Ensures Q (and_then r f)
  bind (done p) next = next _ _ p
  bind failed next = failed

module _ {A B : Type 0} {Q : B → Tracker → Type 0} where
  -- What does not touch the tracker needs no postcondition.
  pub bind_lift :
      (r : Result A) (t : Tracker) (f : A → M B)
      → ((a : A) → r ≡ ok a → Ensures Q (f a t))
      → Ensures Q (and_then (lift r t) f)
  unfolding lift
  bind_lift (ok a) t f next = next a refl
  bind_lift (stop e) t f next = failed

module _ {B : Type 0} {Q : B → Tracker → Type 0} where
  pub bind_check :
      (b : Bool) (t : Tracker) (f : Unit {0} → M B)
      → (b ≡ true → Ensures Q (f tt t))
      → Ensures Q (and_then (check b t) f)
  unfolding check
  bind_check true t f next = next refl
  bind_check false t f next = failed
