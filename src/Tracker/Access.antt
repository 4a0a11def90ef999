-- ===== src/Tracker/Access.antt =====
-- Which computations of the tracker can fail by an assertion alone, and not by an access through a null pointer.
pub mod Flows
pub mod Switches
pub mod Handlers
pub mod Process
use libconntrack_cm.Base.{refl, ◌≡◌, ◌≢◌, Bool, true, false}
use libconntrack_cm.Packet.{Result, ok, stop, assertion, null_access}
use libconntrack_cm.Store.{Tracker, FlowState, Ptr, M, and_then, lift, check}

pub data NoNull {A : Type 0} : Result A → Type 0 where
  returns : {a : A} → NoNull (ok a)
  asserts : NoNull (stop assertion)

pub NoNull-sound : {A : Type 0} {r : Result A} → NoNull r → r ≢ stop null_access
NoNull-sound returns e = cc
NoNull-sound asserts e = cc

pub bind :
    {A B : Type 0} {r : Result (A × Tracker)} {f : A → M B}
    → NoNull r
    → ((a : A) (u : Tracker) → NoNull (f a u))
    → NoNull (and_then r f)
bind returns next = next _ _
bind asserts next = asserts

pub bind_lift :
    {A B : Type 0} (r : Result A) (t : Tracker) (f : A → M B)
    → NoNull r
    → ((a : A) → r ≡ ok a → NoNull (f a t))
    → NoNull (and_then (lift r t) f)
unfolding lift
bind_lift (ok a) t f safe next = next a refl
bind_lift (stop assertion) t f safe next = asserts
bind_lift (stop null_access) t f safe next = absurd (NoNull-sound safe refl)

pub bind_check :
    {B : Type 0} (b : Bool) (t : Tracker) (f : Unit {0} → M B)
    → NoNull (f tt t)
    → NoNull (and_then (check b t) f)
unfolding check
bind_check true t f next = next
bind_check false t f next = asserts
