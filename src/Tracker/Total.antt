-- ===== src/Tracker/Total.antt =====
-- When a message is processed to its end: the conditions, on the maps and the flows, under which no assertion of
-- the flow table fails.
pub mod Lookup
pub mod Handlers
pub mod Conditions
pub mod Messages
pub mod Process
use libconntrack_cm.Base.{
  ℕ, ◌<◌, ◌≡◌, ◌≢◌, refl, sym, ap, Bool, true, false, not, ◌&&◌, ◌||◌, Option, none, some, arith,
  Bool-cases, inl, inr, ◌==◌, ◌∙◌, ◌⊎◌, is_some, pair_eq, pair_eq_iff, Option-cases, if◌then◌else◌,
}
use libconntrack_cm.Packet.{is_ok, Result, ok, stop}
use libconntrack_cm.Store.{CmState, CmFlowKey, Ptr, Tracker, M, and_then, is_set, check}
use libconntrack_cm.Tracker.{
  bind_local, bind_remote, bind_flow, add_found, add_new_flow, or_add, get_flow,
}
use libconntrack_cm.Tracker.Ensures
use libconntrack_cm.Tracker.Ensures.{Ensures, done, failed}
use libconntrack_cm.Tracker.Invariant.{Inv}
use libconntrack_cm.Tracker.Isolate.{local_zero, bind_flow-returns}
use libconntrack_cm.Tracker.Repeat.{Found, get_flow-Found, get_flow-finds}
use libconntrack_cm.Tracker.Edges.{state_of}
use libconntrack_cm.Tracker.Invariant.Bind.{with_cell}
use libconntrack_cm.Tracker.Invariant.Bound.{add_new_flow-post}
use libconntrack_cm.Tracker.Invariant.Flow.{get_flow-post}

pub is_ok-bind :
    {A B : Type 0} {P : A → Tracker → Type 0} {r : Result (A × Tracker)} {b c : Bool} (f : A → M B)
    → Ensures P r
    → is_ok r ≡ b
    → ((a : A) (u : Tracker) → P a u → is_ok (f a u) ≡ c)
    → is_ok (and_then r f) ≡ (b && c)
is_ok-bind f (done p) e next = rw (← e) (next _ _ p)
is_ok-bind f failed e next = rw (← e) refl

-- One of the IDs is given.
abbrev pub usable : ℕ → CmFlowKey → Bool
usable k key = not (k == 0) || is_set key

-- The flow that the IDs name.
abbrev pub known : ℕ → CmFlowKey → Tracker → Option Ptr
known k key t = if k == 0 then t.remote_map key else t.local_map k

-- A flow that was found by the remote key can be given a local ID.
abbrev pub unbound : Option Ptr → Tracker → Bool
unbound none t = true
unbound (some q) t = (t.cells q).local_id == 0

-- The flow `p` has the remote key, or can be given it.
abbrev pub bindable : Ptr → CmFlowKey → Option Ptr → Tracker → Bool
bindable p key (some q) t = p == q
bindable p key none t = not (is_set key) || not (is_set (t.cells p).remote_id)

-- A lookup by the two IDs returns.
abbrev pub can_find : ℕ → CmFlowKey → Tracker → Bool
can_find k key t =
    usable k key && ((k == 0) || (is_some (t.local_map k) || unbound (t.remote_map key) t))

bind_flow-is_ok :
    (k : ℕ) (key : CmFlowKey) (l r : Bool) (p : Ptr) (t : Tracker)
    → is_ok (bind_flow k key l r p t) ≡ (
        (l || ((k == 0) || ((t.cells p).local_id == 0)))
        && (r || (not (is_set key) || not (is_set (t.cells p).remote_id))))
unfolding bind_flow bind_local bind_remote check
bind_flow-is_ok k key l r p t = ground arith

add_fresh-is_ok :
    (k : ℕ) (key : CmFlowKey) (r : Option Ptr) (t : Tracker)
    → usable k key ≡ true
    → is_ok (add_found k key none r t) ≡ ((k == 0) || unbound r t)
unfolding add_found check
add_fresh-is_ok k key none t u = rw u (bind_flow-is_ok k key false false t.next _ ∙ ground arith)
add_fresh-is_ok k key (some q) t u = bind_flow-is_ok k key false true q t ∙ ground arith

pub add_unknown-is_ok :
    (k : ℕ) (key : CmFlowKey) (t : Tracker)
    → t.local_map k ≡ none
    → usable k key ≡ true
    → is_ok (add_new_flow k key t) ≡ ((k == 0) || unbound (t.remote_map key) t)
unfolding add_new_flow
add_unknown-is_ok k key t e u = rw e (add_fresh-is_ok k key (t.remote_map key) t u)

or_add-is_ok :
    (k : ℕ) (key : CmFlowKey) (t : Tracker) (found : Option Ptr)
    → t.local_map k ≡ none
    → usable k key ≡ true
    → is_ok (or_add k key found t) ≡ (is_some found || ((k == 0) || unbound (t.remote_map key) t))
unfolding or_add
or_add-is_ok k key t none e u = add_unknown-is_ok k key t e u
or_add-is_ok k key t (some p) e u = refl

pub get_flow-is_ok :
    (k : ℕ) (key : CmFlowKey) (t : Tracker) → Inv t → is_ok (get_flow k key t) ≡ can_find k key t
unfolding get_flow or_add check
get_flow-is_ok k key t i = elim (Bool-cases (k == 0)) [
  | inl z ↦
      let zero : k ≡ 0 = ground arith in
      elim (Bool-cases (is_set key)) [
        | inr unset ↦ rw (z, unset) refl
        | inl set ↦
            let u : usable k key ≡ true = rw (set) (ground arith) in
            rw (z, set)
              (or_add-is_ok k key t (t.remote_map key) (rw zero (local_zero i)) u
                ∙ rw z ground arith)
      ]
  | inr nz ↦ elim (Option-cases (t.local_map k)) [
    | inl e ↦ rw (nz, e) (add_unknown-is_ok k key t e (rw nz refl) ∙ rw nz refl)
    | inr (p, e) ↦ rw (nz, e) refl
  ]
]

-- `add_new_flow` for a flow that has the local ID already, or is looked up by its remote key.
pub add_new_flow-is_ok :
    (k : ℕ) (key : CmFlowKey) (p : Ptr) (t : Tracker)
    → t.local_map k ≡ some p
    → (t.cells p).local_id ≡ k
    → ((q : Ptr) → t.remote_map key ≡ some q → (t.cells q).remote_id ≡ key)
    → is_ok (add_new_flow k key t) ≡ bindable p key (t.remote_map key) t
unfolding add_new_flow add_found check
add_new_flow-is_ok k key p t found id keys = elim (Option-cases (t.remote_map key)) [
  | inl e ↦ rw (found, e) (bind_flow-is_ok k key true false p t)
  | inr (q, e) ↦ rw (found, e) (ground (arith, keys q e))
]
