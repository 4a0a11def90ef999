-- ===== src/Tracker/Isolate.antt =====
-- A message touches one flow object at most: the lookups and the operations on the flow table.
pub mod Host
pub mod Net
pub mod Process
use libconntrack_cm.Base.{
  ℕ, ◌≤◌, ◌<◌, ◌≡◌, ◌≢◌, refl, Bool, true, false, Option, none, some, arith, Bool-cases, inl, inr,
  ◌==◌, ◌||◌, ◌∙◌, ◌⊎◌, is_some, subst, Option-cases,
}
use libconntrack_cm.Packet.{Result, ok, stop}
use libconntrack_cm.Store.{
  CmState, CmFlowKey, FlowState, Ptr, Tracker, M, is_set, get_flow_key, and_then, null_key,
}
use libconntrack_cm.Tracker.{
  add_found, add_new_flow, bind_local, bind_remote, bind_flow, get_flow, on_established,
  on_disconnected, disconnect, erase_local, erase_remote, erase_flow,
}
use libconntrack_cm.Tracker.Host.{establish, on_drep}
use libconntrack_cm.Tracker.Ensures
use libconntrack_cm.Tracker.Ensures.{Ensures, done, failed}
use libconntrack_cm.Tracker.Lookup.{IsLookup, get_flow-IsLookup, add_new_flow-IsLookup}
use libconntrack_cm.Tracker.Invariant.{Inv}
use libconntrack_cm.Tracker.Invariant.Write.{put}
use libconntrack_cm.Tracker.Invariant.Flow.{get_flow-post, IsFlow}
use libconntrack_cm.Tracker.Repeat.{Found, get_flow-finds}

-- From `t` to `u` no flow object but `p` changes.
pub record IsOnly (p : Ptr) (t u : Tracker) : Type 0 where
  pub grows : t.next ≤ u.next
  pub others : (q : Ptr) → q < t.next → q ≢ p → u.cells q ≡ t.cells q

pub IsOnly-refl : (p : Ptr) (t : Tracker) → IsOnly p t t
IsOnly-refl p t = record { grows = omega arith; others = λ q h n. refl }

pub IsOnly-trans : {p : Ptr} {t u v : Tracker} → IsOnly p t u → IsOnly p u v → IsOnly p t v
IsOnly-trans a b = record {
  grows = omega (arith, a.grows, b.grows);
  others = λ q h n. b.others q (omega (arith, a.grows)) n ∙ a.others q h n;
}

pub IsLookup-IsOnly : {p : Ptr} {t u : Tracker} → IsLookup t p u → IsOnly p t u
IsLookup-IsOnly l = record { grows = l.grows; others = l.others }

pub put-IsOnly : (p : Ptr) (s : FlowState) (t : Tracker) → IsOnly p t (put t p s)
put-IsOnly p s t = record { grows = omega arith; others = λ q h n. ground arith }

abbrev pub Isolates : M (Unit {0}) → Type 0
Isolates run = (t : Tracker) → Inv t → Ensures (λ _ u. (p : Ptr) × IsOnly p t u) (run t)

pub get_flow-IsOnly :
    (k : ℕ) (key : CmFlowKey) (t : Tracker)
    → Inv t
    → Ensures
        (λ p u. (Found k key p u × (p < u.next)) × (IsFlow t k key p u × IsLookup t p u))
        (get_flow k key t)
get_flow-IsOnly k key t i =
    Ensures.both (get_flow-finds k key t i)
      (Ensures.both (get_flow-post k key t i) (get_flow-IsLookup k key t))

pub on_established-IsOnly :
    (p : Ptr) (t : Tracker) → Ensures (λ _ u. IsOnly p t u) (on_established p t)
unfolding on_established
on_established-IsOnly p t =
    elim (Bool-cases (((t.cells p).local_qpn == 0) || ((t.cells p).remote_qpn == 0))) [
      | inl zero ↦ rw zero (done (IsOnly-refl p t))
      | inr set ↦ rw set (elim (Bool-cases (is_some (t.qpn_map (get_flow_key (t.cells p))))) [
        | inl old ↦ rw old (done (IsOnly-refl p t))
        | inr new ↦ rw new (done (record { grows = omega arith; others = λ q h n. ground arith }))
      ])
    ]

pub establish-IsOnly : (p : Ptr) (t : Tracker) → Ensures (λ _ u. IsOnly p t u) (establish p t)
unfolding establish
establish-IsOnly p t =
    Ensures.mono (on_established-IsOnly p _) λ _ u o. IsOnly-trans (put-IsOnly p _ t) o

on_disconnected-IsOnly :
    (p : Ptr) (t : Tracker) → Ensures (λ _ u. IsOnly p t u) (on_disconnected p t)
unfolding on_disconnected
on_disconnected-IsOnly p t =
    elim (Bool-cases (((t.cells p).local_qpn == 0) || ((t.cells p).remote_qpn == 0))) [
      | inl zero ↦ rw zero (done (IsOnly-refl p t))
      | inr set ↦ rw set (elim (Bool-cases (is_some (t.qpn_map (get_flow_key (t.cells p))))) [
        | inr new ↦ rw new (done (IsOnly-refl p t))
        | inl old ↦ rw old (done (record { grows = omega arith; others = λ q h n. ground arith }))
      ])
    ]

disconnect-IsOnly : (p : Ptr) (t : Tracker) → Ensures (λ _ u. IsOnly p t u) (disconnect p t)
unfolding disconnect
disconnect-IsOnly p t = elim (Bool-cases (t.cells p).in_qpn_map) [
  | inl marked ↦ rw marked (on_disconnected-IsOnly p t)
  | inr unmarked ↦ rw unmarked (done (IsOnly-refl p t))
]

-- The flow that is erased is the one that the lookup found.
pub erase_flow-IsOnly :
    (k : ℕ) (key : CmFlowKey) (p : Ptr) (t : Tracker)
    → Found k key p t
    → Ensures (λ _ u. IsOnly p t u) (erase_flow k key t)
unfolding erase_flow erase_local erase_remote
erase_flow-IsOnly k key p t f = Ensures.bind_check _ _ _ λ ids. elim (Bool-cases (k == 0)) [
  | inl z ↦
      rw (z, f.by_remote (ground arith))
        (Ensures.bind (disconnect-IsOnly p t)
          λ _ u o. done (record { grows = o.grows; others = o.others }))
  | inr nz ↦
      rw (nz, f.by_local (ground arith))
        (Ensures.bind (disconnect-IsOnly p t)
          λ _ u o. done (record { grows = o.grows; others = o.others }))
]

-- With a local ID the remote key does not matter.
pub Found-local :
    (k : ℕ) (key sender : CmFlowKey) (p : Ptr) {t : Tracker}
    → Found k key p t
    → k ≢ 0
    → Found k sender p t
Found-local k key sender p f ne = record {
  by_local = f.by_local;
  by_remote = λ z. absurd (ne z);
  usable = λ z. absurd (ne z);
}

pub on_drep-IsOnly :
    (c : CmState) (k : ℕ) (key sender : CmFlowKey) (p : Ptr) (t : Tracker)
    → Found k key p t
    → k ≢ 0
    → Ensures (λ _ u. IsOnly p t u) (on_drep c k sender t)
unfolding on_drep
on_drep-IsOnly CmState.dreq_sent k key sender p t f ne =
    erase_flow-IsOnly k sender p t (Found-local k key sender p f ne)
on_drep-IsOnly CmState.dreq_rcvd k key sender p t f ne =
    erase_flow-IsOnly k sender p t (Found-local k key sender p f ne)
on_drep-IsOnly _ k key sender p t f ne = done (IsOnly-refl p t)

Ensures-any : {A : Type 0} (r : Result (A × Tracker)) → Ensures (λ _ _. Unit {0}) r
Ensures-any (ok (a, t)) = done tt
Ensures-any (stop e) = failed

pub bind_flow-returns :
    (k : ℕ) (key : CmFlowKey) (in_local in_remote : Bool) (p : Ptr) (t : Tracker)
    → Ensures (λ q _. q ≡ p) (bind_flow k key in_local in_remote p t)
unfolding bind_flow
bind_flow-returns k key in_local in_remote p t =
    Ensures.bind (Ensures-any (bind_local k in_local p t))
      λ _ u _. Ensures.bind (Ensures-any (bind_remote key in_remote p u)) λ _ v _. done refl

-- A flow that one of the lookups finds is returned.
add_found-returns :
    (k : ℕ) (key : CmFlowKey) (l r : Option Ptr) (p : Ptr) (t : Tracker)
    → (l ≡ some p) ⊎ ((l ≡ none) × (r ≡ some p))
    → Ensures (λ q _. q ≡ p) (add_found k key l r t)
unfolding add_found
add_found-returns k key (some x) (some y) p t h =
    Ensures.bind_check _ _ _ λ same. Ensures.bind_check _ _ _ λ ids. done (ground arith)
add_found-returns k key (some x) none p t h =
    Ensures.mono (bind_flow-returns k key true false x t) λ q _ e. ground arith
add_found-returns k key none (some y) p t h =
    Ensures.mono (bind_flow-returns k key false true y t) λ q _ e. ground arith
add_found-returns k key none none p t h = absurd (ground arith)

add_new_flow-returns :
    (k : ℕ) (key sender : CmFlowKey) (p : Ptr) (t : Tracker)
    → Found k key p t
    → t.local_map 0 ≡ none
    → (k ≡ 0 → sender ≡ key)
    → Ensures (λ q _. q ≡ p) (add_new_flow k sender t)
unfolding add_new_flow
add_new_flow-returns k key sender p t f null same =
    add_found-returns k sender (t.local_map k) (t.remote_map sender) p t
      (elim (Bool-cases (k == 0)) [
        | inl z ↦
            let zero : k ≡ 0 = ground arith in inr (rw zero null, rw (same zero) (f.by_remote zero))
        | inr nz ↦ inl (f.by_local (ground arith))
      ])

-- `add_new_flow` after the lookup of a flow by its local ID, or by the same remote key.
pub add_new_flow-IsOnly :
    (k : ℕ) (key sender : CmFlowKey) (p : Ptr) (t : Tracker)
    → Found k key p t
    → t.local_map 0 ≡ none
    → (k ≡ 0 → sender ≡ key)
    → Ensures (λ _ u. IsOnly p t u) (add_new_flow k sender t)
add_new_flow-IsOnly k key sender p t f null same =
    Ensures.mono
      (Ensures.both (add_new_flow-returns k key sender p t f null same)
        (add_new_flow-IsLookup k sender t))
      λ q u (e, l). IsLookup-IsOnly (subst (λ x. IsLookup t x u) e l)

-- A lookup without a remote key was by a local ID.
pub null_key-local : {k : ℕ} {p : Ptr} {t : Tracker} → Found k null_key p t → k ≢ 0
null_key-local f z = ground (arith, f.usable z)

pub local_zero : {t : Tracker} → Inv t → t.local_map 0 ≡ none
local_zero {t} i = elim (Option-cases (t.local_map 0)) [
  | inl e ↦ e
  | inr (p, e) ↦ absurd ((i.local_ok 0 p e).0 refl)
]

-- A lookup, and what follows touches the flow that it returns.
pub get_flow_then :
    (k : ℕ) (key : CmFlowKey) (next : Ptr → M (Unit {0})) (t : Tracker)
    → Inv t
    → ((p : Ptr) (u : Tracker)
        → Found k key p u
        → u.local_map 0 ≡ none
        → Ensures (λ _ v. IsOnly p u v) (next p u))
    → Ensures (λ _ v. (p : Ptr) × IsOnly p t v) (and_then (get_flow k key t) next)
get_flow_then k key next t i then_only =
    Ensures.bind (get_flow-IsOnly k key t i) λ p u ((f, lt), (flow, l)).
      Ensures.mono (then_only p u f (local_zero flow.inv))
        λ _ v o. (p, IsOnly-trans (IsLookup-IsOnly l) o)
