-- ===== src/Tracker/Repeat.antt =====
-- A message that is processed twice in a row: what the first run leaves, so that the second finds the same
-- flow and changes nothing.
pub mod Host
pub mod Net
pub mod Process
use libconntrack_cm.Base.{
  ℕ, ◌<◌, ◌≡◌, ◌≢◌, refl, ap, fun_ext, true, false, some, arith, Bool-cases, inl, inr, ◌==◌, update,
  ◌||◌, ◌∙◌, is_some,
}
use libconntrack_cm.Packet.{ok}
use libconntrack_cm.Store.{
  CmState, CmFlowKey, FlowState, Ptr, Tracker, M, is_set, check, get_flow_key,
}
use libconntrack_cm.Tracker.{get_flow, or_add, on_established}
use libconntrack_cm.Tracker.Ensures
use libconntrack_cm.Tracker.Host.{establish}
use libconntrack_cm.Tracker.Ensures.{Ensures, done}
use libconntrack_cm.Tracker.Edges.{state_of}
use libconntrack_cm.Tracker.Lookup.{IsLookup}
use libconntrack_cm.Tracker.Invariant.{Inv}
use libconntrack_cm.Tracker.Invariant.Write.{put}
use libconntrack_cm.Tracker.Invariant.Flow.{get_flow-post, IsFlow}

-- `get_flow` finds the flow `p` by the IDs.
pub record Found (k : ℕ) (key : CmFlowKey) (p : Ptr) (t : Tracker) : Type 0 where
  pub by_local : k ≢ 0 → t.local_map k ≡ some p
  pub by_remote : k ≡ 0 → t.remote_map key ≡ some p
  pub usable : k ≡ 0 → is_set key ≡ true

pub get_flow-Found :
    (k : ℕ) (key : CmFlowKey) (p : Ptr) (t : Tracker)
    → Found k key p t
    → get_flow k key t ≡ ok (p, t)
unfolding get_flow or_add check
get_flow-Found k key p t f = elim (Bool-cases (k == 0)) [
  | inl z ↦ rw (z, f.usable (ground arith), f.by_remote (ground arith)) refl
  | inr nz ↦ rw (nz, f.by_local (ground arith)) refl
]

pub get_flow-finds :
    (k : ℕ) (key : CmFlowKey) (t : Tracker)
    → Inv t
    → Ensures (λ p u. Found k key p u × (p < u.next)) (get_flow k key t)
get_flow-finds k key t i = Ensures.mono (get_flow-post k key t i) λ p u f. (
  record {
    by_local = f.by_local;
    by_remote = f.by_remote;
    usable = λ z. (f.inv.remote_ok key p (f.by_remote z)).0;
  },
  f.allocated,
)

pub Found-Lookup :
    (k : ℕ) (key : CmFlowKey) (p q : Ptr) {t u : Tracker}
    → Found k key p t
    → IsLookup t q u
    → Found k key p u
Found-Lookup k key p q f l = record {
  by_local = λ n. l.local_kept k p (f.by_local n);
  by_remote = λ z. l.remote_kept key p (f.by_remote z);
  usable = f.usable;
}

-- The flow is found again, and the handler's `switch` then changes nothing.
abbrev pub Again : ℕ → CmFlowKey → Ptr → (CmState → M (Unit {0})) → Tracker → Type 0
Again k key p on u = Found k key p u × (on (state_of u p) u ≡ ok (tt, u))

-- A handler that is run again on what it returned changes nothing.
abbrev pub Repeats : M (Unit {0}) → Type 0
Repeats run = (t : Tracker) → Inv t → Ensures (λ _ u. run u ≡ ok (tt, u)) (run t)

pub put-again : (t : Tracker) (p : Ptr) (s : FlowState) → put (put t p s) p s ≡ put t p s
put-again t p s = ap (λ c. record t { cells = c }) (fun_ext λ q. ground arith)

pub Found-put :
    (k : ℕ) (key : CmFlowKey) (p q : Ptr) (s : FlowState) {t : Tracker}
    → Found k key p t
    → Found k key p (put t q s)
Found-put k key p q s f = record {
  by_local = f.by_local;
  by_remote = f.by_remote;
  usable = f.usable;
}

-- What `on_established` keeps of any flow.
on_established-Found :
    (k : ℕ) (key : CmFlowKey) (p q : Ptr) (t : Tracker)
    → Found k key p t
    → Ensures (λ _ u. Found k key p u × (state_of u p ≡ state_of t p)) (on_established q t)
unfolding on_established
on_established-Found k key p q t f =
    elim (Bool-cases (((t.cells q).local_qpn == 0) || ((t.cells q).remote_qpn == 0))) [
      | inl zero ↦ rw zero (done (f, refl))
      | inr set ↦ rw set (elim (Bool-cases (is_some (t.qpn_map (get_flow_key (t.cells q))))) [
        | inl old ↦ rw old (done (f, refl))
        | inr new ↦ rw new (
            done (
              record { by_local = f.by_local; by_remote = f.by_remote; usable = f.usable },
              ground arith,
            ))
      ])
    ]

pub establish-Found :
    (k : ℕ) (key : CmFlowKey) (p : Ptr) (t : Tracker)
    → Found k key p t
    → Ensures (λ _ u. Found k key p u × (state_of u p ≡ CmState.established)) (establish p t)
unfolding establish
establish-Found k key p t f =
    Ensures.mono (on_established-Found k key p p _ (Found-put k key p p _ f))
      λ _ u (g, e). (g, e ∙ (ground arith))
