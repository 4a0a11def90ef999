-- ===== src/Tracker/Total/Handlers.antt =====
-- The handlers of src/cm_connection_tracker.cpp that return, and those that fail an assertion: the `switch` of each.
use libconntrack_cm.Base.{
  ℕ, ◌≡◌, refl, Bool, true, false, not, Option, ◌||◌, some, none, arith, Bool-cases, inl, inr, ◌==◌,
  ◌∙◌, Option-cases,
}
use libconntrack_cm.Packet.{is_ok, Result, ok, stop}
use libconntrack_cm.Store.{CmState, CmFlowKey, FlowState, Ptr, Tracker, M, and_then, is_set, check}
use libconntrack_cm.Tracker.{
  add_new_flow, on_established, on_disconnected, disconnect, erase_local, erase_remote, erase_flow,
}
use libconntrack_cm.Tracker.Host.{
  on_req_sent, on_rej_sent, send_rep, on_rep_sent, establish, on_rtu_sent, send_dreq, on_dreq_sent,
  on_drep,
}
use libconntrack_cm.Tracker.Net.{
  receive_req, on_req_received, on_rej_received, receive_rep, on_rep_received, on_rtu_received,
  receive_dreq, on_dreq_received,
}
use libconntrack_cm.Tracker.Invariant.{Inv}
use libconntrack_cm.Tracker.Invariant.Write.{put}
use libconntrack_cm.Tracker.Isolate.{local_zero}
use libconntrack_cm.Tracker.Repeat.{Found}
use libconntrack_cm.Tracker.Total.{usable, bindable, add_unknown-is_ok, add_new_flow-is_ok}

is_ok-then :
    {A B : Type 0} (r : Result (A × Tracker)) (f : A → M B)
    → ((a : A) (u : Tracker) → is_ok (f a u) ≡ true)
    → is_ok (and_then r f) ≡ is_ok r
is_ok-then (ok (a, t)) f h = h a t
is_ok-then (stop e) f h = refl

on_established-is_ok : (p : Ptr) (t : Tracker) → is_ok (on_established p t) ≡ true
unfolding on_established
on_established-is_ok p t = ground arith

disconnect-is_ok : (p : Ptr) (t : Tracker) → is_ok (disconnect p t) ≡ true
unfolding disconnect on_disconnected
disconnect-is_ok p t = ground arith

establish-is_ok : (p : Ptr) (t : Tracker) → is_ok (establish p t) ≡ true
unfolding establish
establish-is_ok p t = on_established-is_ok p _

erase_flow-is_ok :
    (k : ℕ) (key : CmFlowKey) (t : Tracker)
    → usable k key ≡ true
    → is_ok (erase_flow k key t) ≡ true
unfolding erase_flow erase_local erase_remote check
erase_flow-is_ok k key t u = elim (Bool-cases (k == 0)) [
  | inl z ↦
      let set : is_set key ≡ true = ground (arith, u) in
      elim (Option-cases (t.remote_map key)) [
        | inl e ↦ rw (z, set, e) refl
        | inr (p, e) ↦
            rw (z, set, e) (is_ok-then (disconnect p t) _ (λ _ v. refl) ∙ disconnect-is_ok p t)
      ]
  | inr nz ↦ elim (Option-cases (t.local_map k)) [
    | inl e ↦ rw (nz, e) refl
    | inr (p, e) ↦ rw (nz, e) (is_ok-then (disconnect p t) _ (λ _ v. refl) ∙ disconnect-is_ok p t)
  ]
]

pub on_req_sent-is_ok :
    (c : CmState) (p : Ptr) (qpn : ℕ) (t : Tracker) → is_ok (on_req_sent c p qpn t) ≡ true
unfolding on_req_sent
on_req_sent-is_ok CmState.idle p qpn t = refl
on_req_sent-is_ok CmState.req_sent p qpn t = refl
on_req_sent-is_ok _ p qpn t = refl

pub on_rej_sent-is_ok :
    (c : CmState) (k : ℕ) (key : CmFlowKey) (t : Tracker)
    → usable k key ≡ true
    → is_ok (on_rej_sent c k key t) ≡ true
unfolding on_rej_sent
on_rej_sent-is_ok c k key t u = ground (arith, erase_flow-is_ok k key t u)

pub on_rej_received-is_ok :
    (c : CmState) (k : ℕ) (key : CmFlowKey) (t : Tracker)
    → usable k key ≡ true
    → is_ok (on_rej_received c k key t) ≡ true
unfolding on_rej_received
on_rej_received-is_ok c k key t u = ground (arith, erase_flow-is_ok k key t u)

pub on_drep-is_ok :
    (c : CmState) (k : ℕ) (key : CmFlowKey) (t : Tracker)
    → usable k key ≡ true
    → is_ok (on_drep c k key t) ≡ true
unfolding on_drep
on_drep-is_ok c k key t u = ground (arith, erase_flow-is_ok k key t u)

pub on_rtu_sent-is_ok : (c : CmState) (p : Ptr) (t : Tracker) → is_ok (on_rtu_sent c p t) ≡ true
unfolding on_rtu_sent
on_rtu_sent-is_ok c p t = ground (arith, establish-is_ok p t)

pub on_rtu_received-is_ok :
    (c : CmState) (p : Ptr) (t : Tracker) → is_ok (on_rtu_received c p t) ≡ true
unfolding on_rtu_received
on_rtu_received-is_ok c p t = ground (arith, establish-is_ok p t)

pub on_dreq_sent-is_ok : (c : CmState) (p : Ptr) (t : Tracker) → is_ok (on_dreq_sent c p t) ≡ true
unfolding on_dreq_sent send_dreq
on_dreq_sent-is_ok c p t = ground arith

pub on_dreq_received-is_ok :
    (c : CmState) (p : Ptr) (t : Tracker) → is_ok (on_dreq_received c p t) ≡ true
unfolding on_dreq_received receive_dreq
on_dreq_received-is_ok c p t = ground arith

-- A REQ that repeats one that waits for its answer has the same QP number.
abbrev pub accepts_req : CmState → ℕ → FlowState → Bool
accepts_req CmState.req_rcvd qpn s = s.remote_qpn == qpn
accepts_req _ qpn s = true

pub on_req_received-is_ok :
    (c : CmState) (p : Ptr) (qpn : ℕ) (t : Tracker)
    → is_ok (on_req_received c p qpn t) ≡ accepts_req c qpn (t.cells p)
unfolding on_req_received receive_req check
on_req_received-is_ok c p qpn t = ground arith

-- The states in which a REP is the answer that the handler waits for.
abbrev pub answers : CmState → Bool
answers CmState.req_rcvd = true
answers CmState.mra_req_sent = true
answers _ = false

abbrev pub answered : CmState → Bool
answered CmState.req_sent = true
answered CmState.mra_req_rcvd = true
answered _ = false

bindable-put :
    (p : Ptr) (key : CmFlowKey) (r : Option Ptr) (s : FlowState) (t : Tracker)
    → s.remote_id ≡ (t.cells p).remote_id
    → bindable p key r (put t p s) ≡ bindable p key r t
bindable-put p key (some q) s t remote = refl
bindable-put p key none s t remote = ground (arith, remote)

-- The flow has been written to, except for its IDs, before its remote key is bound.
add_stored-is_ok :
    (k : ℕ) (key : CmFlowKey) (p : Ptr) (s : FlowState) (t : Tracker)
    → Inv t
    → t.local_map k ≡ some p
    → s.local_id ≡ (t.cells p).local_id
    → s.remote_id ≡ (t.cells p).remote_id
    → is_ok (add_new_flow k key (put t p s)) ≡ bindable p key (t.remote_map key) t
add_stored-is_ok k key p s t i e local remote =
    add_new_flow-is_ok k key p (put t p s) e (ground (arith, local, i.local_ok k p e))
      (λ q h. ground (arith, remote, i.remote_ok key q h))
    ∙ bindable-put p key (t.remote_map key) s t remote

send_rep-is_ok :
    (k : ℕ) (key : CmFlowKey) (qpn : ℕ) (p : Ptr) (t : Tracker)
    → Inv t
    → Found k key p t
    → is_ok (send_rep p k key qpn t) ≡ ((k == 0) || bindable p key (t.remote_map key) t)
unfolding send_rep
send_rep-is_ok k key qpn p t i f = elim (Bool-cases (k == 0)) [
  | inl z ↦
      let zero : k ≡ 0 = ground arith in
      let set : usable k key ≡ true = rw (f.usable zero) (ground arith) in
      is_ok-then _ _ (λ _ v. refl)
      ∙ add_unknown-is_ok k key (put t p _) (rw zero (local_zero i)) set
      ∙ rw z refl
  | inr nz ↦
      is_ok-then _ _ (λ _ v. refl)
      ∙ add_stored-is_ok k key p _ t i (f.by_local (ground arith)) refl refl
      ∙ rw nz refl
]

receive_rep-is_ok :
    (k : ℕ) (key : CmFlowKey) (qpn : ℕ) (p : Ptr) (t : Tracker)
    → Inv t
    → t.local_map k ≡ some p
    → is_ok (receive_rep p k key qpn t) ≡ bindable p key (t.remote_map key) t
unfolding receive_rep
receive_rep-is_ok k key qpn p t i e =
    is_ok-then _ _ (λ _ v. refl) ∙ add_stored-is_ok k key p _ t i e refl refl

pub on_rep_sent-is_ok :
    (k : ℕ) (key : CmFlowKey) (qpn : ℕ) (p : Ptr) (t : Tracker) (c : CmState)
    → Inv t
    → Found k key p t
    → is_ok (on_rep_sent c p k key qpn t)
      ≡ (not (answers c) || ((k == 0) || bindable p key (t.remote_map key) t))
unfolding on_rep_sent
on_rep_sent-is_ok k key qpn p t c i f = ground (arith, send_rep-is_ok k key qpn p t i f)

pub on_rep_received-is_ok :
    (k : ℕ) (key : CmFlowKey) (qpn : ℕ) (p : Ptr) (t : Tracker) (c : CmState)
    → Inv t
    → t.local_map k ≡ some p
    → is_ok (on_rep_received c p k key qpn t)
      ≡ (not (answered c) || bindable p key (t.remote_map key) t)
unfolding on_rep_received
on_rep_received-is_ok k key qpn p t c i e = ground (arith, receive_rep-is_ok k key qpn p t i e)
