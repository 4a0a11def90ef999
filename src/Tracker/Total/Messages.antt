-- ===== src/Tracker/Total/Messages.antt =====
-- The handlers of the two directions, that return exactly under their conditions.
use libconntrack_cm.Base.{ℕ, ◌≡◌, ◌≢◌, refl, true, false, arith, Bool-cases, inl, inr, ◌==◌, ◌∙◌}
use libconntrack_cm.Packet.{is_ok, Dpdk, DynfieldOffsets, Mbuf, ok, mbuf_ip}
use libconntrack_cm.Iba.{iba_get}
use libconntrack_cm.Cm.Req.{cm_req_local_comm_id, cm_req_local_qpn}
use libconntrack_cm.Cm.Rej.{cm_rej_local_comm_id, cm_rej_remote_comm_id}
use libconntrack_cm.Cm.Rep.{cm_rep_local_comm_id, cm_rep_remote_comm_id}
use libconntrack_cm.Cm.Rtu.{cm_rtu_local_comm_id, cm_rtu_remote_comm_id}
use libconntrack_cm.Cm.Dreq.{cm_dreq_local_comm_id, cm_dreq_remote_comm_id}
use libconntrack_cm.Cm.Drep.{cm_drep_local_comm_id, cm_drep_remote_comm_id}
use libconntrack_cm.Store.{CmState, CmFlowKey, Ptr, Tracker, is_set, null_key, lift}
use libconntrack_cm.Tracker.Message.{mad_header, from_src, from_dest}
use libconntrack_cm.Tracker.Host.{req_sent, rej_sent, rep_sent, rtu_sent, dreq_sent, drep_sent}
use libconntrack_cm.Tracker.Net.{
  req_received, rej_received, rep_received, rtu_received, dreq_received, drep_received,
}
use libconntrack_cm.Tracker.Edges.{state_of}
use libconntrack_cm.Tracker.HandshakeFlow.{==-refl}
use libconntrack_cm.Tracker.Invariant.{Inv}
use libconntrack_cm.Tracker.Isolate.{null_key-local}
use libconntrack_cm.Tracker.Repeat.{Found}
use libconntrack_cm.Tracker.Total.{usable}
use libconntrack_cm.Tracker.Total.Lookup.{returns, IsNew, get_flow_then-is_ok}
use libconntrack_cm.Tracker.Total.Handlers.{
  on_req_sent-is_ok, on_rej_sent-is_ok, on_rep_sent-is_ok, on_rtu_sent-is_ok, on_dreq_sent-is_ok,
  on_drep-is_ok, on_req_received-is_ok, on_rej_received-is_ok, on_rep_received-is_ok,
  on_rtu_received-is_ok, on_dreq_received-is_ok,
}
use libconntrack_cm.Tracker.Total.Conditions.{
  anything, can_answer, rep_sent_returns, rep_received_returns, req_received_returns, dest, src,
}

new-can_answer :
    (k : ℕ) (key : CmFlowKey) (p : Ptr) (u : Tracker)
    → IsNew k key p u
    → can_answer k key u p ≡ true
new-can_answer k key p u n = elim n.fresh [
  | inl idle ↦ rw idle refl
  | inr (nz, e) ↦ rw (e, ==-refl p) ground arith
]

new-idle :
    (k : ℕ) (key : CmFlowKey) (p : Ptr) (u : Tracker)
    → IsNew k key p u
    → (k ≢ 0 → is_set key ≡ false)
    → state_of u p ≡ CmState.idle
new-idle k key p u n unset = elim n.fresh [
  | inl idle ↦ idle
  | inr (nz, e) ↦ absurd (ground (arith, unset nz, (n.inv.remote_ok key p e).0))
]

Found-usable :
    (k : ℕ) (key : CmFlowKey) (p : Ptr) (t : Tracker) → Found k key p t → usable k key ≡ true
Found-usable k key p t f = elim (Bool-cases (k == 0)) [
  | inl z ↦ rw (z, f.usable (ground arith)) refl
  | inr nz ↦ rw nz refl
]

local-usable :
    (k : ℕ) (key : CmFlowKey) (p : Ptr) (t : Tracker) → Found k null_key p t → usable k key ≡ true
local-usable k key p t f = let nz = null_key-local f in ground arith

module _ (d : Dpdk) (parser : DynfieldOffsets) (m : Mbuf) (a ip : ℕ) (t : Tracker) (i : Inv t)
    (mad : mad_header parser m ≡ ok a) (at : mbuf_ip d m ≡ ok ip) where
  pub req_sent-is_ok :
      is_ok (req_sent d parser m t)
      ≡ returns (iba_get cm_req_local_comm_id m.bytes a) null_key anything t
  unfolding req_sent lift
  req_sent-is_ok = rw mad (
      get_flow_then-is_ok _ null_key _ anything t i (λ p f. on_req_sent-is_ok (state_of t p) p _ t)
        λ p u n. on_req_sent-is_ok (state_of u p) p _ u)

  pub rej_sent-is_ok :
      is_ok (rej_sent d parser m t)
      ≡ returns
          (iba_get cm_rej_local_comm_id m.bytes a)
          (dest m ip (iba_get cm_rej_remote_comm_id m.bytes a))
          anything
          t
  unfolding rej_sent lift from_dest
  rej_sent-is_ok =
      rw (mad, at)
        (get_flow_then-is_ok _ _ _ anything t i
          (λ p f. on_rej_sent-is_ok (state_of t p) _ _ t (Found-usable _ _ p t f))
          λ p u n. on_rej_sent-is_ok (state_of u p) _ _ u (Found-usable _ _ p u n.found))

  pub rep_sent-is_ok :
      is_ok (rep_sent d parser m t)
      ≡ rep_sent_returns
          (iba_get cm_rep_local_comm_id m.bytes a)
          (dest m ip (iba_get cm_rep_remote_comm_id m.bytes a))
          t
  unfolding rep_sent lift from_dest
  rep_sent-is_ok =
      rw (mad, at)
        (get_flow_then-is_ok _ _ _ _ t i (λ p f. on_rep_sent-is_ok _ _ _ p t (state_of t p) i f)
          λ p u n.
            on_rep_sent-is_ok _ _ _ p u (state_of u p) n.inv n.found ∙ new-can_answer _ _ p u n)

  pub rtu_sent-is_ok :
      is_ok (rtu_sent d parser m t)
      ≡ returns (iba_get cm_rtu_local_comm_id m.bytes a) null_key anything t
  unfolding rtu_sent lift
  rtu_sent-is_ok = rw mad (
      get_flow_then-is_ok _ null_key _ anything t i (λ p f. on_rtu_sent-is_ok (state_of t p) p t)
        λ p u n. on_rtu_sent-is_ok (state_of u p) p u)

  pub dreq_sent-is_ok :
      is_ok (dreq_sent d parser m t)
      ≡ returns (iba_get cm_dreq_local_comm_id m.bytes a) null_key anything t
  unfolding dreq_sent lift
  dreq_sent-is_ok = rw mad (
      get_flow_then-is_ok _ null_key _ anything t i (λ p f. on_dreq_sent-is_ok (state_of t p) p t)
        λ p u n. on_dreq_sent-is_ok (state_of u p) p u)

  pub drep_sent-is_ok :
      is_ok (drep_sent d parser m t)
      ≡ returns (iba_get cm_drep_local_comm_id m.bytes a) null_key anything t
  unfolding drep_sent lift from_dest
  drep_sent-is_ok =
      rw (mad, at)
        (get_flow_then-is_ok _ null_key _ anything t i
          (λ p f.
            on_drep-is_ok (state_of t p) _ (dest m ip (iba_get cm_drep_remote_comm_id m.bytes a)) t
              (local-usable _ (dest m ip (iba_get cm_drep_remote_comm_id m.bytes a)) p t f))
          λ p u n.
            on_drep-is_ok (state_of u p) _ (dest m ip (iba_get cm_drep_remote_comm_id m.bytes a)) u
              (local-usable _ (dest m ip (iba_get cm_drep_remote_comm_id m.bytes a)) p u n.found))

  pub req_received-is_ok :
      is_ok (req_received d parser m t)
      ≡ req_received_returns
          (src m ip (iba_get cm_req_local_comm_id m.bytes a))
          (iba_get cm_req_local_qpn m.bytes a)
          t
  unfolding req_received lift from_src
  req_received-is_ok =
      rw (mad, at)
        (get_flow_then-is_ok 0 _ _ _ t i (λ p f. on_req_received-is_ok (state_of t p) p _ t)
          λ p u n.
            on_req_received-is_ok (state_of u p) p _ u
            ∙ rw (new-idle 0 _ p u n λ ne. absurd (ne refl)) refl)

  pub rej_received-is_ok :
      is_ok (rej_received d parser m t)
      ≡ returns
          (iba_get cm_rej_remote_comm_id m.bytes a)
          (src m ip (iba_get cm_rej_local_comm_id m.bytes a))
          anything
          t
  unfolding rej_received lift from_src
  rej_received-is_ok =
      rw (mad, at)
        (get_flow_then-is_ok _ _ _ anything t i
          (λ p f. on_rej_received-is_ok (state_of t p) _ _ t (Found-usable _ _ p t f))
          λ p u n. on_rej_received-is_ok (state_of u p) _ _ u (Found-usable _ _ p u n.found))

  pub rep_received-is_ok :
      is_ok (rep_received d parser m t)
      ≡ rep_received_returns
          (iba_get cm_rep_remote_comm_id m.bytes a)
          (src m ip (iba_get cm_rep_local_comm_id m.bytes a))
          t
  unfolding rep_received lift from_src
  rep_received-is_ok =
      rw (mad, at)
        (get_flow_then-is_ok _ null_key _ _ t i
          (λ p f. on_rep_received-is_ok _ _ _ p t (state_of t p) i (f.by_local (null_key-local f)))
          λ p u n.
            on_rep_received-is_ok _ _ _ p u (state_of u p) n.inv
              (n.found.by_local (null_key-local n.found))
            ∙ rw (new-idle _ null_key p u n λ ne. refl) refl)

  pub rtu_received-is_ok :
      is_ok (rtu_received d parser m t)
      ≡ returns (iba_get cm_rtu_remote_comm_id m.bytes a) null_key anything t
  unfolding rtu_received lift
  rtu_received-is_ok = rw mad (
      get_flow_then-is_ok _ null_key _ anything t i
        (λ p f. on_rtu_received-is_ok (state_of t p) p t)
        λ p u n. on_rtu_received-is_ok (state_of u p) p u)

  pub dreq_received-is_ok :
      is_ok (dreq_received d parser m t)
      ≡ returns (iba_get cm_dreq_remote_comm_id m.bytes a) null_key anything t
  unfolding dreq_received lift
  dreq_received-is_ok = rw mad (
      get_flow_then-is_ok _ null_key _ anything t i
        (λ p f. on_dreq_received-is_ok (state_of t p) p t)
        λ p u n. on_dreq_received-is_ok (state_of u p) p u)

  pub drep_received-is_ok :
      is_ok (drep_received d parser m t)
      ≡ returns (iba_get cm_drep_remote_comm_id m.bytes a) null_key anything t
  unfolding drep_received lift from_src
  drep_received-is_ok =
      rw (mad, at)
        (get_flow_then-is_ok _ null_key _ anything t i
          (λ p f.
            on_drep-is_ok (state_of t p) _ (src m ip (iba_get cm_drep_local_comm_id m.bytes a)) t
              (local-usable _ (src m ip (iba_get cm_drep_local_comm_id m.bytes a)) p t f))
          λ p u n.
            on_drep-is_ok (state_of u p) _ (src m ip (iba_get cm_drep_local_comm_id m.bytes a)) u
              (local-usable _ (src m ip (iba_get cm_drep_local_comm_id m.bytes a)) p u n.found))
