-- ===== src/Tracker/Total/Conditions.antt =====
-- The conditions on the maps and on the flow of a message under which it is processed to its end.
use libconntrack_cm.Base.{ℕ, ◌+◌, Bool, true, not, ◌||◌, ◌==◌, if◌then◌else◌, List, [], ◌∷◌}
use libconntrack_cm.Packet.{Mbuf}
use libconntrack_cm.Packet.Memory.{load32}
use libconntrack_cm.Iba.{iba_get, iba_get16}
use libconntrack_cm.Cm.Req.{cm_req_local_comm_id, cm_req_local_qpn}
use libconntrack_cm.Cm.Rej.{cm_rej_local_comm_id, cm_rej_remote_comm_id}
use libconntrack_cm.Cm.Rep.{cm_rep_local_comm_id, cm_rep_remote_comm_id}
use libconntrack_cm.Cm.Rtu.{cm_rtu_local_comm_id, cm_rtu_remote_comm_id}
use libconntrack_cm.Cm.Dreq.{cm_dreq_local_comm_id, cm_dreq_remote_comm_id}
use libconntrack_cm.Cm.Drep.{cm_drep_local_comm_id, cm_drep_remote_comm_id}
use libconntrack_cm.Tracker.Message.{attr_id_offset}
use libconntrack_cm.Store.{CmFlowKey, Ptr, Tracker, null_key}
use libconntrack_cm.Tracker.Dispatch.{Direction, from_host, from_net}
use libconntrack_cm.Tracker.Edges.{state_of}
use libconntrack_cm.Tracker.Total.{bindable}
use libconntrack_cm.Tracker.Total.Lookup.{returns}
use libconntrack_cm.Tracker.Total.Handlers.{accepts_req, answers, answered}

-- What the handler of a message checks, beyond the lookup, of the flow that the IDs name.
abbrev pub anything : Ptr → Bool
anything p = true

abbrev pub can_answer : ℕ → CmFlowKey → Tracker → Ptr → Bool
can_answer k key t p =
    not (answers (state_of t p)) || ((k == 0) || bindable p key (t.remote_map key) t)

abbrev pub can_be_answered : CmFlowKey → Tracker → Ptr → Bool
can_be_answered key t p = not (answered (state_of t p)) || bindable p key (t.remote_map key) t

-- A REP of the host and a REP from the network are processed to their end.
abbrev pub rep_sent_returns : ℕ → CmFlowKey → Tracker → Bool
rep_sent_returns k key t = returns k key (can_answer k key t) t

abbrev pub rep_received_returns : ℕ → CmFlowKey → Tracker → Bool
rep_received_returns k key t = returns k null_key (can_be_answered key t) t

abbrev pub req_received_returns : CmFlowKey → ℕ → Tracker → Bool
req_received_returns key qpn t = returns 0 key (λ p. accepts_req (state_of t p) qpn (t.cells p)) t

-- The remote keys of the two directions, for a packet whose IP header is at `ip`.
abbrev pub dest : Mbuf → ℕ → ℕ → CmFlowKey
dest m ip id = (load32 m.bytes (ip + 16), id)

abbrev pub src : Mbuf → ℕ → ℕ → CmFlowKey
src m ip id = (load32 m.bytes (ip + 12), id)

-- The conditions by the attribute ID, for a MAD header at `a`.
abbrev pub conditions : Direction → Mbuf → ℕ → ℕ → Tracker → List (ℕ × Bool)
conditions from_host m a ip t =
    (0x10, returns (iba_get cm_req_local_comm_id m.bytes a) null_key anything t)
    ∷ (
      0x12,
      returns (iba_get cm_rej_local_comm_id m.bytes a)
          (dest m ip (iba_get cm_rej_remote_comm_id m.bytes a)) anything t,
    )
    ∷ (
      0x13,
      rep_sent_returns (iba_get cm_rep_local_comm_id m.bytes a)
          (dest m ip (iba_get cm_rep_remote_comm_id m.bytes a)) t,
    )
    ∷ (0x14, returns (iba_get cm_rtu_local_comm_id m.bytes a) null_key anything t)
    ∷ (0x15, returns (iba_get cm_dreq_local_comm_id m.bytes a) null_key anything t)
    ∷ (0x16, returns (iba_get cm_drep_local_comm_id m.bytes a) null_key anything t)
    ∷ []
conditions from_net m a ip t =
    (
      0x10,
      req_received_returns (src m ip (iba_get cm_req_local_comm_id m.bytes a))
          (iba_get cm_req_local_qpn m.bytes a) t,
    )
    ∷ (
      0x12,
      returns (iba_get cm_rej_remote_comm_id m.bytes a)
          (src m ip (iba_get cm_rej_local_comm_id m.bytes a)) anything t,
    )
    ∷ (
      0x13,
      rep_received_returns (iba_get cm_rep_remote_comm_id m.bytes a)
          (src m ip (iba_get cm_rep_local_comm_id m.bytes a)) t,
    )
    ∷ (0x14, returns (iba_get cm_rtu_remote_comm_id m.bytes a) null_key anything t)
    ∷ (0x15, returns (iba_get cm_dreq_remote_comm_id m.bytes a) null_key anything t)
    ∷ (0x16, returns (iba_get cm_drep_remote_comm_id m.bytes a) null_key anything t)
    ∷ []

-- Nothing is asked of another attribute ID.
abbrev pub condition_at : List (ℕ × Bool) → ℕ → Bool
condition_at [] attr_id = true
condition_at ((k, b) ∷ rest) attr_id = if k == attr_id then b else condition_at rest attr_id

-- The packet `m` is processed to its end, with its MAD header at `a` and its IP header at `ip`.
abbrev pub accepts : Direction → Mbuf → ℕ → ℕ → Tracker → Bool
accepts dir m a ip t =
    condition_at (conditions dir m a ip t) (iba_get16 m.bytes (a + attr_id_offset))
