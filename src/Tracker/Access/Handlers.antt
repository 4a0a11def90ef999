-- ===== src/Tracker/Access/Handlers.antt =====
-- The handlers fail by an assertion alone, on a packet whose MAD pointer is set.
use libconntrack_cm.Base.{ℕ}
use libconntrack_cm.Packet.{Dpdk, DynfieldOffsets, Mbuf, mbuf_ip}
use libconntrack_cm.Base.{Bool-cases, inl, inr}
use libconntrack_cm.Store.{null_key, Tracker}
use libconntrack_cm.Tracker.Host.{req_sent, rej_sent, rep_sent, rtu_sent, dreq_sent, drep_sent}
use libconntrack_cm.Tracker.Net.{
  req_received, rej_received, rep_received, rtu_received, dreq_received, drep_received,
}
use libconntrack_cm.Tracker.Message.{mad_header, from_dest, from_src}
use libconntrack_cm.Tracker.Access
use libconntrack_cm.Tracker.Access.{NoNull, returns, asserts}
use libconntrack_cm.Tracker.Access.Flows.{get_flow-NoNull}
use libconntrack_cm.Tracker.Access.Switches.{
  on_req_sent-NoNull, on_req_received-NoNull, on_dreq_sent-NoNull, on_dreq_received-NoNull,
  on_rep_sent-NoNull, on_rep_received-NoNull, on_rtu_sent-NoNull, on_rtu_received-NoNull,
  on_rej_sent-NoNull, on_rej_received-NoNull, on_drep-NoNull,
}

from_dest-NoNull : (d : Dpdk) (m : Mbuf) (id : ℕ) → NoNull (from_dest d m id)
unfolding from_dest mbuf_ip
from_dest-NoNull d m id = elim (Bool-cases (d.is_ipv4_hdr m.packet_type)) [
  | inl is ↦ rw is returns
  | inr other ↦ rw other asserts
]

from_src-NoNull : (d : Dpdk) (m : Mbuf) (id : ℕ) → NoNull (from_src d m id)
unfolding from_src mbuf_ip
from_src-NoNull d m id = elim (Bool-cases (d.is_ipv4_hdr m.packet_type)) [
  | inl is ↦ rw is returns
  | inr other ↦ rw other asserts
]

module _ (d : Dpdk) (parser : DynfieldOffsets) (m : Mbuf) (set : NoNull (mad_header parser m))
    (t : Tracker) where
  pub req_sent-NoNull : NoNull (req_sent d parser m t)
  unfolding req_sent
  req_sent-NoNull =
      Access.bind_lift _ _ _ set
        λ msg _. Access.bind (get_flow-NoNull _ null_key t) λ p u. on_req_sent-NoNull _ p _ u

  pub rej_sent-NoNull : NoNull (rej_sent d parser m t)
  unfolding rej_sent
  rej_sent-NoNull = Access.bind_lift _ _ _ set λ msg _.
      Access.bind_lift _ _ _ (from_dest-NoNull d m _)
        λ key _. Access.bind (get_flow-NoNull _ key t) λ p u. on_rej_sent-NoNull _ _ key u

  pub rep_sent-NoNull : NoNull (rep_sent d parser m t)
  unfolding rep_sent
  rep_sent-NoNull = Access.bind_lift _ _ _ set λ msg _.
      Access.bind_lift _ _ _ (from_dest-NoNull d m _)
        λ key _. Access.bind (get_flow-NoNull _ key t) λ p u. on_rep_sent-NoNull _ p _ key _ u

  pub rtu_sent-NoNull : NoNull (rtu_sent d parser m t)
  unfolding rtu_sent
  rtu_sent-NoNull =
      Access.bind_lift _ _ _ set
        λ msg _. Access.bind (get_flow-NoNull _ null_key t) λ p u. on_rtu_sent-NoNull _ p u

  pub dreq_sent-NoNull : NoNull (dreq_sent d parser m t)
  unfolding dreq_sent
  dreq_sent-NoNull =
      Access.bind_lift _ _ _ set
        λ msg _. Access.bind (get_flow-NoNull _ null_key t) λ p u. on_dreq_sent-NoNull _ p u

  pub drep_sent-NoNull : NoNull (drep_sent d parser m t)
  unfolding drep_sent
  drep_sent-NoNull = Access.bind_lift _ _ _ set λ msg _.
      Access.bind_lift _ _ _ (from_dest-NoNull d m _)
        λ key _. Access.bind (get_flow-NoNull _ null_key t) λ p u. on_drep-NoNull _ _ key u

  pub req_received-NoNull : NoNull (req_received d parser m t)
  unfolding req_received
  req_received-NoNull = Access.bind_lift _ _ _ set λ msg _.
      Access.bind_lift _ _ _ (from_src-NoNull d m _)
        λ key _. Access.bind (get_flow-NoNull 0 key t) λ p u. on_req_received-NoNull _ p _ u

  pub rej_received-NoNull : NoNull (rej_received d parser m t)
  unfolding rej_received
  rej_received-NoNull = Access.bind_lift _ _ _ set λ msg _.
      Access.bind_lift _ _ _ (from_src-NoNull d m _)
        λ key _. Access.bind (get_flow-NoNull _ key t) λ p u. on_rej_received-NoNull _ _ key u

  pub rep_received-NoNull : NoNull (rep_received d parser m t)
  unfolding rep_received
  rep_received-NoNull = Access.bind_lift _ _ _ set λ msg _.
      Access.bind_lift _ _ _ (from_src-NoNull d m _) λ key _.
        Access.bind (get_flow-NoNull _ null_key t) λ p u. on_rep_received-NoNull _ p _ key _ u

  pub rtu_received-NoNull : NoNull (rtu_received d parser m t)
  unfolding rtu_received
  rtu_received-NoNull =
      Access.bind_lift _ _ _ set
        λ msg _. Access.bind (get_flow-NoNull _ null_key t) λ p u. on_rtu_received-NoNull _ p u

  pub dreq_received-NoNull : NoNull (dreq_received d parser m t)
  unfolding dreq_received
  dreq_received-NoNull =
      Access.bind_lift _ _ _ set
        λ msg _. Access.bind (get_flow-NoNull _ null_key t) λ p u. on_dreq_received-NoNull _ p u

  pub drep_received-NoNull : NoNull (drep_received d parser m t)
  unfolding drep_received
  drep_received-NoNull = Access.bind_lift _ _ _ set λ msg _.
      Access.bind_lift _ _ _ (from_src-NoNull d m _)
        λ key _. Access.bind (get_flow-NoNull _ null_key t) λ p u. on_drep-NoNull _ _ key u
