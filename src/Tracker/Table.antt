-- ===== src/Tracker/Table.antt =====
-- The QPN table on its own, as an abstract machine that the user of the tracker sees: a map from a remote address
-- and QP number to a QP number of the host, and what a message with a given attribute ID may do to it.
pub mod Quiet
pub mod Acts
pub mod Switches
pub mod Handlers
pub mod Refines
pub mod History
use libconntrack_cm.Base.{
  ℕ, ◌+◌, ◌≤◌, ◌≡◌, ◌≢◌, ◌⊎◌, refl, subst, true, Option, none, some, is_some, update₂, List, [],
  ◌∷◌, arith,
}
use libconntrack_cm.Packet.{DynfieldOffsets, Mbuf, ok}
use libconntrack_cm.Store.{FlowKey, Tracker}
use libconntrack_cm.Tracker.Message.{get_attr_id}
use libconntrack_cm.Tracker.Dispatch.{Direction, cm_rtu_attr_id, cm_rej_attr_id, cm_drep_attr_id}

abbrev pub Table : Type 0
Table = FlowKey → Option ℕ

-- A message with attribute ID `a` leaves the table, enters a QP number under a key that is free when it is an RTU,
-- or takes the entry of a key out when it is a REJ or a DREP.
pub data TableStep (a : ℕ) (q : Table) : Table → Type 0 where
  stays : TableStep a q q
  opens :
      (k : FlowKey) (v : ℕ)
      → a ≡ cm_rtu_attr_id
      → q k ≡ none
      → v ≢ 0
      → TableStep a q (update₂ q k (some v))
  closes :
      (k : FlowKey)
      → (a ≡ cm_rej_attr_id) ⊎ (a ≡ cm_drep_attr_id)
      → is_some (q k) ≡ true
      → TableStep a q (update₂ q k none)

-- The table over a history of packets, each a step by its attribute ID.
pub data TableRun (parser : DynfieldOffsets)
    : List (Mbuf × Direction) → Table → Table → Type 0 where
  finished : {q : Table} → TableRun parser [] q q
  next :
      {m : Mbuf} {dir : Direction} {rest : List (Mbuf × Direction)} {a : ℕ} {q r s : Table}
      → get_attr_id parser m ≡ ok a
      → TableStep a q r
      → TableRun parser rest r s
      → TableRun parser ((m, dir) ∷ rest) q s

-- What one message may do to a tracker, seen from its table and its store.
pub record IsAct (a : ℕ) (t u : Tracker) : Type 0 where
  pub table : TableStep a t.qpn_map u.qpn_map
  pub bounded : u.next ≤ t.next + 1

pub IsAct-refl : {a : ℕ} (t : Tracker) → IsAct a t t
IsAct-refl t = record { table = stays; bounded = omega arith }

-- Nothing but the ID maps, the flow objects and the number of flows differs.
pub record IsQuiet (t u : Tracker) : Type 0 where
  pub table : u.qpn_map ≡ t.qpn_map
  pub bounded : u.next ≤ t.next + 1

pub record IsSilent (t u : Tracker) : Type 0 where
  pub table : u.qpn_map ≡ t.qpn_map
  pub next : u.next ≡ t.next

-- A step of the table alone, after a lookup.
pub IsAct-after :
    {a : ℕ} {t u v : Tracker}
    → IsQuiet t u
    → TableStep a u.qpn_map v.qpn_map
    → v.next ≡ u.next
    → IsAct a t v
IsAct-after {a} {t} {u} {v} s step same = record {
  table = subst (λ q. TableStep a q v.qpn_map) s.table step;
  bounded = omega (arith, s.bounded, same);
}
