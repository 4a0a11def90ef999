-- ===== src/Tracker/Lifecycle.antt =====
-- A whole connection that the host opens and closes: REQ, REP, RTU, DREQ and DREP.
use libconntrack_cm.Base.{
  ◌++◌, ℕ, ◌+◌, ◌≡◌, ◌≢◌, refl, sym, ap, fun_ext, ◌∙◌, true, none, some, inl, arith, List, [], ◌∷◌,
  Option, update, update₂, Pair,
}
use libconntrack_cm.Packet.{Dpdk, DynfieldOffsets, Mbuf, ok, stop, mbuf_ip}
use libconntrack_cm.Packet.Memory.{load32}
use libconntrack_cm.Iba.{iba_get}
use libconntrack_cm.Cm.Req.{cm_req_local_comm_id, cm_req_local_qpn}
use libconntrack_cm.Cm.Rep.{cm_rep_local_comm_id, cm_rep_remote_comm_id, cm_rep_local_qpn}
use libconntrack_cm.Cm.Rtu.{cm_rtu_local_comm_id}
use libconntrack_cm.Cm.Dreq.{cm_dreq_local_comm_id}
use libconntrack_cm.Cm.Drep.{cm_drep_local_comm_id, cm_drep_remote_comm_id}
use libconntrack_cm.Store.{
  CmState, CmFlowKey, FlowState, Ptr, Tracker, get_flow_key, is_set, lift, and_then,
}
use libconntrack_cm.Tracker.{erase_flow}
use libconntrack_cm.Tracker.Host.{dreq_sent, on_dreq_sent, send_dreq}
use libconntrack_cm.Tracker.Dispatch.{
  Direction, from_host, from_net, process, process_packet, process_all, run_handler, handler_at,
}
use libconntrack_cm.Tracker.Invariant.{Inv}
use libconntrack_cm.Tracker.Invariant.Write.{put}
use libconntrack_cm.Tracker.HandshakeFlow.{
  Carries, Holds, mad_header-Carries, get_flow-known, ==-refl, opened, answered, listed,
}
use libconntrack_cm.Tracker.Connect.{connects, Holds-id}
use libconntrack_cm.Tracker.Teardown.{
  unlisted, erased, erase_flow-InTable, process-drep_received, drep_received-IsClosing,
}

update-undone {ℓ} :
    {A : Type ℓ} (f : ℕ → Option A) (k : ℕ) (v : A)
    → f k ≡ none
    → update (update f k (some v)) k none ≡ f
update-undone f k v e = fun_ext λ j. ground arith

update₂-undone {ℓ} :
    {A : Type ℓ} (f : Pair → Option A) (k : Pair) (v : A)
    → f k ≡ none
    → update₂ (update₂ f k (some v)) k none ≡ f
update₂-undone f k v e = fun_ext λ j. ground arith

module _ (d : Dpdk) (parser : DynfieldOffsets) where
  process_all-append :
      (ms ns : List (Mbuf × Direction)) (t : Tracker)
      → process_all d parser (ms ++ ns) t
        ≡ and_then (process_all d parser ms t) (λ _. process_all d parser ns)
  unfolding process_all
  process_all-append [] ns t = refl
  process_all-append ((m, dir) ∷ ms) ns t =
      elim (process d parser m dir t)
        as (λ r.
          and_then r (λ _. process_all d parser (ms ++ ns))
          ≡ and_then (and_then r (λ _. process_all d parser ms)) (λ _. process_all d parser ns)) [
            | ok (done, u) ↦ process_all-append ms ns u
            | stop e ↦ refl
          ]

  process_all-two :
      (m n : Mbuf) (a b : Direction) (t u v : Tracker)
      → process d parser m a t ≡ ok (tt, u)
      → process d parser n b u ≡ ok (tt, v)
      → process_all d parser ((m, a) ∷ (n, b) ∷ []) t ≡ ok (tt, v)
  unfolding process_all
  process_all-two m n a b t u v e f = rw (e, f) refl

  module _ (m : Mbuf) (a : ℕ) where
    -- A DREQ for an established flow marks it as closing.
    dreq_sent-closes :
        (t : Tracker) (p : Ptr) (s : FlowState)
        → Carries parser m a 0x15
        → iba_get cm_dreq_local_comm_id m.bytes a ≢ 0
        → Holds t (iba_get cm_dreq_local_comm_id m.bytes a) p s
        → s.state ≡ CmState.established
        → process d parser m from_host t ≡ ok (tt, put t p (record s { state = CmState.dreq_sent }))
    unfolding process process_packet lift run_handler handler_at dreq_sent on_dreq_sent send_dreq
    dreq_sent-closes t p s c ne (known, cell) open_ =
        let id = iba_get cm_dreq_local_comm_id m.bytes a in
        let (mad, attr) = mad_header-Carries parser m a 0x15 c in
        rw attr (rw (mad, get_flow-known id p t ne known, cell, open_) (rw cell refl))

-- A connection that is in the QPN table under its key, and the maps that it was added to.
module _ (d : Dpdk) (parser : DynfieldOffsets) (dreq drep : Mbuf) (a b ip : ℕ) (t w : Tracker)
    (id : ℕ) (key : CmFlowKey) (p : Ptr) (s : FlowState) (ne : id ≢ 0)
    (holds : Holds w id p (listed s)) (remote : s.remote_id ≡ key) (local : s.local_qpn ≢ 0)
    (peer : s.remote_qpn ≢ 0) (locals : w.local_map ≡ update t.local_map id (some p))
    (remotes : w.remote_map ≡ update₂ t.remote_map key (some p))
    (qpns : w.qpn_map ≡ update₂ t.qpn_map (key.0, s.remote_qpn) (some s.local_qpn))
    (fresh_id : t.local_map id ≡ none) (fresh_key : t.remote_map key ≡ none)
    (fresh_qpn : t.qpn_map (key.0, s.remote_qpn) ≡ none) (cd : Carries parser dreq a 0x15)
    (ce : Carries parser drep b 0x16) (at : mbuf_ip d drep ≡ ok ip)
    (same : iba_get cm_dreq_local_comm_id dreq.bytes a ≡ id)
    (same' : iba_get cm_drep_remote_comm_id drep.bytes b ≡ id)
    (source : (load32 drep.bytes (ip + 12), iba_get cm_drep_local_comm_id drep.bytes b) ≡ key) where
  abbrev closing : FlowState
  closing = record s { state = CmState.dreq_sent; in_qpn_map = true }

  abbrev left : Tracker
  left = erased id key (unlisted (put w p closing) p closing)

  closes : process_all d parser ((dreq, from_host) ∷ (drep, from_net) ∷ []) w ≡ ok (tt, left)
  closes =
      let v = put w p closing in
      let held : Holds v id p closing = (holds.0, rw (==-refl p) refl) in
      let entry : w.qpn_map (get_flow_key closing) ≡ some s.local_qpn =
        rw (remote, qpns) (ground arith) in
      process_all-two d parser dreq drep from_host from_net w v left
        (dreq_sent-closes d parser dreq a w p (listed s) cd (rw same ne)
          (Holds-id w p (listed s) (sym same) holds) refl)
        (process-drep_received d parser drep b v ce
          ∙ drep_received-IsClosing d parser drep b v p closing ip ce at (rw same' ne)
              (Holds-id v p closing (sym same') held) (inl refl)
          ∙ ap
              (λ k.
                erase_flow k
                  (load32 drep.bytes (ip + 12), iba_get cm_drep_local_comm_id drep.bytes b) v)
              same'
          ∙ ap (λ x. erase_flow id x v) source
          ∙ erase_flow-InTable id key v p closing ne held (refl, local, peer, entry))

  restores :
      (u : Tracker) × (process_all d parser ((dreq, from_host) ∷ (drep, from_net) ∷ []) w
        ≡ ok (tt, u))
      × (u.local_map ≡ t.local_map)
      × (u.remote_map ≡ t.remote_map)
      × (u.qpn_map ≡ t.qpn_map)
  restores = (
    left,
    closes,
    rw locals (update-undone t.local_map id p fresh_id),
    rw remotes (update₂-undone t.remote_map key p fresh_key),
    rw (remote, qpns) (update₂-undone t.qpn_map (key.0, s.remote_qpn) s.local_qpn fresh_qpn),
  )

-- The tracker satisfies its invariant. The host opens a connection as in `handshake-get_source_qpn`: a REQ with a new
-- local ID, the REP with a new remote ID, and the RTU, with QP numbers that are not 0 and no entry in the QPN table
-- yet. Then the host sends a DREQ with the same local ID, and the DREP that answers it comes from the same
-- address with the same two IDs. The five packets are processed without a failure, after which the two ID maps and
-- the QPN table are what they were before the first.
pub lifecycle-restores :
    (d : Dpdk) (parser : DynfieldOffsets) (req rep rtu dreq drep : Mbuf) (a b c e f ip ip' : ℕ)
    (t : Tracker)
    → Inv t
    → Carries parser req a 0x10
    → Carries parser rep b 0x13
    → Carries parser rtu c 0x14
    → Carries parser dreq e 0x15
    → Carries parser drep f 0x16
    → mbuf_ip d rep ≡ ok ip
    → mbuf_ip d drep ≡ ok ip'
    → iba_get cm_req_local_comm_id req.bytes a ≢ 0
    → iba_get cm_rep_remote_comm_id rep.bytes b ≡ iba_get cm_req_local_comm_id req.bytes a
    → iba_get cm_rtu_local_comm_id rtu.bytes c ≡ iba_get cm_req_local_comm_id req.bytes a
    → iba_get cm_dreq_local_comm_id dreq.bytes e ≡ iba_get cm_req_local_comm_id req.bytes a
    → iba_get cm_drep_remote_comm_id drep.bytes f ≡ iba_get cm_req_local_comm_id req.bytes a
    → is_set (load32 rep.bytes (ip + 12), iba_get cm_rep_local_comm_id rep.bytes b) ≡ true
    → load32 drep.bytes (ip' + 12) ≡ load32 rep.bytes (ip + 12)
    → iba_get cm_drep_local_comm_id drep.bytes f ≡ iba_get cm_rep_local_comm_id rep.bytes b
    → iba_get cm_req_local_qpn req.bytes a ≢ 0
    → iba_get cm_rep_local_qpn rep.bytes b ≢ 0
    → t.local_map (iba_get cm_req_local_comm_id req.bytes a) ≡ none
    → t.remote_map (load32 rep.bytes (ip + 12), iba_get cm_rep_local_comm_id rep.bytes b) ≡ none
    → t.qpn_map (load32 rep.bytes (ip + 12), iba_get cm_rep_local_qpn rep.bytes b) ≡ none
    → (u : Tracker) × (process_all d parser
          ((req, from_host)
            ∷ (rep, from_net)
            ∷ (rtu, from_host)
            ∷ (dreq, from_host)
            ∷ (drep, from_net)
            ∷ [])
          t
        ≡ ok (tt, u))
      × (u.local_map ≡ t.local_map)
      × (u.remote_map ≡ t.remote_map)
      × (u.qpn_map ≡ t.qpn_map)
lifecycle-restores d parser req rep rtu dreq drep a b c e f ip ip' t i cq cp cu cd ce at at' ne same
      same' same_dreq same_drep set same_ip same_remote local peer fresh_id fresh_key fresh_qpn =
    let id = iba_get cm_req_local_comm_id req.bytes a in
    let key : CmFlowKey = (load32 rep.bytes (ip + 12), iba_get cm_rep_local_comm_id rep.bytes b) in
    let s =
      answered key (iba_get cm_rep_local_qpn rep.bytes b)
        (opened id (iba_get cm_req_local_qpn req.bytes a)) in
    let (w, run, holds, locals, remotes, qpns) =
      connects d parser req rep rtu a b c ip t i cq cp cu at ne same same' set local peer fresh_id
        fresh_key fresh_qpn in
    let source : ◌≡◌ {A = CmFlowKey}
        (load32 drep.bytes (ip' + 12), iba_get cm_drep_local_comm_id drep.bytes f) key =
      cc in
    let (u, run', local_back, remote_back, qpn_back) =
      restores d parser dreq drep e f ip' t w id key t.next s ne holds refl local peer locals
        remotes qpns fresh_id fresh_key fresh_qpn cd ce at' same_dreq same_drep source in
    (
      u,
      process_all-append d parser ((req, from_host) ∷ (rep, from_net) ∷ (rtu, from_host) ∷ [])
            ((dreq, from_host) ∷ (drep, from_net) ∷ []) t
          ∙ rw run run',
      local_back,
      remote_back,
      qpn_back,
    )
