-- ===== src/Tracker/Invariant/Bind.antt =====
-- `add_new_flow` and `get_flow` keep the invariant, and the flow that they return is found under the
-- IDs that they were given.
use libconntrack_cm.Base.{ℕ, ◌+◌, ◌<◌, ◌≡◌, ◌≢◌, true, false, none, some, arith, update, update₂}
use libconntrack_cm.Store.{CmFlowKey, Ptr, Tracker, is_set, flow_state}
use libconntrack_cm.Tracker.Invariant.{IsFlagged, Inv}

-- A flow that is given a local ID.
abbrev pub with_local : Tracker → ℕ → Ptr → Tracker
with_local t k p = record t {
  cells = update t.cells p (record (t.cells p) { local_id = k });
  local_map = update t.local_map k (some p);
}

abbrev pub with_remote : Tracker → CmFlowKey → Ptr → Tracker
with_remote t k p = record t {
  cells = update t.cells p (record (t.cells p) { remote_id = k });
  remote_map = update₂ t.remote_map k (some p);
}

abbrev pub with_cell : Tracker → Tracker
with_cell t = record t { cells = update t.cells t.next flow_state; next = t.next + 1 }

module _ {t : Tracker} (i : Inv t) where
  -- A marked flow has a local ID.
  pub flagged-local : (p : Ptr) → IsFlagged t p → (t.cells p).local_id ≢ 0
  flagged-local p f e = (i.local_ok _ p (i.flagged_ok p f).found).0 e

  pub flagged-lt : (p : Ptr) → IsFlagged t p → p < t.next
  flagged-lt p f = (i.local_ok _ p (i.flagged_ok p f).found).1

  pub with_local-Inv :
      (k : ℕ) (p : Ptr)
      → k ≢ 0
      → p < t.next
      → (t.cells p).local_id ≡ 0
      → t.local_map k ≡ none
      → Inv (with_local t k p)
  with_local-Inv k p ne lt unset free = record {
    local_ok = λ j q h. ground (arith, i.local_ok j q);
    remote_ok = λ j q h. ground (arith, i.remote_ok j q);
    flagged_ok = λ q h. ground (arith, i.flagged_ok q, flagged-local q);
    listed =
        λ j v h. let (q, f, e, l) = i.listed j v h in (q, ground arith, ground arith, ground arith);
    distinct = λ q r f g e. ground (arith, i.distinct q r);
  }

  pub with_remote-Inv :
      (k : CmFlowKey) (p : Ptr)
      → is_set k ≡ true
      → p < t.next
      → is_set (t.cells p).remote_id ≡ false
      → (t.cells p).in_qpn_map ≡ false
      → t.remote_map k ≡ none
      → Inv (with_remote t k p)
  with_remote-Inv k p ne lt unset mark free = record {
    local_ok = λ j q h. ground (arith, i.local_ok j q);
    remote_ok = λ j q h. ground (arith, i.remote_ok j q);
    flagged_ok = λ q h. ground (arith, i.flagged_ok q, flagged-local q);
    listed =
        λ j v h. let (q, f, e, l) = i.listed j v h in (q, ground arith, ground arith, ground arith);
    distinct = λ q r f g e. ground (arith, i.distinct q r);
  }

  pub with_cell-Inv : Inv (with_cell t)
  with_cell-Inv = record {
    local_ok = λ j q h. ground (arith, i.local_ok j q);
    remote_ok = λ j q h. ground (arith, i.remote_ok j q);
    flagged_ok = λ q h. ground (arith, i.flagged_ok q, flagged-lt q);
    listed = λ j v h.
        let (q, f, e, l) = i.listed j v h in
        (
          q,
          ground (arith, flagged-lt q f),
          ground (arith, flagged-lt q f),
          ground (arith, flagged-lt q f),
        );
    distinct = λ q r f g e. ground (arith, i.distinct q r, flagged-lt q, flagged-lt r);
  }
