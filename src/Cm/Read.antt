-- ===== src/Cm/Read.antt =====
-- What the fields that the tracker reads are on the wire: the communication IDs are four bytes and the QP
-- numbers three, in network order.
use libconntrack_cm.Base.{ℕ, ◌+◌, ◌-◌, ◌^◌, ◌%◌, ◌/◌, ◌<◌, ◌≡◌, arith}
use libconntrack_cm.Base.Bits.{bit_and-ones, bit_and-split, bit_and-zero}
use libconntrack_cm.Packet.Memory.{Bytes, IsBytes, be24, be32, swap32-load32}
use libconntrack_cm.Iba.{
  field_get, bf_shf, iba_get, iba_get32, iba_get_word, iba_field32_loc, genmask,
}
use libconntrack_cm.Cm.{cm_field32_loc}
use libconntrack_cm.Cm.Req.{cm_req_local_comm_id, cm_req_local_qpn}
use libconntrack_cm.Cm.Rej.{cm_rej_local_comm_id, cm_rej_remote_comm_id}
use libconntrack_cm.Cm.Rep.{cm_rep_local_comm_id, cm_rep_remote_comm_id, cm_rep_local_qpn}
use libconntrack_cm.Cm.Rtu.{cm_rtu_local_comm_id, cm_rtu_remote_comm_id}
use libconntrack_cm.Cm.Dreq.{cm_dreq_local_comm_id, cm_dreq_remote_comm_id}
use libconntrack_cm.Cm.Drep.{cm_drep_local_comm_id, cm_drep_remote_comm_id}

get-whole : (x : ℕ) → x < 2 ^ 32 → field_get 0xffff_ffff x ≡ x
unfolding field_get bf_shf
get-whole x h = ground (arith, bit_and-ones 32 x)

get-high : (x : ℕ) → x < 2 ^ 32 → field_get 0xffff_ff00 x ≡ x / 2 ^ 8
unfolding field_get bf_shf
get-high x h = ground (
  arith,
  bit_and-split 8 (x / 2 ^ 8) (x % 2 ^ 8) (2 ^ 24 - 1) 0,
  bit_and-ones 24 (x / 2 ^ 8),
  bit_and-zero (x % 2 ^ 8),
)

module _ (m : Bytes) (a : ℕ) (b : IsBytes m) where
  word : (o : ℕ) → iba_get_word 32 m (a + o) ≡ be32 m (a + o)
  unfolding iba_get_word iba_get32
  word o = swap32-load32 m (a + o) b

  word-lt : (o : ℕ) → be32 m (a + o) < 2 ^ 32
  word-lt o = omega (arith, b (a + o), b (a + o + 1), b (a + o + 2), b (a + o + 3))

  whole :
      (o : ℕ)
      → iba_get (record { offset = o; mask = 0xffff_ffff; num_bits = 32 }) m a ≡ be32 m (a + o)
  unfolding iba_get
  whole o = rw (word o, get-whole (be32 m (a + o)) (word-lt o)) (omega (arith, word-lt o))

  high :
      (o : ℕ)
      → iba_get (record { offset = o; mask = 0xffff_ff00; num_bits = 32 }) m a ≡ be24 m (a + o)
  unfolding iba_get
  high o =
      rw (word o, get-high (be32 m (a + o)) (word-lt o))
        (omega (arith, b (a + o), b (a + o + 1), b (a + o + 2), b (a + o + 3)))

-- In a packet of bytes whose MAD begins at `a`, the fields that the tracker reads are these bytes of the
-- message, in network order: the local and the remote communication ID stand at bytes 24 and 28, the QP
-- number of a REQ at byte 56 and that of a REP at byte 36, in three bytes.
pub iba_get-fields :
    (m : Bytes) (a : ℕ)
    → IsBytes m
    → (iba_get cm_req_local_comm_id m a ≡ be32 m (a + 24))
      × (iba_get cm_req_local_qpn m a ≡ be24 m (a + 56))
      × (iba_get cm_rej_local_comm_id m a ≡ be32 m (a + 24))
      × (iba_get cm_rej_remote_comm_id m a ≡ be32 m (a + 28))
      × (iba_get cm_rep_local_comm_id m a ≡ be32 m (a + 24))
      × (iba_get cm_rep_remote_comm_id m a ≡ be32 m (a + 28))
      × (iba_get cm_rep_local_qpn m a ≡ be24 m (a + 36))
      × (iba_get cm_rtu_local_comm_id m a ≡ be32 m (a + 24))
      × (iba_get cm_rtu_remote_comm_id m a ≡ be32 m (a + 28))
      × (iba_get cm_dreq_local_comm_id m a ≡ be32 m (a + 24))
      × (iba_get cm_dreq_remote_comm_id m a ≡ be32 m (a + 28))
      × (iba_get cm_drep_local_comm_id m a ≡ be32 m (a + 24))
      × (iba_get cm_drep_remote_comm_id m a ≡ be32 m (a + 28))
unfolding cm_field32_loc iba_field32_loc genmask
iba_get-fields m a b = (
  whole m a b 24,
  high m a b 56,
  whole m a b 24,
  whole m a b 28,
  whole m a b 24,
  whole m a b 28,
  high m a b 36,
  whole m a b 24,
  whole m a b 28,
  whole m a b 24,
  whole m a b 28,
  whole m a b 24,
  whole m a b 28,
)
