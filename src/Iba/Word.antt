-- ===== src/Iba/Word.antt =====
-- The words of src/iba.h, by their width: what is written is read, and other bytes stay.
use libconntrack_cm.Base.{ℕ, ◌+◌, ◌*◌, ◌/◌, ◌%◌, ◌^◌, ◌<◌, ◌≤◌, ◌⊎◌, inl, ◌≡◌, refl, ◌∙◌, arith}
use libconntrack_cm.Packet.Memory.{Bytes, IsBytes, swap16-lt, swap32-lt, load16, load32, store8}
use libconntrack_cm.Packet.Network.{
  read_be16, read_be32, write_be32, write_be64, read_be16-write_be16, read_be32-write_be32,
  read_be32-write_be32_apart, write_be64-halves, write_be16-outside, write_be32-outside,
  write_be64-outside, write_be16-IsBytes, write_be32-IsBytes,
}
use libconntrack_cm.Iba.{iba_get8, iba_get16, iba_get32, iba_get64, iba_get_word}
use libconntrack_cm.Iba.Set.{replaced, iba_set8, iba_set16, iba_set32, iba_set64, iba_set_word}
use libconntrack_cm.Iba.Run.{IsWidth, byte, half, single, double}

-- Each reader is a read in network order.
pub iba_get16-read : (m : Bytes) (a : ℕ) → iba_get16 m a ≡ read_be16 m a
unfolding iba_get16 read_be16
iba_get16-read m a = refl

pub iba_get32-read : (m : Bytes) (a : ℕ) → iba_get32 m a ≡ read_be32 m a
unfolding iba_get32 read_be32
iba_get32-read m a = refl

pub iba_get64-read :
    (m : Bytes) (a : ℕ) → iba_get64 m a ≡ read_be32 m a * 2 ^ 32 + read_be32 m (a + 4)
unfolding iba_get64 read_be32
iba_get64-read m a = refl

read_be16-lt : (m : Bytes) (a : ℕ) → read_be16 m a < 2 ^ 16
unfolding read_be16
read_be16-lt m a = swap16-lt (load16 m a)

read_be32-lt : (m : Bytes) (a : ℕ) → read_be32 m a < 2 ^ 32
unfolding read_be32
read_be32-lt m a = swap32-lt (load32 m a)

pub iba_get_word-lt :
    (w : ℕ) (m : Bytes) (a : ℕ) → IsWidth w → IsBytes m → iba_get_word w m a < 2 ^ w
unfolding iba_get_word iba_get8
iba_get_word-lt w m a byte b = b a
iba_get_word-lt w m a half b = rw (iba_get16-read m a) (read_be16-lt m a)
iba_get_word-lt w m a single b = rw (iba_get32-read m a) (read_be32-lt m a)
iba_get_word-lt w m a double b =
    omega (arith, iba_get64-read m a, read_be32-lt m a, read_be32-lt m (a + 4))

iba_get64-write_be64 : (m : Bytes) (a v : ℕ) → iba_get64 (write_be64 m a v) a ≡ v % 2 ^ 64
iba_get64-write_be64 m a v =
    let first = write_be32 m a (v / 2 ^ 32) in
    rw
      (
        iba_get64-read (write_be64 m a v) a,
        write_be64-halves m a v,
        read_be32-write_be32 first (a + 4) v,
        read_be32-write_be32_apart first a (a + 4) v (inl (omega arith)),
        read_be32-write_be32 m a (v / 2 ^ 32),
      )
      (omega arith)

-- A word that is written is read, cut to its width.
pub set_word-cut :
    (w : ℕ) (m : Bytes) (a mask v : ℕ)
    → IsWidth w
    → iba_get_word w (iba_set_word w m a mask v) a ≡ replaced w (iba_get_word w m a) mask v % 2 ^ w
unfolding iba_get_word iba_set_word iba_get8 iba_set8 iba_set16 iba_set32 iba_set64 store8
set_word-cut w m a mask v byte = ground arith
set_word-cut w m a mask v half =
    iba_get16-read (iba_set16 m a mask v) a ∙ read_be16-write_be16 m a _
set_word-cut w m a mask v single =
    iba_get32-read (iba_set32 m a mask v) a ∙ read_be32-write_be32 m a _
set_word-cut w m a mask v double = iba_get64-write_be64 m a _

pub iba_set_word-outside :
    (w : ℕ) (m : Bytes) (a mask v i : ℕ)
    → IsWidth w
    → i < a ⊎ a + w / 8 ≤ i
    → iba_set_word w m a mask v i ≡ m i
unfolding iba_set_word iba_set8 iba_set16 iba_set32 iba_set64 store8
iba_set_word-outside w m a mask v i byte h = ground arith
iba_set_word-outside w m a mask v i half h = write_be16-outside m a _ i (ground arith)
iba_set_word-outside w m a mask v i single h = write_be32-outside m a _ i (ground arith)
iba_set_word-outside w m a mask v i double h = write_be64-outside m a _ i (ground arith)

pub set_word-IsBytes :
    (w : ℕ) (m : Bytes) (a mask v : ℕ) → IsWidth w → IsBytes m → IsBytes (iba_set_word w m a mask v)
unfolding iba_set_word iba_set8 iba_set16 iba_set32 iba_set64 store8
set_word-IsBytes w m a mask v byte b = λ i. ground (arith, b i)
set_word-IsBytes w m a mask v half b = write_be16-IsBytes m a _ b
set_word-IsBytes w m a mask v single b = write_be32-IsBytes m a _ b
set_word-IsBytes w m a mask v double b =
    rw (write_be64-halves m a _)
      (write_be32-IsBytes (write_be32 m a _) (a + 4) _ (write_be32-IsBytes m a _ b))
