-- ===== src/Crypto/Stream.antt =====
-- The `io.Reader` and `io.Writer` that the streaming code of internal/crypto/crypto.go works on, and
-- big-endian lengths.
use backwyn.Prelude.{
  ℕ, ◌+◌, ◌-◌, ◌*◌, ◌/◌, ◌%◌, ◌^◌, ◌<◌, ◌≡◌, Option, none, some, [], ◌∷◌, ◌++◌, Result, ok, err,
  length, take, drop, leb, arith, if◌then◌else◌,
}
use backwyn.Prelude.Text.{Text, lit, text_eq}
use backwyn.Storage.{Reader}

-- How `io.ReadFull` ends.
pub data ReadEnd : Type 0 where
  full : ReadEnd
  eof : ReadEnd
  unexpected_eof : ReadEnd
  failed : Text → ReadEnd

-- The text of `io.ErrUnexpectedEOF`; an error with this text is that one.
abbrev pub unexpected_text : Text
unexpected_text = lit "unexpected EOF"

-- How a short read ends: `io.ReadFull` hands on an error of the reader as it is, also where that is
-- `io.ErrUnexpectedEOF` itself.
abbrev pub short_end : Text → Option Text → ReadEnd
short_end got (some e) = if text_eq e unexpected_text then unexpected_eof else failed e
short_end [] none = eof
short_end (c ∷ got) none = unexpected_eof

-- `io.ReadFull(r, buf)` for a buffer of `n` bytes: what was read, how it ended, and what is left.
unfoldable pub read_full : ℕ → Reader → Text × ReadEnd × Reader
read_full n r =
    if leb n (length r.bytes)
    then (take n r.bytes, full, record r { bytes = drop n r.bytes })
    else (r.bytes, short_end r.bytes r.fault, record r { bytes = [] })

-- A writer: what it has taken, and how much more it takes, `none` if there is no end to that.
pub record Sink : Type 0 where
  pub written : Text
  pub room : Option ℕ

-- `w.Write(p)`; a writer that is full takes what fits and reports an error.
unfoldable pub write : Text → Sink → Result Text (Unit {0}) × Sink
write p s = elim s.room [
  | none ↦ (ok tt, record s { written = s.written ++ p })
  | some n ↦
      if leb (length p) n
      then (ok tt, record { written = s.written ++ p; room = some (n - length p) })
      else (err (lit "short write"), record { written = s.written ++ take n p; room = some 0 })
]

-- `binary.BigEndian.PutUint32` of `uint32(n)`, and `Uint32`.
unfoldable pub put_uint32 : ℕ → Text
put_uint32 n = (n / 16_777_216 % 256) ∷ (n / 65_536 % 256) ∷ (n / 256 % 256) ∷ (n % 256) ∷ []

unfoldable pub uint32 : Text → ℕ
uint32 (a ∷ b ∷ c ∷ d ∷ []) = ((a * 256 + b) * 256 + c) * 256 + d
uint32 _ = 0

pub uint32-put_uint32 : (n : ℕ) → n < 2 ^ 32 → uint32 (put_uint32 n) ≡ n
unfolding uint32 put_uint32
uint32-put_uint32 n h = omega arith

-- A writer that takes everything, and has taken `w`.
abbrev pub endless : Text → Sink
endless w = record { written = w; room = none }
