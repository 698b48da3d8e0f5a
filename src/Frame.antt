-- ===== src/Frame.antt =====
-- frame.go: length-prefixed frames on a byte stream.
-- An `io.Writer` is a function that takes one `Write` and returns the new writer and an error, if
-- any. An `io.Reader` is the list of the bytes that are still to come before the end of the stream.
pub mod RoundTrip
pub mod Truncated
pub mod Sound
use Prim.Native.String.{◌++◌ as append}
use godotnet.Base.{
  ℕ, ◌+◌, ◌*◌, ◌^◌, ◌/◌, ◌%◌, Option, none, some, String, ◌∷◌, [], ◌++◌, Bytes, length, take, drop,
  ltb, leb, ◌==◌, ◌&&◌, not, if◌then◌else◌,
}
use godotnet.Errors.{
  Error, sentinel, prefixed, suffixed, eof, unexpected_eof, frame_too_large, decimal,
}

abbrev pub frame_header_size : ℕ
frame_header_size = 4

-- binary.BigEndian.PutUint32 of uint32(n): the length is cut to 32 bits.
unfoldable pub put_uint32 : ℕ → Bytes
put_uint32 n = let v = n % 2 ^ 32 in v / 2 ^ 24 ∷ v / 2 ^ 16 % 256 ∷ v / 2 ^ 8 % 256 ∷ v % 256 ∷ []

-- binary.BigEndian.Uint32
unfoldable pub uint32 : Bytes → ℕ
uint32 (a ∷ b ∷ c ∷ d ∷ rest) = a * 2 ^ 24 + b * 2 ^ 16 + c * 2 ^ 8 + d
uint32 _ = 0

-- `fmt.Errorf("p%w", err)` on the error of a call, if it has one.
abbrev pub annotate {ℓ} : {W : Type ℓ} → String → W × Option Error → W × Option Error
annotate p (w, none) = (w, none)
annotate p (w, some err) = (w, some (prefixed p err))

module _ {W : Type 0} (write : W → Bytes → W × Option Error) where
  -- The part after the header, which is left out if the header failed.
  write_rest : W × Option Error → Bytes → W × Option Error
  write_rest (w, some err) payload = (w, some (prefixed "godotnet: write frame header: " err))
  write_rest (w, none) payload =
      if length payload == 0
      then (w, none)
      else annotate "godotnet: write frame payload: " (write w payload)

  unfoldable pub write_frame : W → Bytes → W × Option Error
  unfolding write_rest
  write_frame w payload = write_rest (write w (put_uint32 (length payload))) payload

-- What a read returns: bytes and the rest of the stream, or an error and what is left then.
pub data Read : Type 0 where
  got : Bytes → Bytes → Read
  failed : Error → Bytes → Read

-- io.ReadFull into a buffer of n bytes: `io.EOF` if the stream gives no byte at all,
-- `io.ErrUnexpectedEOF` if it ends before the buffer is full.
unfoldable pub read_full : ℕ → Bytes → Read
read_full n stream =
    if leb n (length stream)
    then got (take n stream) (drop n stream)
    else if length stream == 0
    then failed (sentinel eof) []
    else failed (sentinel unexpected_eof) []

pub too_large : ℕ → ℕ → Error
too_large n max_len =
    suffixed (sentinel frame_too_large)
      (append ": " (append (decimal n) (append " > " (decimal max_len))))

read_payload : ℕ → Bytes → Read
read_payload n stream = elim (read_full n stream) [
  | got payload rest ↦ got payload rest
  | failed err rest ↦ failed (prefixed "godotnet: read frame payload: " err) rest
]

pub read_body : ℕ → ℕ → Bytes → Read
unfolding read_payload too_large
read_body n max_len stream =
    if not (max_len == 0) && ltb max_len n
    then failed (too_large n max_len) stream
    else if n == 0
    then got [] stream
    else read_payload n stream

unfoldable pub read_frame : Bytes → ℕ → Read
unfolding read_body
read_frame stream max_len = elim (read_full frame_header_size stream) [
  | failed err rest ↦ failed (prefixed "godotnet: read frame header: " err) rest
  | got hdr rest ↦ read_body (uint32 hdr) max_len rest
]

-- bytes.Buffer as a writer: it keeps what is written, and never fails.
unfoldable pub buffer_write : Bytes → Bytes → Bytes × Option Error
buffer_write buf p = (buf ++ p, none)
