-- ===== src/Frame/RoundTrip.antt =====
-- frame.go: what is written, and read again.
use godotnet.Base.{
  ℕ, ◌^◌, ◌≤◌, ◌<◌, ◌≡◌, refl, ap, ◌∙◌, ◌⊎◌, none, [], ◌∷◌, ◌++◌, length, take-append, drop-append,
  length-append, arith, Bytes,
}
use mathlib.Core.List.{append_assoc}
use godotnet.Frame.{
  put_uint32, uint32, write_frame, buffer_write, got, read_full, read_frame, read_body,
  frame_header_size,
}

-- The bytes of one frame.
abbrev pub frame_bytes : Bytes → Bytes
frame_bytes payload = put_uint32 (length payload) ++ payload

pub write_frame-buffer :
    (buf payload : Bytes)
    → write_frame buffer_write buf payload ≡ (buf ++ frame_bytes payload, none)
unfolding write_frame buffer_write put_uint32
write_frame-buffer buf [] = refl
write_frame-buffer buf (x ∷ xs) =
    ground (arith, append_assoc buf (put_uint32 (length (x ∷ xs))) (x ∷ xs))

pub uint32-put_uint32 : (n : ℕ) → n < 2 ^ 32 → uint32 (put_uint32 n) ≡ n
unfolding uint32 put_uint32
uint32-put_uint32 n h = omega arith

pub read_full-append : (xs ys : Bytes) → read_full (length xs) (xs ++ ys) ≡ got xs ys
unfolding read_full
read_full-append xs ys =
    ground (arith, length-append {0} xs ys, take-append xs ys, drop-append xs ys)

pub read_full-header :
    (n : ℕ) (rest : Bytes)
    → read_full frame_header_size (put_uint32 n ++ rest) ≡ got (put_uint32 n) rest
unfolding put_uint32
read_full-header n rest = read_full-append (put_uint32 n) rest

-- After a header, the length that it holds decides.
pub read_frame-header :
    (n max_len : ℕ) (rest : Bytes)
    → n < 2 ^ 32
    → read_frame (put_uint32 n ++ rest) max_len ≡ read_body n max_len rest
unfolding read_frame
read_frame-header n max_len rest h =
    rw (read_full-header n rest, read_frame)
      (ap (λ k. read_body k max_len rest) (uint32-put_uint32 n h))

read_body-fits :
    (payload rest : Bytes) (max_len : ℕ)
    → (max_len ≡ 0) ⊎ (length payload ≤ max_len)
    → read_body (length payload) max_len (payload ++ rest) ≡ got payload rest
unfolding read_body
read_body-fits [] rest max_len cap = ground arith
read_body-fits (x ∷ xs) rest max_len cap = ground (arith, read_full-append (x ∷ xs) rest)

-- A frame that was written to a buffer is read back.
pub read_frame-write_frame :
    (payload rest : Bytes) (max_len : ℕ)
    → length payload < 2 ^ 32
    → (max_len ≡ 0) ⊎ (length payload ≤ max_len)
    → read_frame (frame_bytes payload ++ rest) max_len ≡ got payload rest
read_frame-write_frame payload rest max_len h cap =
    rw (append_assoc (put_uint32 (length payload)) payload rest) (
      read_frame-header (length payload) max_len (payload ++ rest) h
      ∙ read_body-fits payload rest max_len cap)

-- A frame of less than 2^32 bytes within the reader's cap, written to an empty buffer, is read back
-- whole, whatever follows it on the stream; the rest of the stream is left for the next read.
pub read-write :
    (payload rest : Bytes) (max_len : ℕ)
    → length payload < 2 ^ 32
    → (max_len ≡ 0) ⊎ (length payload ≤ max_len)
    → read_frame ((write_frame buffer_write [] payload).0 ++ rest) max_len ≡ got payload rest
read-write payload rest max_len h cap =
    rw (write_frame-buffer [] payload) (read_frame-write_frame payload rest max_len h cap)
