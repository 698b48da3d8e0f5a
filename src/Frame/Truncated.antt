-- ===== src/Frame/Truncated.antt =====
-- frame.go: streams that end too early, and frames over the cap.
use godotnet.Base.{
  ℕ, zero, suc, ◌+◌, ◌^◌, ◌≤◌, ◌<◌, ◌≡◌, ◌≢◌, refl, ◌∙◌, subst, ◌⊎◌, Bool, true, ◌||◌, not, [], ◌∷◌,
  ◌++◌, length, take, length-take, length-append, arith, Bytes, ◌==◌,
}
use godotnet.Errors.{Error, prefixed, is, eof, unexpected_eof, frame_too_large, sentinel}
use godotnet.Frame.{put_uint32, Read, failed, read_full, read_frame, read_body, too_large}
use godotnet.Frame.RoundTrip.{frame_bytes, read_frame-header}

-- The error of a read that found no byte at all is `io.EOF`, else `io.ErrUnexpectedEOF`.
abbrev pub EndsWith : Bool → Read → Type 0
EndsWith clean r =
    (e : Error) × (r ≡ failed e []) × (is e eof ≡ clean) × (is e unexpected_eof ≡ not clean)

short_header :
    (xs : Bytes) (max_len : ℕ) → length xs < 4 → EndsWith (length xs == 0) (read_frame xs max_len)
unfolding read_frame read_full is
short_header [] max_len h = (_, refl, refl, refl)
short_header (x ∷ xs) max_len h = (
  prefixed "godotnet: read frame header: " (sentinel unexpected_eof),
  ground arith,
  ground arith,
  ground arith,
)

short_payload :
    (n max_len : ℕ) (xs : Bytes)
    → (max_len ≡ 0) ⊎ (n ≤ max_len)
    → length xs < n
    → EndsWith (length xs == 0) (read_body n max_len xs)
unfolding read_body read_full is
short_payload zero max_len xs cap h = elim h [ ]
short_payload (suc n) max_len [] cap h =
    (prefixed "godotnet: read frame payload: " (sentinel eof), ground arith, refl, refl)
short_payload (suc n) max_len (x ∷ xs) cap h = (
  prefixed "godotnet: read frame payload: " (sentinel unexpected_eof),
  ground arith,
  ground arith,
  ground arith,
)

cut_header :
    (k max_len : ℕ) (payload : Bytes)
    → k < 4
    → EndsWith (k == 0) (read_frame (take k (frame_bytes payload)) max_len)
unfolding put_uint32
cut_header k max_len payload h =
    let whole : length (take k (frame_bytes payload)) ≡ k =
      length-take k (frame_bytes payload)
        (omega (arith, length-append {0} (put_uint32 (length payload)) payload)) in
    subst (λ n. EndsWith (n == 0) (read_frame (take k (frame_bytes payload)) max_len)) whole
      (short_header (take k (frame_bytes payload)) max_len (omega arith))

cut_payload :
    (j max_len : ℕ) (payload : Bytes)
    → length payload < 2 ^ 32
    → (max_len ≡ 0) ⊎ (length payload ≤ max_len)
    → j < length payload
    → EndsWith (j == 0) (read_frame (put_uint32 (length payload) ++ take j payload) max_len)
cut_payload j max_len payload fits cap h =
    let whole : length (take j payload) ≡ j = length-take j payload (omega arith) in
    rw (read_frame-header (length payload) max_len (take j payload) fits) (
      subst (λ n. EndsWith (n == 0) (read_body (length payload) max_len (take j payload))) whole
        (short_payload (length payload) max_len (take j payload) cap (omega arith)))

shift : (j : ℕ) → (j == 0) ≡ (suc (suc (suc (suc j))) == 0 || suc (suc (suc (suc j))) == 4)
shift j = ground arith

-- A frame that is cut after k of its bytes is never delivered. The error wraps `io.EOF` exactly if
-- the cut is at the very start or right after the header, and `io.ErrUnexpectedEOF` otherwise.
pub read-take :
    (k max_len : ℕ) (payload : Bytes)
    → length payload < 2 ^ 32
    → (max_len ≡ 0) ⊎ (length payload ≤ max_len)
    → k < 4 + length payload
    → EndsWith (k == 0 || k == 4) (read_frame (take k (frame_bytes payload)) max_len)
unfolding put_uint32
read-take zero m p fits cap h = cut_header 0 m p (omega arith)
read-take (suc zero) m p fits cap h = cut_header 1 m p (omega arith)
read-take (suc (suc zero)) m p fits cap h = cut_header 2 m p (omega arith)
read-take (suc (suc (suc zero))) m p fits cap h = cut_header 3 m p (omega arith)
read-take (suc (suc (suc (suc j)))) m p fits cap h =
    subst (λ b. EndsWith b (read_frame (put_uint32 (length p) ++ take j p) m)) (shift j)
      (cut_payload j m p fits cap (omega arith))

-- A header that declares more than the cap is refused before any byte of the payload is read.
pub read-oversized :
    (n max_len : ℕ) (rest : Bytes)
    → n < 2 ^ 32
    → max_len ≢ 0
    → max_len < n
    → (e : Error) × (read_frame (put_uint32 n ++ rest) max_len ≡ failed e rest)
      × (is e frame_too_large ≡ true)
unfolding read_body too_large is
read-oversized n max_len rest fits cap h =
    (too_large n max_len, read_frame-header n max_len rest fits ∙ ground arith, refl)
