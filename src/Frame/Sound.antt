-- ===== src/Frame/Sound.antt =====
-- frame.go: what a successful read says of the stream.
use godotnet.Base.{
  ℕ, ◌≤◌, ◌<◌, ◌≡◌, refl, ap, ◌∙◌, sym, ◌⊎◌, [], ◌∷◌, ◌++◌, length, length-take, length-append,
  take-append-drop, arith, Bytes, AreBytes,
}
use godotnet.Errors.{prefixed}
use godotnet.Frame.{
  put_uint32, uint32, Read, got, failed, read_full, read_frame, read_body, frame_header_size,
}
use godotnet.Frame.RoundTrip.{frame_bytes, read_full-append}

put_uint32-uint32 :
    (a b c d : ℕ)
    → a < 256
    → b < 256
    → c < 256
    → d < 256
    → put_uint32 (uint32 (a ∷ b ∷ c ∷ d ∷ [])) ≡ a ∷ b ∷ c ∷ d ∷ []
unfolding put_uint32 uint32
put_uint32-uint32 a b c d ha hb hc hd = ground arith

read_full-got :
    (n : ℕ) (stream xs rest : Bytes)
    → read_full n stream ≡ got xs rest
    → (stream ≡ xs ++ rest) × (length xs ≡ n)
unfolding read_full
read_full-got n stream xs rest h = ground (arith, take-append-drop n stream, length-take n stream)

read_body-got :
    (n max_len : ℕ) (stream xs rest : Bytes)
    → read_body n max_len stream ≡ got xs rest
    → (stream ≡ xs ++ rest) × (length xs ≡ n) × ((max_len ≡ 0) ⊎ (n ≤ max_len))
unfolding read_body
read_body-got n max_len stream xs rest h = ground (arith, read_full-got n stream xs rest)

-- A frame that is read leaves less of the stream.
pub read_frame-shrinks :
    (stream payload rest : Bytes) (max_len : ℕ)
    → read_frame stream max_len ≡ got payload rest
    → length rest < length stream
unfolding read_frame
read_frame-shrinks stream p rest m h = header (read_full frame_header_size stream) refl h
  where
    header :
        (x : Read)
        → read_full frame_header_size stream ≡ x
        → elim x [
          | failed err left ↦ failed (prefixed "godotnet: read frame header: " err) left
          | got hdr left ↦ read_body (uint32 hdr) m left
        ]
          ≡ got p rest
        → length rest < length stream
    header (failed err left) e h' = cc
    header (got hdr left) e h' =
        let (whole, four) = read_full-got frame_header_size stream hdr left e in
        let (tail, size, cap) = read_body-got (uint32 hdr) m left p rest h' in
        omega (
          arith,
          length-append {0} hdr left,
          length-append {0} p rest,
          ap (λ (t : Bytes). length t) whole,
          ap (λ (t : Bytes). length t) tail,
        )

four_bytes :
    (w x y z : ℕ) (stream payload rest : Bytes) (max_len : ℕ)
    → AreBytes (w ∷ x ∷ y ∷ z ∷ stream)
    → read_frame (w ∷ x ∷ y ∷ z ∷ stream) max_len ≡ got payload rest
    → (w ∷ x ∷ y ∷ z ∷ stream ≡ frame_bytes payload ++ rest)
      × ((max_len ≡ 0) ⊎ (length payload ≤ max_len))
unfolding read_frame
four_bytes w x y z stream p rest m b h =
    let body : read_body (uint32 (w ∷ x ∷ y ∷ z ∷ [])) m stream ≡ got p rest =
      rw (read_full-append (w ∷ x ∷ y ∷ z ∷ []) stream, read_frame) at h in
    let (tail, size, cap) = read_body-got _ m stream p rest body in
    let header : put_uint32 (length p) ≡ w ∷ x ∷ y ∷ z ∷ [] =
      ap put_uint32 size ∙ put_uint32-uint32 w x y z b.0 b.1.0 b.1.1.0 b.1.1.1.0 in
    (
      ap (λ (t : Bytes). w ∷ x ∷ y ∷ z ∷ t) tail
          ∙ sym (ap (λ (t : Bytes). (t ++ p) ++ rest) header),
      ground arith,
    )

-- Bytes that are read as a payload are a frame: the stream began with the payload's length in four
-- bytes and the payload, within the cap, and what is left is what followed.
pub read_frame-got :
    (stream payload rest : Bytes) (max_len : ℕ)
    → AreBytes stream
    → read_frame stream max_len ≡ got payload rest
    → (stream ≡ frame_bytes payload ++ rest) × ((max_len ≡ 0) ⊎ (length payload ≤ max_len))
unfolding read_frame read_full
read_frame-got [] p rest m b h = cc
read_frame-got (w ∷ []) p rest m b h = cc
read_frame-got (w ∷ x ∷ []) p rest m b h = cc
read_frame-got (w ∷ x ∷ y ∷ []) p rest m b h = cc
read_frame-got (w ∷ x ∷ y ∷ z ∷ stream) p rest m b h = four_bytes w x y z stream p rest m b h
