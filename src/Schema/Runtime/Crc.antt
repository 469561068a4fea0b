-- ===== src/Schema/Runtime/Crc.antt =====
-- The envelope of a stream packet.
use keydrop.Base.{
  ℕ, ◌^◌, ◌<◌, ◌≡◌, ◌≢◌, refl, arith, List, ◌∷◌, ◌++◌, length, All, IsByte, take, ok, some, ◌==◌,
  false,
}
use keydrop.Core.Endian.{Host}
use keydrop.Reliability.Crc.{crc32, crc32_raw}
use keydrop.Reliability.Crc.Detects.{crc32_detects_one_byte}
use keydrop.Schema.Runtime.{done, failed, corruption_detected}
use keydrop.Schema.Runtime.State.{SchemaRuntime}
use keydrop.Schema.Runtime.Streams.{wrap_crc, unwrap_crc, stored_crc, dispatch, receive_stream}

-- What stands in front of the packet in its envelope.
abbrev pub header : List ℕ → List ℕ
header packet = take 5 (wrap_crc packet)

raw-crc32 : (p : List ℕ) → crc32_raw (some p) (length p) ≡ crc32 p
unfolding crc32_raw crc32
raw-crc32 p = refl

-- The four bytes behind the marker are the checksum of the packet that was wrapped.
stored-wrap_crc : (p q : List ℕ) → crc32 p < 2 ^ 32 → stored_crc (header p ++ q) ≡ crc32 p
unfolding wrap_crc
stored-wrap_crc p q h = omega (arith, raw-crc32 p)

unwrap_crc-same : (p : List ℕ) → crc32 p < 2 ^ 32 → unwrap_crc (header p ++ p) ≡ done p
unfolding unwrap_crc wrap_crc
unwrap_crc-same p h = ground (arith, stored-wrap_crc p p h, raw-crc32 p)

unwrap_crc-other :
    (p q : List ℕ)
    → crc32 p < 2 ^ 32
    → crc32 p ≢ crc32 q
    → unwrap_crc (header p ++ q) ≡ failed corruption_detected
unfolding unwrap_crc wrap_crc
unwrap_crc-other p q h ne = ground (arith, stored-wrap_crc p q h, raw-crc32 q, ne)

receive_stream-unwrap :
    (host : Host) (rt : SchemaRuntime) (b : ℕ) (bs packet : List ℕ)
    → unwrap_crc (b ∷ bs) ≡ done packet
    → receive_stream host rt (b ∷ bs) ≡ dispatch host rt packet
unfolding receive_stream
receive_stream-unwrap host rt b bs packet e =
    let some_there : (length (b ∷ bs) == 0) ≡ false = ground arith in
    rw (some_there, e, receive_stream) refl

receive_stream-refused :
    (host : Host) (rt : SchemaRuntime) (b : ℕ) (bs : List ℕ)
    → unwrap_crc (b ∷ bs) ≡ failed corruption_detected
    → receive_stream host rt (b ∷ bs) ≡ (ok (failed corruption_detected), rt)
unfolding receive_stream
receive_stream-refused host rt b bs e =
    let some_there : (length (b ∷ bs) == 0) ≡ false = ground arith in
    rw (some_there, e, receive_stream) refl

-- A packet that was put into the envelope is dispatched as it is without one. If then one byte of
-- it is changed, whichever, the envelope is refused as corrupted, and the runtime stays as it was.
pub receive_stream-wrap_crc :
    (host : Host) (rt : SchemaRuntime) (front back : List ℕ) (a b : ℕ)
    → All IsByte front
    → All IsByte back
    → a < 256
    → b < 256
    → a ≢ b
    → (receive_stream host rt (wrap_crc (front ++ (a ∷ back)))
        ≡ dispatch host rt (front ++ (a ∷ back)))
      × (receive_stream host rt (header (front ++ (a ∷ back)) ++ (front ++ (b ∷ back)))
          ≡ (ok (failed corruption_detected), rt))
unfolding wrap_crc
receive_stream-wrap_crc host rt front back a b hf hk ha hb ne =
    let p = front ++ (a ∷ back) in
    let q = front ++ (b ∷ back) in
    let (small, other) = crc32_detects_one_byte front back a b hf hk ha hb ne in
    (
      receive_stream-unwrap host rt _ _ p (unwrap_crc-same p small),
      receive_stream-refused host rt _ _ (unwrap_crc-other p q small other),
    )
