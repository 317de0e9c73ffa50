-- ===== src/Connection/ReadLoop/Draining.antt =====
-- The inner loop over decoded frames ends, and leaves no complete frame behind.
use waepic.Prelude.{ℕ, zero, suc, ◌≤◌, ◌<◌, none, some, ◌≡◌, arith, Option-cases, inl, inr}
use waepic.Connection.Ports.{Bytes, Crypto, Transport, Wire, Decoder}
use waepic.Connection.State.{Live}
use waepic.Connection.ReadLoop.{drain, receive, process_one}

-- A decoded frame leaves the decoder, and none is decoded only where no complete one is buffered.
pub record IsCounting {D : Type 0} (dec : Decoder D) : Type 0 where
  pub takes :
      (d d' : D) (f : Bytes) → dec.decode_frame d ≡ some (f, d') → dec.buffered d' < dec.buffered d
  pub empty : (d : D) → dec.buffered d ≡ 0 → dec.decode_frame d ≡ none

module _ {C T N K D : Type 0} (crypto : Crypto C) (net : Transport T) (w : Wire N K)
    (dec : Decoder D) (law : IsCounting dec) where
  drain-empties :
      (fuel : ℕ) (d : D) (s : Live C T N)
      → dec.buffered d ≤ fuel
      → dec.decode_frame (drain crypto net w dec fuel (d, s)).0 ≡ none
  unfolding drain
  drain-empties zero d s h = law.empty d (omega arith)
  drain-empties (suc fuel) d s h = elim (Option-cases (dec.decode_frame d)) [
    | inl e ↦ rw (e, drain) e
    | inr ((f, d'), e) ↦
        rw (e, drain)
          (drain-empties fuel d' (process_one crypto net w dec f s)
            (omega (arith, law.takes d d' f e)))
  ]

  pub receive-empties :
      (bytes : Bytes) (d : D) (s : Live C T N)
      → dec.decode_frame (receive crypto net w dec bytes (d, s)).0 ≡ none
  unfolding receive
  receive-empties bytes d s =
      drain-empties (dec.buffered (dec.feed d bytes)) (dec.feed d bytes) s le_self
    where
      le_self : dec.buffered (dec.feed d bytes) ≤ dec.buffered (dec.feed d bytes)
      le_self = omega arith
