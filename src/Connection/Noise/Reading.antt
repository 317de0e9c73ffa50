-- ===== src/Connection/Noise/Reading.antt =====
-- The counters under which received frames are opened.
use waepic.Prelude.{
  ℕ, zero, suc, ◌+◌, ◌≤◌, ◌≡◌, arith, List, [], ◌∷◌, nat_eq, ltb, if◌then◌else◌, get_elem?, some,
  ◌∙◌, ap,
}
use waepic.Prelude.Outcome.{Result, err}
use waepic.Connection.Error.{ConnectionError, decrypt}
use waepic.Connection.Ports.{Bytes, Crypto}
use waepic.Connection.Noise.{NoiseSocket, u32_max, decrypt_with, decrypt_frame}

module _ {C : Type 0} (crypto : Crypto C) where
  -- What the frames of one connection open to, one after the other, whether they open or not.
  pub decrypt_all : List Bytes → NoiseSocket C → List (Result ConnectionError Bytes)
  decrypt_all [] s = []
  decrypt_all (f ∷ fs) s =
      (decrypt_frame crypto f s).0 ∷ decrypt_all fs (decrypt_frame crypto f s).1

  -- The outcome of a frame that arrives as number `n` since the counter was 0.
  abbrev pub numbered : C → ℕ → Bytes → Result ConnectionError Bytes
  numbered cipher n f =
      if ltb n u32_max
      then decrypt_with crypto cipher n f
      else err (decrypt "read counter exhausted")

  -- One frame consumes one counter, also where it does not open; the last counter is never used.
  decrypt_frame_lem :
      (f : Bytes) (s : NoiseSocket C)
      → s.read_counter ≤ u32_max
      → (decrypt_frame crypto f s).0 ≡ numbered s.read_cipher s.read_counter f
  unfolding decrypt_frame
  decrypt_frame_lem f s h = ground arith

  later :
      (i : ℕ) (f g : Bytes) (s : NoiseSocket C)
      → s.read_counter ≤ u32_max
      → numbered
          (decrypt_frame crypto g s).1.read_cipher
          ((decrypt_frame crypto g s).1.read_counter + i)
          f
        ≡ numbered s.read_cipher (s.read_counter + suc i) f
  unfolding decrypt_frame
  later i f g s h = ground arith

  decrypt_frame-bounded :
      (f : Bytes) (s : NoiseSocket C)
      → s.read_counter ≤ u32_max
      → (decrypt_frame crypto f s).1.read_counter ≤ u32_max
  unfolding decrypt_frame
  decrypt_frame-bounded f s h = ground arith

  -- On a socket whose counter is in range, the frame at place `i` of any sequence of received frames is opened under the counter's start plus `i`, whatever became of the frames before it, and from number 2^32 - 1 on every frame is refused.
  pub decrypt_all_at :
      (fs : List Bytes) (i : ℕ) (f : Bytes) (s : NoiseSocket C)
      → s.read_counter ≤ u32_max
      → get_elem? fs i ≡ some f
      → get_elem? (decrypt_all fs s) i ≡ some (numbered s.read_cipher (s.read_counter + i) f)
  unfolding decrypt_all
  decrypt_all_at [] i f s h e = ground arith
  decrypt_all_at (g ∷ fs) zero f s h e = ground (arith, decrypt_frame_lem g s)
  decrypt_all_at (g ∷ fs) (suc i) f s h e =
      decrypt_all_at fs i f (decrypt_frame crypto g s).1 (decrypt_frame-bounded g s h) e
      ∙ ap some (later i f g s h)
