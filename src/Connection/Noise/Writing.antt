-- ===== src/Connection/Noise/Writing.antt =====
-- The counters under which frames are sealed and sent.
use mathlib.Core.List.{append_assoc, append-nil}
use waepic.Prelude.{
  ℕ, ◌+◌, ◌%◌, ◌^◌, ◌≤◌, ◌<◌, ◌≡◌, refl, arith, List, [], ◌∷◌, ◌++◌, ◌==◌, nat_eq, Bool, true,
  false, Bool-cases, inl, inr, String, if◌then◌else◌, length, length-append,
}
use waepic.Prelude.Outcome.{Result, ok, err, Result-cases}
use waepic.Connection.Error.{ConnectionError}
use waepic.Connection.Ports.{Bytes, Crypto, Transport}
use waepic.Connection.Noise.{Link, u32_max, sealed, encrypt_and_frame, encrypt_and_send}

-- A transport whose deliveries can be read off its state: a send that succeeds delivers its frame,
-- and one that fails delivers nothing.
pub record Journal {T : Type 0} (net : Transport T) : Type 0 where
  pub delivered : T → List Bytes
  pub send_ok :
      (f : Bytes) (t : T)
      → (net.send f t).0 ≡ ok tt
      → delivered (net.send f t).1 ≡ delivered t ++ f ∷ []
  pub send_err :
      (f : Bytes) (t : T) (e : String)
      → (net.send f t).0 ≡ err e
      → delivered (net.send f t).1 ≡ delivered t

-- The frames are the payloads, sealed under the counters from `n` on, each used once.
abbrev pub Numbered : {C : Type 0} → Crypto C → C → ℕ → List Bytes → List Bytes → Type 0
Numbered crypto c n [] [] = Unit
Numbered crypto c n (p ∷ ps) (f ∷ fs) =
    (encrypt_and_frame crypto c n p ≡ ok f) × Numbered crypto c (n + 1) ps fs
Numbered crypto c n _ _ = ⊥

module _ {C : Type 0} (crypto : Crypto C) (c : C) where
  Numbered-snoc :
      (n m : ℕ) (ps fs : List Bytes) (p f : Bytes)
      → Numbered crypto c n ps fs
      → m ≡ n + length ps
      → encrypt_and_frame crypto c m p ≡ ok f
      → Numbered crypto c n (ps ++ p ∷ []) (fs ++ f ∷ [])
  Numbered-snoc n m [] [] p f h e s = let e' : m ≡ n = omega arith in (rw e' at s, tt)
  Numbered-snoc n m [] (g ∷ fs) p f h e s = absurd h
  Numbered-snoc n m (q ∷ ps) [] p f h e s = absurd h
  Numbered-snoc n m (q ∷ ps) (g ∷ fs) p f h e s =
      (h.0, Numbered-snoc (n + 1) m ps fs p f h.1 (omega arith) s)

abbrev pub is_ok : {A : Type 0} → Result ConnectionError A → Bool
is_ok (ok a) = true
is_ok (err e) = false

module _ {C T : Type 0} (crypto : Crypto C) (net : Transport T) where
  -- Sends payload after payload; a failure ends only its own send.
  unfoldable pub send_each : List Bytes → Link C T → Link C T
  send_each [] l = l
  send_each (p ∷ ps) l = send_each ps (encrypt_and_send crypto net p l).1

  -- The payloads whose send returned `Ok`.
  unfoldable pub accepted : List Bytes → Link C T → List Bytes
  accepted [] l = []
  accepted (p ∷ ps) l =
      let rest = accepted ps (encrypt_and_send crypto net p l).1 in
      if is_ok (encrypt_and_send crypto net p l).0 then p ∷ rest else rest

module _ {C T : Type 0} (crypto : Crypto C) (net : Transport T) (log : Journal net) where
  -- What the peer has been sent is `ps`, sealed in order from counter 0.
  pub record InOrder (l : Link C T) (ps : List Bytes) : Type 0 where
    pub counted : l.noise_socket.write_counter ≡ length ps
    pub bounded : l.noise_socket.write_counter ≤ u32_max
    pub numbered : Numbered crypto l.noise_socket.write_cipher 0 ps (log.delivered l.transport)

  next_counter : (n : ℕ) → n ≤ u32_max → (n == u32_max) ≡ false → (n + 1) % 2 ^ 32 ≡ n + 1
  next_counter n h more = ground arith

  -- A frame that left extends what was delivered by one, under the next counter.
  step_sent :
      (p f : Bytes) (l : Link C T) (ps : List Bytes)
      → InOrder l ps
      → (l.noise_socket.write_counter == u32_max) ≡ false
      → sealed crypto net p l ≡ ok f
      → (net.send f l.transport).0 ≡ ok tt
      → InOrder
          (record {
            noise_socket = record (l.noise_socket) {
              write_counter = (l.noise_socket.write_counter + 1) % 2 ^ 32;
            };
            transport = (net.send f l.transport).1;
          })
          (ps ++ p ∷ [])
  step_sent p f l ps h more s sent = record {
    counted = omega (arith, next_counter _ h.bounded more, length-append ps (p ∷ []), h.counted);
    bounded = ground (arith, h.bounded);
    numbered =
        rw (log.send_ok f l.transport sent)
          (Numbered-snoc crypto _ 0 _ ps _ p f h.numbered (omega (arith, h.counted)) s);
  }

  step :
      (p : Bytes) (l : Link C T) (ps : List Bytes)
      → InOrder l ps
      → InOrder
          (encrypt_and_send crypto net p l).1
          (if is_ok (encrypt_and_send crypto net p l).0 then ps ++ p ∷ [] else ps)
  unfolding encrypt_and_send
  step p l ps h = elim (Bool-cases (l.noise_socket.write_counter == u32_max)) [
    | inl last ↦ rw last h
    | inr more ↦ rw more (elim (Result-cases (sealed crypto net p l)) [
      | inr (e, failed) ↦ rw failed h
      | inl (f, s) ↦ rw s (elim (Result-cases (net.send f l.transport).0) [
        | inr (e, lost) ↦ rw lost (record {
          counted = h.counted;
          bounded = h.bounded;
          numbered = rw (log.send_err f l.transport e lost) h.numbered;
        })
        | inl (_, sent) ↦ rw sent (step_sent p f l ps h more s sent)
      ])
    ])
  ]

  grow_by :
      (b : Bool) (p : Bytes) (ps rest : List Bytes)
      → (if b then ps ++ p ∷ [] else ps) ++ rest ≡ ps ++ (if b then p ∷ rest else rest)
  grow_by true p ps rest = append_assoc ps (p ∷ []) rest
  grow_by false p ps rest = refl

  pub send_each-InOrder :
      (payloads : List Bytes) (l : Link C T) (ps : List Bytes)
      → InOrder l ps
      → InOrder (send_each crypto net payloads l) (ps ++ accepted crypto net payloads l)
  unfolding send_each accepted
  send_each-InOrder [] l ps h = rw (append-nil ps) h
  send_each-InOrder (p ∷ payloads) l ps h =
      rw (grow_by (is_ok (encrypt_and_send crypto net p l).0) p ps _) at
        (send_each-InOrder payloads (encrypt_and_send crypto net p l).1 _ (step p l ps h))

module _ {C T : Type 0} (crypto : Crypto C) (net : Transport T) where
  -- After a send that the transport refused, the next payload is sealed under the same counter: both frames have been handed to the transport under one nonce.
  pub failed_send_keeps_counter :
      (p q f g : Bytes) (l : Link C T) (e : String)
      → l.noise_socket.write_counter < u32_max
      → encrypt_and_frame crypto l.noise_socket.write_cipher l.noise_socket.write_counter p ≡ ok f
      → encrypt_and_frame crypto l.noise_socket.write_cipher l.noise_socket.write_counter q ≡ ok g
      → (net.send f l.transport).0 ≡ err e
      → let l' = (encrypt_and_send crypto net p l).1 in
        (l'.transport ≡ (net.send f l.transport).1)
        × ((encrypt_and_send crypto net q l').1.transport ≡ (net.send g l'.transport).1)
  unfolding encrypt_and_send
  failed_send_keeps_counter p q f g l e h sp sq lost = ground arith
