-- ===== src/Tests/Doubles.antt =====
-- Small concrete values for the parameters that stand for other crates.
use waepic.Prelude.{
  ℕ, ◌<◌, ◌≡◌, refl, List, [], ◌∷◌, ◌++◌, Option, none, some, Bool, true, false, String, ◌==◌,
  nat_eq, text_eq, if◌then◌else◌, length, arith,
}
use waepic.Prelude.Map.{get}
use waepic.Prelude.Outcome.{Result, ok, err}
use waepic.Connection.Ports.{Bytes, Crypto, Transport, Wire, Decoder, Handshake}
use waepic.Connection.Noise.Writing.{Journal}
use waepic.Connection.ReadLoop.Draining.{IsCounting}

-- A cipher that writes the counter in front of the text.
abbrev opening : ℕ → Bytes → Result String Bytes
opening n [] = err "empty"
opening n (m ∷ p) = if m == n then ok p else err "wrong counter"

abbrev pub plain : Crypto ℕ
plain = record {
  encrypt_in_place_with_counter = λ c n p. ok (n ∷ p);
  decrypt_in_place_with_counter = λ c n p. opening n p;
  encode_frame = λ p header. ok p;
}

-- A line that is up or down, and keeps what it carried.
pub record Line : Type 0 where
  pub up : Bool
  pub carried : List Bytes

abbrev pub carry : Bool → Bytes → Line → Result String (Unit {0}) × Line
carry true f l = (ok tt, record l { carried = l.carried ++ f ∷ [] })
carry false f l = (err "line down", l)

abbrev pub line : Transport Line
line = record {
  send = λ f l. carry l.up f l;
  abandon = λ f l. l;
  disconnect = λ l. record l { up = false };
}

pub line-send_ok :
    (b : Bool) (f : Bytes) (l : Line)
    → (carry b f l).0 ≡ ok tt
    → (carry b f l).1.carried ≡ l.carried ++ f ∷ []
line-send_ok true f l h = refl
line-send_ok false f l h = cc

pub line-send_err :
    (b : Bool) (f : Bytes) (l : Line) (e : String)
    → (carry b f l).0 ≡ err e
    → (carry b f l).1.carried ≡ l.carried
line-send_err true f l e h = cc
line-send_err false f l e h = refl

abbrev pub line_journal : Journal line
line_journal = record {
  delivered = λ l. l.carried;
  send_ok = λ f l h. line-send_ok l.up f l h;
  send_err = λ f l e h. line-send_err l.up f l e h;
}

-- Nodes without contents.
mutual
  pub data Element : Type 0 where
    element : String → List (String × String) → Elements → Element

  pub data Elements : Type 0 where
    nil : Elements
    cons : Element → Elements → Elements

abbrev elements : Elements → List Element
elements nil = []
elements (cons e es) = e ∷ elements es

abbrev pub tag_of : Element → String
tag_of (element t ats es) = t

abbrev pub attrs_of : Element → List (String × String)
attrs_of (element t ats es) = ats

abbrev pub children_of : Element → Option (List Element)
children_of (element t ats es) = some (elements es)

abbrev pub nodes : Wire Element (Unit {0})
nodes = record {
  server_jid = "s.whatsapp.net";
  tag = tag_of;
  attr = λ e key. get key (attrs_of e);
  children = children_of;
  content = λ e. none;
  bytes = λ k. none;
  node = λ t ats k. element t ats nil;
  marshal = λ e. ok (7 ∷ []);
  unpack_bytes = λ p. ok p;
  parse = λ p. ok (element "message" [] nil);
}

-- Each chunk of bytes is one frame.
abbrev next_chunk : List Bytes → Option (Bytes × List Bytes)
next_chunk [] = none
next_chunk (c ∷ cs) = some (c, cs)

abbrev pub chunks : Decoder (List Bytes)
chunks = record {
  new = [];
  feed = λ d bytes. d ++ bytes ∷ [];
  decode_frame = next_chunk;
  buffered = length;
}

pub chunks-IsCounting : IsCounting chunks
chunks-IsCounting = record { takes = takes; empty = empty }
  where
    takes : (d d' : List Bytes) (f : Bytes) → next_chunk d ≡ some (f, d') → length d' < length d
    takes [] d' f h = cc
    takes (c ∷ cs) d' f h = ground arith

    empty : (d : List Bytes) → length d ≡ 0 → next_chunk d ≡ none
    empty [] h = refl
    empty (c ∷ cs) h = absurd (omega arith)

abbrev pub greeting : Handshake (Unit {0}) ℕ ℕ
greeting = record {
  start = λ v. ok tt;
  build_client_hello = λ h. ok (1 ∷ [], h);
  build_handshake_header = λ v. [];
  read_server_hello_and_build_client_finish = λ h f. ok (2 ∷ [], h);
  finish = λ h. ok (5, 6);
}
