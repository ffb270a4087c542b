-- ===== src/Client/Network/Receive.antt =====
-- What the client receives.
use cpp_socket_chat.Prelude.{
  ℕ, zero, suc, ◌≤◌, ◌<◌, ◌≡◌, refl, ap, ◌∙◌, Option, none, some, List, [], ◌∷◌, ◌++◌, map, concat,
  arith, Bytes, length, take, drop, length-append, length-take,
}
use cpp_socket_chat.Protocol.{Packet, of_code, to_code, wire, htons, payload_text}
use cpp_socket_chat.Server.Parser.Delivery.{AllSendable}
use cpp_socket_chat.Protocol.Wire.{IsSendable, payload_text-eq}
use cpp_socket_chat.Server.Parser.{ntohs, payload_size}
use cpp_socket_chat.Client.Network.{NetworkClient, receive, receive_payload}

-- Whatever comes in, a packet that is received fits its buffer, and its payload is as long as its
-- header says.
pub receive_fits :
    (p : Packet) (n : NetworkClient)
    → (receive n).0 ≡ some p
    → (p.size ≤ 1024) × (length p.payload ≡ p.size)
unfolding receive
receive_fits p n h =
    ground (arith, length-take (payload_size (take 4 n.incoming)) (drop 4 n.incoming))

take-front : (xs ys : Bytes) → take (length xs) (xs ++ ys) ≡ xs
take-front [] ys = refl
take-front (x ∷ xs) ys = ap (◌∷◌ x) (take-front xs ys)

drop-front : (xs ys : Bytes) → drop (length xs) (xs ++ ys) ≡ ys
drop-front [] ys = refl
drop-front (x ∷ xs) ys = drop-front xs ys

receive_payload-whole :
    (header payload rest : Bytes) (n : NetworkClient)
    → payload_size header ≡ length payload
    → length payload ≤ 1024
    → receive_payload header (payload ++ rest) (record n { incoming = payload ++ rest }) ≡ (
      some (record { type = of_code (ntohs header); size = length payload; payload = payload }),
      record n { incoming = rest },
    )
unfolding receive_payload
receive_payload-whole header [] rest n size fits = rw size refl
receive_payload-whole header (x ∷ xs) rest n size fits =
    ground (arith, size, length-append xs rest, take-front xs rest, drop-front xs rest)

receive-headed :
    (a b c d : ℕ) (bs : Bytes) (n : NetworkClient)
    → receive (record n { incoming = a ∷ b ∷ c ∷ d ∷ bs })
      ≡ receive_payload (a ∷ b ∷ c ∷ d ∷ []) bs (record n { incoming = bs })
unfolding receive
receive-headed a b c d bs n = ground arith

header-wire :
    (p : Packet)
    → IsSendable p
    → (payload_size (htons (to_code p.type) ++ htons p.size) ≡ p.size)
      × (ntohs (htons (to_code p.type) ++ htons p.size) ≡ to_code p.type)
unfolding htons payload_size ntohs
header-wire p v = (omega (arith, v.fits), omega (arith, v.code_range))

-- A packet that was sent is received unchanged, and the stream goes on behind it.
pub receive-wire :
    (p : Packet) (rest : Bytes) (n : NetworkClient)
    → IsSendable p
    → receive (record n { incoming = wire p ++ rest }) ≡ (some p, record n { incoming = rest })
unfolding wire htons
receive-wire p rest n v =
    let (size, code) = header-wire p v in
    receive-headed _ _ _ _ (payload_text p ++ rest) n
    ∙ rw
        (
          payload_text-eq p v,
          receive_payload-whole (htons (to_code p.type) ++ htons p.size) p.payload rest n
              (omega (arith, size, v.filled)) (omega (arith, v.fits, v.filled)),
          code,
          v.canonical,
          v.filled,
        )
        refl

-- The packets that a client which goes on receiving gets, up to the first failure.
unfoldable pub receive_all : ℕ → NetworkClient → List Packet
receive_all zero n = []
receive_all (suc fuel) n =
    let rest = receive_all fuel (receive n).1 in
    elim (receive n).0 [ none ↦ [] | some p ↦ p ∷ rest ]

pub receive_nothing : (n : NetworkClient) → n.incoming ≡ [] → (receive n).0 ≡ none
unfolding receive
receive_nothing n e = rw e refl

received_first :
    (fuel : ℕ) (n : NetworkClient) (p : Packet) (n' : NetworkClient)
    → receive n ≡ (some p, n')
    → receive_all (suc fuel) n ≡ p ∷ receive_all fuel n'
unfolding receive_all
received_first fuel n p n' e =
    ap
      (λ (r : Option Packet × NetworkClient). elim r.0 as (λ x. List Packet) [
        | none ↦ []
        | some q ↦ q ∷ receive_all fuel r.1
      ])
      e

-- Packets that each fit a receiver's buffer, sent one after another, are received unchanged and in
-- order; and then nothing is received, if nothing follows.
pub receive_all-wires :
    (ps : List Packet) (fuel : ℕ) (n : NetworkClient)
    → AllSendable ps
    → length ps < fuel
    → n.incoming ≡ concat (map wire ps)
    → receive_all fuel n ≡ ps
unfolding receive_all
receive_all-wires [] (suc fuel) n v enough e = rw (receive_all, receive_nothing n e) refl
receive_all-wires (p ∷ ps) (suc fuel) n v enough e =
    received_first fuel n p (record n { incoming = concat (map wire ps) })
      (ap (λ bs. receive (record n { incoming = bs })) e
        ∙ receive-wire p (concat (map wire ps)) n v.0)
    ∙ ap (◌∷◌ p) (
        receive_all-wires ps fuel (record n { incoming = concat (map wire ps) }) v.1
          (omega (arith, enough)) refl)
receive_all-wires ps zero n v enough e = elim enough [ ]
