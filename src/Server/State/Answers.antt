-- ===== src/Server/State/Answers.antt =====
-- How many packets an action sends to one client: the rules by which a handler answers once.
use cpp_socket_chat.Prelude.{
  ℕ, suc, pos, Bool, true, false, Option, none, some, List, [], ◌∷◌, ◌++◌, ◌≡◌, refl, subst, ◌∙◌,
  inl, inr, Bytes, arith, nat_beq, Option-cases, if◌then◌else◌,
}
use cpp_socket_chat.Json.{Result, ok, throw}
use cpp_socket_chat.Protocol.{Packet}
use cpp_socket_chat.Server.Rooms
use cpp_socket_chat.Server.State.{
  Server, Act, continue, pure, lift, gets, modify, ◌>>=◌, send_packet, send_each, send_room,
  broadcast_packet_for_room,
}

-- The packets that were sent to a client.
abbrev pub sent_count : ℕ → List (ℕ × Packet) → ℕ
sent_count fd [] = 0
sent_count fd ((g, p) ∷ ps) = let rest = sent_count fd ps in if nat_beq g fd then suc rest else rest

abbrev pub sent_to : ℕ → Server → ℕ
sent_to fd s = sent_count fd s.outbox

sent_count-push :
    (fd g : ℕ) (p : Packet) (ps : List (ℕ × Packet))
    → sent_count fd (ps ++ (g, p) ∷ [])
      ≡ (if nat_beq g fd then suc (sent_count fd ps) else sent_count fd ps)
sent_count-push fd g p [] = refl
sent_count-push fd g p ((h, q) ∷ ps) = ground (arith, sent_count-push fd g p ps)

pub sent_to-send_packet :
    (fd : ℕ) (p : Packet) (s : Server) → sent_to fd (send_packet fd p s) ≡ suc (sent_to fd s)
unfolding send_packet
sent_to-send_packet fd p s = ground (arith, sent_count-push fd fd p s.outbox)

sent_to-skip :
    (fd g : ℕ) (p : Packet) (s : Server) (same : Bool)
    → same ≡ nat_beq g fd
    → sent_to fd (if same then s else send_packet g p s) ≡ sent_to fd s
unfolding send_packet
sent_to-skip fd g p s same e = ground (arith, sent_count-push fd g p s.outbox)

sent_to-send_each :
    (fd : ℕ) (p : Packet) (fds : List ℕ) (s : Server)
    → sent_to fd (send_each (pos fd) p fds s) ≡ sent_to fd s
unfolding send_each send_packet
sent_to-send_each fd p [] s = refl
sent_to-send_each fd p (g ∷ fds) s =
    sent_to-send_each fd p fds (if nat_beq g fd then s else send_packet g p s)
    ∙ sent_to-skip fd g p s (nat_beq g fd) refl

-- A room's broadcast that excludes a client sends it nothing.
pub sent_to-broadcast :
    (fd : ℕ) (p : Packet) (code : Bytes) (s : Server)
    → sent_to fd (broadcast_packet_for_room p code (pos fd) s) ≡ sent_to fd s
unfolding broadcast_packet_for_room
sent_to-broadcast fd p code s = elim (Option-cases (Rooms.get_room code s.room_manager)) [
  | inl e ↦ rw (e, send_room) refl
  | inr (r, e) ↦ rw (e, send_room) (sent_to-send_each fd p _ s)
]

-- An action that sends the client nothing.
pub record Silent {A : Type 0} (fd : ℕ) (m : Act A) : Type 0 where
  pub at : (s : Server) → sent_to fd (m s).1 ≡ sent_to fd s

-- From a number of packets that were sent to the client before: one more if nothing is left to send.
abbrev pub Answered : ℕ → ℕ → Result (Option Packet) × Server → Type 0
Answered fd before (ok none, s) = sent_to fd s ≡ suc before
Answered fd before (ok (some p), s) = sent_to fd s ≡ before
Answered fd before (throw e, s) = sent_to fd s ≡ before

-- The body of a handler: it has answered already, or leaves one packet to be sent.
pub record Answers (fd : ℕ) (m : Act (Option Packet)) : Type 0 where
  pub at : (s : Server) → Answered fd (sent_to fd s) (m s)

module _ {fd : ℕ} where
  pub Answers-pure : (p : Packet) → Answers fd (pure (some p))
  unfolding pure
  Answers-pure p = record { at = λ s. refl }

  pub Answers-if :
      (b : Bool) (m n : Act (Option Packet))
      → Answers fd m
      → Answers fd n
      → Answers fd (if b then m else n)
  Answers-if true m n km kn = km
  Answers-if false m n km kn = kn

  pub Answers-lift :
      {A : Type 0} (r : Result A) (f : A → Act (Option Packet))
      → ((a : A) → Answers fd (f a))
      → Answers fd (lift r >>= f)
  unfolding ◌>>=◌
  Answers-lift (ok a) f k = k a
  Answers-lift (throw e) f k = record { at = λ s. refl }

  pub Answers-gets :
      {A : Type 0} (g : Server → A) (f : A → Act (Option Packet))
      → ((a : A) → Answers fd (f a))
      → Answers fd (gets g >>= f)
  unfolding ◌>>=◌
  Answers-gets g f k = record { at = λ s. (k (g s)).at s }

  continue-Answered :
      {A : Type 0} (r : Result A × Server) (f : A → Act (Option Packet)) (before : ℕ)
      → sent_to fd r.1 ≡ before
      → ((a : A) → Answers fd (f a))
      → Answered fd before (continue r f)
  continue-Answered (ok a, s) f before e k = subst (λ n. Answered fd n (f a s)) e ((k a).at s)
  continue-Answered (throw x, s) f before e k = e

  pub Answers-bind :
      {A : Type 0} (m : Act A) (f : A → Act (Option Packet))
      → Silent fd m
      → ((a : A) → Answers fd (f a))
      → Answers fd (m >>= f)
  unfolding ◌>>=◌
  Answers-bind m f km kf = record {
    at = λ s. continue-Answered (m s) f (sent_to fd s) (km.at s) kf;
  }

  pub Silent-modify :
      (g : Server → Server)
      → ((s : Server) → sent_to fd (g s) ≡ sent_to fd s)
      → Silent fd (modify g)
  unfolding modify
  Silent-modify g h = record { at = h }

-- An action without a result to send: the client is sent nothing.
module _ {fd : ℕ} where
  pub Silent-if :
      (b : Bool) (m n : Act (Unit {0})) → Silent fd m → Silent fd n → Silent fd (if b then m else n)
  Silent-if true m n km kn = km
  Silent-if false m n km kn = kn

  pub Silent-pure : Silent fd (pure tt)
  unfolding pure
  Silent-pure = record { at = λ s. refl }

  pub Silent-lift :
      {A B : Type 0} (r : Result A) (f : A → Act B)
      → ((a : A) → Silent fd (f a))
      → Silent fd (lift r >>= f)
  unfolding ◌>>=◌
  Silent-lift (ok a) f k = k a
  Silent-lift (throw e) f k = record { at = λ s. refl }
