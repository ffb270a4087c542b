-- ===== src/Server/Threads/Named.antt =====
-- The requests of two clients for one nickname, in two threads.
use cpp_socket_chat.Prelude.{
  some, if◌then◌else◌, ℕ, true, false, List, [], ◌∷◌, Bool, Bytes, bytes, ◌≡◌, ◌≢◌, refl, sym,
}
use cpp_socket_chat.Json.{Json, ok}
use cpp_socket_chat.Protocol.{
  Packet, nickname_request, nickname_response_fail, nickname_response_ok, reply, empty_reply,
  payload_text,
}
use cpp_socket_chat.Server.Clients
use cpp_socket_chat.Server.Clients.{ClientInfo}
use cpp_socket_chat.Server.Clients.Names.{Connected, IsWf}
use cpp_socket_chat.Server.Clients.Race.{
  named, set_nickname-self, set_nickname-other, set_nickname_twice,
}
use cpp_socket_chat.Server.State.{Server}
use cpp_socket_chat.Server.Handlers.{json_failure, has_field, string_field}
use cpp_socket_chat.Server.Threads
use cpp_socket_chat.Server.Threads.{Task, finished, call, turn, interleave, ◌>>=◌}
use cpp_socket_chat.Server.Threads.Handlers as Steps

module _ (json : Json) where
  -- A packet is the request for this nickname.
  pub record Wants (packet : Packet) (nickname : Bytes) : Type 0 where
    pub request : json.Value
    pub parsed : json.parse (payload_text packet) ≡ ok request
    pub has : has_field json json.is_string request (bytes "nickname") ≡ ok true
    pub found : string_field json request (bytes "nickname") ≡ ok nickname

  -- The server behind setNickname.
  abbrev granted : ℕ → Bytes → Server → Server
  granted fd nickname s = record s {
    client_manager = Clients.set_nickname fd nickname s.client_manager;
  }

  -- What a thread does with the request, when it has tested the nickname.
  abbrev naming : ℕ → Bytes → Bool → Task
  naming fd nickname taken =
      (if taken
          then Threads.pure (some (reply nickname_response_fail (bytes "Duplicated nickname.")))
          else (Threads.set_nickname fd nickname >>= λ u.
              Threads.pure (some (empty_reply nickname_response_ok))))
        (Threads.conclude_with fd)
        λ e. Threads.send fd (json_failure nickname_response_fail e) (λ u. finished) λ x. finished

  wanting-call :
      (dis : ℕ → ℕ) (timestamp : Bytes) (fd : ℕ) (packet : Packet) (nickname : Bytes)
      → Wants packet nickname
      → Steps.task_of json nickname_request dis timestamp fd packet
        ≡ call
            (λ s. s)
            (λ s. naming fd nickname (Clients.is_nickname_taken nickname s.client_manager))
  unfolding Steps.task_of Threads.conclude Steps.nickname_body ◌>>=◌ Threads.lift Threads.reads
  wanting-call dis timestamp fd packet nickname u = rw (u.parsed, u.has, u.found) refl

  naming-call :
      (fd : ℕ) (nickname : Bytes)
      → (next : Server → Task) × (naming fd nickname false ≡ call (granted fd nickname) next)
  unfolding ◌>>=◌ Threads.set_nickname Threads.writes
  naming-call fd nickname = (_, refl)

  unfoldable pub both : (dis : ℕ → ℕ) → Bytes → ℕ → Packet → ℕ → Packet → List Task
  both dis timestamp f p g q =
      Steps.task_of json nickname_request dis timestamp f p
      ∷ (Steps.task_of json nickname_request dis timestamp g q ∷ [])

  granted-both :
      (dis : ℕ → ℕ) (timestamp : Bytes) (f g : ℕ) (p q : Packet) (n : Bytes) (s : Server)
      → Wants p n
      → Wants q n
      → Clients.is_nickname_taken n s.client_manager ≡ false
      → (interleave (0 ∷ (1 ∷ (0 ∷ (1 ∷ [])))) (both dis timestamp f p g q) s).1
        ≡ granted g n (granted f n s)
  unfolding interleave turn both
  granted-both dis timestamp f g p q n s u v free =
      let (next_f, called_f) = naming-call f n in
      let (next_g, called_g) = naming-call g n in
      rw
        (
          wanting-call dis timestamp f p n u,
          wanting-call dis timestamp g q n v,
          free,
          called_f,
          called_g,
        )
        refl

  -- Two connected clients ask for one nickname that is free, and each of the threads tests it before
  -- either of them sets it: then both clients bear it, and the client manager is not as it should be.
  pub named_both :
      (dis : ℕ → ℕ) (timestamp : Bytes) (f g : ℕ) (p q : Packet) (n : Bytes) (c d : ClientInfo)
      (s : Server)
      → Wants p n
      → Wants q n
      → f ≢ g
      → Connected s.client_manager f c
      → Connected s.client_manager g d
      → Clients.is_nickname_taken n s.client_manager ≡ false
      → Connected
          (interleave (0 ∷ (1 ∷ (0 ∷ (1 ∷ [])))) (both dis timestamp f p g q) s).1.client_manager
          f
          (named n c)
        × Connected
            (interleave (0 ∷ (1 ∷ (0 ∷ (1 ∷ [])))) (both dis timestamp f p g q) s).1.client_manager
            g
            (named n d)
        × ¬ (
            IsWf
              (interleave
                (0 ∷ (1 ∷ (0 ∷ (1 ∷ []))))
                (both dis timestamp f p g q)
                s).1.client_manager)
  named_both dis timestamp f g p q n c d s u v other hc hd free =
      let m = s.client_manager in
      let first = Clients.set_nickname f n m in
      let hg = set_nickname-other f g n m c d other hc hd in
      rw (granted-both dis timestamp f g p q n s u v free) (
        set_nickname-other g f n first d (named n c) (λ e. other (sym e)) hg
            (set_nickname-self f n m c hc),
        set_nickname-self g n first d hg,
        set_nickname_twice f g n m c d hc hd other,
      )
