-- ===== src/Client/Rooms/Codes.antt =====
-- The room that the client takes itself to be in.
use cpp_socket_chat.Prelude.{
  ℤ, ◌≡◌, refl, inl, inr, subst, Bool-cases, Bool, true, false, Option, none, some, Bytes, is_empty,
}
use cpp_socket_chat.Json.{Json, Result, ok, throw}
use cpp_socket_chat.Protocol.{PacketType, Packet, room_create_ok, room_join_ok}
use cpp_socket_chat.Client.Network.{INetworkClient}
use cpp_socket_chat.Client.Packets.{
  Built, built, overflow, thrown, create_room_create_packet, create_room_join_packet,
}
use cpp_socket_chat.Client.Services.{Outcome, returned, overflowed, raised, with_request}
use cpp_socket_chat.Client.Rooms.{
  RoomService, answered, requested, exchange, entered, on_created, on_joined, create_room,
  join_room,
}

module _ (json : Json) (net : INetworkClient) where
  -- The room code behind a call: that of the room which was entered, or the one before.
  abbrev pub code_after : Option Bytes → Bytes → Bytes
  code_after none before = before
  code_after (some code) before = code

  -- A call that returns keeps the room code, or sets it to the one that it reports, no empty text.
  abbrev Tracks : Bytes → Outcome (Option Bytes × RoomService json net) → Type 0
  Tracks before (returned (none, r)) = r.current_room_code ≡ before
  Tracks before (returned (some code, r)) = (r.current_room_code ≡ code) × (is_empty code ≡ false)
  Tracks before overflowed = Unit
  Tracks before (raised e) = Unit

  entered-Tracks :
      (code : Result Bytes) (r : RoomService json net)
      → Tracks r.current_room_code (entered json net code r)
  unfolding entered
  entered-Tracks (throw e) r = tt
  entered-Tracks (ok code) r = elim (Bool-cases (is_empty code)) [
    | inl empty ↦ rw empty refl
    | inr filled ↦ rw filled (refl, filled)
  ]

  on_joined-Tracks :
      (t : PacketType) (p : Packet) (r : RoomService json net)
      → Tracks r.current_room_code (on_joined json net t p r)
  unfolding on_joined
  on_joined-Tracks room_join_ok p r = entered-Tracks _ r
  on_joined-Tracks _ p r = refl

  on_created-Tracks :
      (t : PacketType) (p : Packet) (r : RoomService json net)
      → Tracks r.current_room_code (on_created json net t p r)
  unfolding on_created
  on_created-Tracks room_create_ok p r = entered-Tracks _ r
  on_created-Tracks _ p r = refl

  module _ (next : Packet → RoomService json net → Outcome (Option Bytes × RoomService json net))
      (keeps : (p : Packet) (q : RoomService json net)
        → Tracks q.current_room_code (next p q)) where
    answered-Tracks :
        (r : RoomService json net) (result : Option Packet × net.State)
        → Tracks r.current_room_code (answered json net none next r result)
    unfolding answered
    answered-Tracks r (none, s) = refl
    answered-Tracks r (some p, s) = keeps p _

    requested-Tracks :
        (r : RoomService json net) (result : Bool × net.State)
        → Tracks r.current_room_code (requested json net none next r result)
    unfolding requested
    requested-Tracks r (false, s) = refl
    requested-Tracks r (true, s) = answered-Tracks r (net.receive s)

    exchange-Tracks :
        (request : Packet) (r : RoomService json net)
        → Tracks r.current_room_code (exchange json net none next request r)
    unfolding exchange
    exchange-Tracks request r = requested-Tracks r (net.send request r.network)

  with_request-Tracks :
      (before : Bytes) (b : Built) (f : Packet → Outcome (Option Bytes × RoomService json net))
      → ((p : Packet) → Tracks before (f p))
      → Tracks before (with_request b f)
  with_request-Tracks before (built p) f k = k p
  with_request-Tracks before overflow f k = tt
  with_request-Tracks before (thrown e) f k = tt

  join_room-Tracks :
      (code : Bytes) (r : RoomService json net)
      → Tracks r.current_room_code (join_room json net code r)
  unfolding join_room
  join_room-Tracks code r =
      with_request-Tracks r.current_room_code (create_room_join_packet json code) _
        λ request. exchange-Tracks _ (λ p q. on_joined-Tracks p.type p q) request r

  create_room-Tracks :
      (name : Bytes) (max_users : ℤ) (r : RoomService json net)
      → Tracks r.current_room_code (create_room json net name max_users r)
  unfolding create_room
  create_room-Tracks name max_users r =
      with_request-Tracks r.current_room_code (create_room_create_packet json name max_users) _
        λ request. exchange-Tracks _ (λ p q. on_created-Tracks p.type p q) request r

  Tracks-code_after :
      (before : Bytes) (entered : Option Bytes) (r : RoomService json net)
      → Tracks before (returned (entered, r))
      → r.current_room_code ≡ code_after entered before
  Tracks-code_after before none r t = t
  Tracks-code_after before (some code) r t = t.0

  -- When a join returns, whatever the server answered, the client takes itself to be in the room that
  -- the call reports; if it reports none, in the room that it was in before.
  pub join_room-current_room_code :
      (code : Bytes) (r : RoomService json net) (entered : Option Bytes)
      (after : RoomService json net)
      → join_room json net code r ≡ returned (entered, after)
      → after.current_room_code ≡ code_after entered r.current_room_code
  join_room-current_room_code code r entered after e =
      Tracks-code_after r.current_room_code entered after
        (subst (Tracks r.current_room_code) e (join_room-Tracks code r))

  -- The same when the creation of a room returns.
  pub create_room-current_room_code :
      (name : Bytes) (max_users : ℤ) (r : RoomService json net) (entered : Option Bytes)
      (after : RoomService json net)
      → create_room json net name max_users r ≡ returned (entered, after)
      → after.current_room_code ≡ code_after entered r.current_room_code
  create_room-current_room_code name max_users r entered after e =
      Tracks-code_after r.current_room_code entered after
        (subst (Tracks r.current_room_code) e (create_room-Tracks name max_users r))
