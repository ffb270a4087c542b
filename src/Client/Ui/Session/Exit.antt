-- ===== src/Client/Ui/Session/Exit.antt =====
-- The command /exit of a chat session.
use cpp_socket_chat.Prelude.{
  ◌≡◌, ◌≢◌, refl, ap, Bool, true, false, Bool-cases, inl, inr, Option, none, some, [], ◌∷◌, Bytes,
  is_empty,
}
use cpp_socket_chat.Json.{Json}
use cpp_socket_chat.Protocol.{Packet, PacketType, room_exit_ok}
use cpp_socket_chat.Client.Network.{INetworkClient}
use cpp_socket_chat.Client.Packets.{create_room_exit_packet}
use cpp_socket_chat.Client.Services.{Outcome, returned}
use cpp_socket_chat.Client.Rooms
use cpp_socket_chat.Client.Rooms.{RoomService}
use cpp_socket_chat.Client.Ui.Receiver.{receiving, looking, receive_step}
use cpp_socket_chat.Client.Ui.Session.{
  Session, main_thread, receiver_thread, exiting, left, leave, exit_sent, exit_answered,
  exit_response, main_as, step, run,
}
use cpp_socket_chat.Client.Ui.{Run, done}

module _ {json : Json} {net : INetworkClient} where
  -- The room service of a session.
  abbrev pub room_service : Session json net → RoomService json net
  room_service s = record { network = s.shared.network; current_room_code = s.current_room_code }

  -- A session that is left with this room service.
  abbrev pub left_with : RoomService json net → Session json net → Session json net
  left_with r s = record s {
    shared = record s.shared { network = r.network };
    current_room_code = r.current_room_code;
    main = left;
  }

  -- ExitRoom returns with a room service, and this is it.
  unfoldable pub LeavesBy :
      Outcome (Bool × RoomService json net) → Session json net → Run (Session json net) → Type 0
  LeavesBy o s x =
      (b : Bool) × ((r : RoomService json net) × ((o ≡ returned (b, r))
          × (x ≡ done (left_with r s))))

  exit_response-LeavesBy :
      (t : PacketType) (s : Session json net)
      → LeavesBy (Rooms.on_exited json net t (room_service s)) s (done (exit_response json net t s))
  unfolding exit_response Rooms.on_exited LeavesBy
  exit_response-LeavesBy room_exit_ok s =
      (true, (record (room_service s) { current_room_code = [] }, (refl, refl)))
  exit_response-LeavesBy _ s = (false, (room_service s, (refl, refl)))

  exit_response-other :
      (t : PacketType) (s : Session json net)
      → t ≢ room_exit_ok
      → exit_response json net t s ≡ record s { main = left }
  unfolding exit_response
  exit_response-other room_exit_ok s h = absurd (h refl)
  exit_response-other _ s h = refl

  exit_answered-other :
      (a : Option Packet × net.State) (s : Session json net)
      → ((q : Packet) → a.0 ≡ some q → q.type ≢ room_exit_ok)
      → exit_answered json net a s
        ≡ record s { shared = record s.shared { network = a.1 }; main = left }
  unfolding exit_answered
  exit_answered-other (none, n) s other = refl
  exit_answered-other (some q, n) s other = exit_response-other q.type _ (other q refl)

  answered-LeavesBy :
      (a : Option Packet × net.State) (s : Session json net)
      → LeavesBy
          (Rooms.answered json net false (λ p. Rooms.on_exited json net p.type) (room_service s) a)
          s
          (done (exit_answered json net a s))
  unfolding Rooms.answered exit_answered LeavesBy
  answered-LeavesBy (none, n) s = (false, (record (room_service s) { network = n }, (refl, refl)))
  answered-LeavesBy (some p, n) s =
      exit_response-LeavesBy p.type (record s { shared = record s.shared { network = n } })

  requested-LeavesBy :
      (time : Bytes) (a : Bool × net.State) (s : Session json net)
      → LeavesBy
          (Rooms.requested json net false (λ p. Rooms.on_exited json net p.type) (room_service s) a)
          s
          (run json net (main_thread time ∷ []) (exit_sent json net a s))
  unfolding Rooms.requested exit_sent run step main_as LeavesBy Rooms.answered Rooms.on_exited
  requested-LeavesBy time (false, n) s =
      (false, (record (room_service s) { network = n }, (refl, refl)))
  requested-LeavesBy time (true, n) s =
      answered-LeavesBy (net.receive n)
        (record s { shared = record s.shared { network = n }; main = exiting })

  -- When the other thread takes no turn, /exit is ExitRoom: the session is left, with the room service
  -- that ExitRoom returns.
  pub leave-exit_room :
      (time : Bytes) (s : Session json net)
      → LeavesBy
          (Rooms.exit_room json net (room_service s))
          s
          (run json net (main_thread time ∷ []) (leave json net s))
  unfolding Rooms.exit_room leave run step main_as LeavesBy
  leave-exit_room time s = elim (Bool-cases (is_empty s.current_room_code)) [
    | inl outside ↦ rw outside (false, (room_service s, (refl, refl)))
    | inr inside ↦
        rw inside (requested-LeavesBy time (net.send create_room_exit_packet s.shared.network) s)
  ]

  -- ExitRoom has sent its request and both threads are in Receive, where a ROOM_EXIT_OK comes in and no
  -- second one behind it. If the receive loop goes on first, it takes the response and drops it;
  -- ExitRoom takes what follows, and the client keeps its room code although the server let it leave.
  -- If ExitRoom goes on first, the client has left.
  pub exit_race :
      (time : Bytes) (s : Session json net) (ok : Packet) (n : net.State)
      → s.main ≡ exiting
      → s.shared.receiver ≡ receiving
      → net.receive s.shared.network ≡ (some ok, n)
      → ok.type ≡ room_exit_ok
      → ((q : Packet) → (net.receive n).0 ≡ some q → q.type ≢ room_exit_ok)
      → (run json net (receiver_thread ∷ (main_thread time ∷ [])) s
          ≡ done (record s {
            shared = record s.shared { network = (net.receive n).1; receiver = looking };
            main = left;
          }))
        × (run json net (main_thread time ∷ []) s
            ≡ done (record s {
              shared = record s.shared { network = n };
              current_room_code = [];
              main = left;
            }))
  unfolding run step receive_step main_as
  exit_race time s ok n at_exit at_receive first kind other = (
    rw (at_receive, first, kind)
        (rw at_exit (
          ap done (
            exit_answered-other (net.receive n)
              (record s {
                shared = record s.shared { network = n; receiver = looking };
                main = exiting;
              })
              other))),
    rw (at_exit, first, kind) refl,
  )
