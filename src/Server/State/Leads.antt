-- ===== src/Server/State/Leads.antt =====
-- From what holds before an action to what holds behind it, where neither looks at what was sent.
use cpp_socket_chat.Prelude.{
  ℕ, ℤ, fd_eq, [], ◌∷◌, sym, subst, ◌∙◌, inl, inr, Option-cases, Bool, true, false, List, Bytes,
  ◌≡◌, refl, if◌then◌else◌,
}
use cpp_socket_chat.Json.{JsonError, Result, ok, throw}
use cpp_socket_chat.Protocol.{Packet}
use cpp_socket_chat.Server.Clients.{ClientManager}
use cpp_socket_chat.Server.Rooms
use cpp_socket_chat.Server.Rooms.{RoomManager}
use cpp_socket_chat.Server.State.{
  Server, Act, pure, lift, gets, modify, ◌>>=◌, ◌>>◌, send_packet, send_each, send_room,
  broadcast_packet_for_room,
}

pub record Managers : Type 0 where
  pub clients : ClientManager
  pub rooms : RoomManager

abbrev pub managers : Server → Managers
managers s = record { clients = s.client_manager; rooms = s.room_manager }

-- From the managers `v`, the action leads to managers that meet `R`, whether it returns or throws.
pub record Leads {A : Type 0} (v : Managers) (R : Managers → Type 0) (m : Act A) : Type 0 where
  pub at : (s : Server) → managers s ≡ v → R (managers (m s).1)

module _ {A : Type 0} {v : Managers} {R : Managers → Type 0} where
  pub Leads-pure : (a : A) → R v → Leads v R (pure a)
  unfolding pure
  Leads-pure a r = record { at = λ s e. subst R (sym e) r }

  pub Leads-if :
      (b : Bool) (m n : Act A) → Leads v R m → Leads v R n → Leads v R (if b then m else n)
  Leads-if true m n km kn = km
  Leads-if false m n km kn = kn

  pub Leads-lift :
      {B : Type 0} (r : Result B) (f : B → Act A)
      → R v
      → ((b : B) → Leads v R (f b))
      → Leads v R (lift r >>= f)
  unfolding ◌>>=◌
  Leads-lift (ok b) f r k = k b
  Leads-lift (throw x) f r k = record { at = λ s e. subst R (sym e) r }

  -- The same, where each case knows what the result is.
  pub Leads-known :
      {B : Type 0} (r : Result B) (f : B → Act A)
      → ((e : JsonError) → r ≡ throw e → R v)
      → ((b : B) → r ≡ ok b → Leads v R (f b))
      → Leads v R (lift r >>= f)
  unfolding ◌>>=◌
  Leads-known (ok b) f x k = k b refl
  Leads-known (throw e) f x k = record { at = λ s h. subst R (sym h) (x e refl) }

  -- A read of the managers.
  pub Leads-gets :
      {B : Type 0} (g : Managers → B) (f : B → Act A)
      → Leads v R (f (g v))
      → Leads v R (gets (λ s. g (managers s)) >>= f)
  unfolding ◌>>=◌
  Leads-gets g f k = record {
    at = λ s e. subst (λ w. R (managers (f (g w) s).1)) (sym e) (k.at s e);
  }

  -- A step that changes the managers from `v` to `w`.
  pub Leads-step :
      {w : Managers} (g : Server → Server) (m : Act A)
      → ((s : Server) → managers s ≡ v → managers (g s) ≡ w)
      → Leads w R m
      → Leads v R (modify g >> m)
  unfolding ◌>>=◌
  Leads-step g m h k = record { at = λ s e. k.at (g s) (h s e) }

send_each-managers :
    (x : ℤ) (p : Packet) (gs : List ℕ) (s : Server) → managers (send_each x p gs s) ≡ managers s
unfolding send_each send_packet
send_each-managers x p [] s = refl
send_each-managers x p (g ∷ gs) s =
    send_each-managers x p gs (if fd_eq g x then s else send_packet g p s) ∙ skip (fd_eq g x)
  where
    skip : (b : Bool) → managers (if b then s else send_packet g p s) ≡ managers s
    skip true = refl
    skip false = refl

pub broadcast-managers :
    (p : Packet) (code : Bytes) (x : ℤ) (s : Server)
    → managers (broadcast_packet_for_room p code x s) ≡ managers s
unfolding broadcast_packet_for_room
broadcast-managers p code x s = elim (Option-cases (Rooms.get_room code s.room_manager)) [
  | inl e ↦ rw (e, send_room) refl
  | inr (r, e) ↦ rw (e, send_room) (send_each-managers x p _ s)
]
