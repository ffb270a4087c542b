-- ===== src/Client/Connection/Registration.antt =====
-- The client's nickname request at the server.
use cpp_socket_chat.Prelude.{
  ℕ, ◌≤◌, ◌≡◌, refl, inl, inr, Bool-cases, true, [], ◌∷◌, Bytes, bytes, length, le→not-ltb,
  if◌then◌else◌,
}
use cpp_socket_chat.Json.{Json, ok}
use cpp_socket_chat.Protocol.{
  nickname_request, nickname_response_ok, nickname_response_fail, reply, empty_reply,
}
use cpp_socket_chat.Protocol.Wire.{payload_text-reply}
use cpp_socket_chat.Server.Clients
use cpp_socket_chat.Server.State
use cpp_socket_chat.Server.State.{Server, send_packet, ◌>>=◌}
use cpp_socket_chat.Server.Handlers.{conclude, has_field, string_field}
use cpp_socket_chat.Server.Handlers.Nickname.{nickname_body, handle_nickname}
use cpp_socket_chat.Client.Packets.{built, build, create_nickname_request_packet}

-- What the JSON library makes of the client's text: the text of an object with one text field is read
-- as an object that has this field, with this text.
pub record ReadsBack (json : Json) (key value text : Bytes) : Type 0 where
  pub written : json.dump (json.object ((key, json.of_string value) ∷ [])) ≡ ok text
  pub object : json.Value
  pub field : json.Value
  pub read : json.parse text ≡ ok object
  pub has : json.contains object key ≡ true
  pub found : json.index object key ≡ ok field
  pub is_text : json.is_string field ≡ true
  pub same : json.get_string field ≡ ok value

module _ (json : Json) (key value text : Bytes) (r : ReadsBack json key value text) where
  pub ReadsBack-has_field : has_field json json.is_string r.object key ≡ ok true
  unfolding has_field
  ReadsBack-has_field = rw (has_field, r.has, r.found, r.is_text) refl

  pub ReadsBack-string_field : string_field json r.object key ≡ ok value
  unfolding string_field
  ReadsBack-string_field = rw (string_field, r.found, r.same) refl

module _ (json : Json) (fd : ℕ) (nickname text : Bytes) (s : Server) where
  -- The client's request for a nickname that is free is one that the server grants: it sets the
  -- nickname and answers with NICKNAME_RESPONSE_OK. If the nickname is taken, it changes nothing and
  -- answers with NICKNAME_RESPONSE_FAIL.
  pub nickname_request-handled :
      ReadsBack json (bytes "nickname") nickname text
      → length text ≤ 1024
      → (create_nickname_request_packet json nickname ≡ built (reply nickname_request text))
        × (handle_nickname json fd (reply nickname_request text) s ≡ (
            if Clients.is_nickname_taken nickname s.client_manager
            then send_packet fd (reply nickname_response_fail (bytes "Duplicated nickname.")) s
            else send_packet fd
                (empty_reply nickname_response_ok)
                (record s { client_manager = Clients.set_nickname fd nickname s.client_manager })))
  unfolding create_nickname_request_packet handle_nickname nickname_body ◌>>=◌ build conclude
      State.set_nickname
  nickname_request-handled r fits = (
    rw (r.written, le→not-ltb 1024 (length text) fits) refl,
    rw
        (
          payload_text-reply nickname_request text fits,
          r.read,
          ReadsBack-has_field json (bytes "nickname") nickname text r,
          ReadsBack-string_field json (bytes "nickname") nickname text r,
        )
        (elim (Bool-cases (Clients.is_nickname_taken nickname s.client_manager)) [
          | inl taken ↦ rw taken refl
          | inr free ↦ rw free refl
        ]),
  )
