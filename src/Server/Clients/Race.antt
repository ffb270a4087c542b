-- ===== src/Server/Clients/Race.antt =====
-- Two nickname requests that run in two worker threads at the same time.
use mathlib.Core.Option
use cpp_socket_chat.Prelude.{
  ℕ, true, false, some, Bytes, ◌≡◌, ◌≢◌, refl, sym, ◌∙◌, inl, inr, ◌==◌, ==_iff, ==_refl, nat_eq,
  bytes_eq, Bool-cases, if◌then◌else◌,
}
use cpp_socket_chat.Map.{lookup, lookup-adjust}
use cpp_socket_chat.Server.Clients.{ClientInfo, ClientManager, set_nickname, set_found}
use cpp_socket_chat.Server.Clients.Names.{Connected, IsWf}

-- A client behind setNickname.
abbrev pub named : Bytes → ClientInfo → ClientInfo
named n c = record c { nickname = n; is_authenticated = true }

set_nickname-lookup :
    (f j : ℕ) (n : Bytes) (m : ClientManager) (c : ClientInfo)
    → lookup f m.clients ≡ some c
    → lookup j (set_nickname f n m).clients
      ≡ (if f == j then Option.map (named n) (lookup j m.clients) else lookup j m.clients)
unfolding set_nickname set_found
set_nickname-lookup f j n m c h = rw h (lookup-adjust f j (named n) m.clients)

other-keys : (f g : ℕ) → f ≢ g → (f == g) ≡ false
other-keys f g h = elim (Bool-cases (f == g)) [
  | inl same ↦ absurd (h ((==_iff f g).0 same))
  | inr other ↦ other
]

pub set_nickname-self :
    (f : ℕ) (n : Bytes) (m : ClientManager) (c : ClientInfo)
    → Connected m f c
    → Connected (set_nickname f n m) f (named n c)
set_nickname-self f n m c h = set_nickname-lookup f f n m c h ∙ rw (==_refl f, h) refl

pub set_nickname-other :
    (f g : ℕ) (n : Bytes) (m : ClientManager) (c d : ClientInfo)
    → f ≢ g
    → Connected m f c
    → Connected m g d
    → Connected (set_nickname f n m) g d
set_nickname-other f g n m c d other hc hd =
    set_nickname-lookup f g n m c hc ∙ rw (other-keys f g other) hd

-- NicknameHandler tests a nickname and sets it in two calls of the manager. When two threads set one
-- nickname for two connected clients, after both have tested it, the manager is not as it should be:
-- two clients bear one nickname.
pub set_nickname_twice :
    (f g : ℕ) (n : Bytes) (m : ClientManager) (c d : ClientInfo)
    → Connected m f c
    → Connected m g d
    → f ≢ g
    → ¬ (IsWf (set_nickname g n (set_nickname f n m)))
set_nickname_twice f g n m c d hc hd other w =
    let first = set_nickname f n m in
    let hg = set_nickname-other f g n m c d other hc hd in
    other (
      w.unique f g (named n c) (named n d)
        (set_nickname-other g f n first d (named n c) (λ e. other (sym e)) hg
          (set_nickname-self f n m c hc))
        (set_nickname-self g n first d hg) refl refl refl)
