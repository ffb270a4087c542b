-- ===== src/Server/Clients/Renamed.antt =====
-- A client that registers a second nickname.
use cpp_socket_chat.Prelude.{
  ℕ, ◌⊎◌, inl, inr, sym, ap, ◌∙◌, ==_iff, true, some, Bytes, ◌≡◌, ◌≢◌, arith, ==_refl, nat_eq,
  bytes_eq, bytes_beq_iff,
}
use cpp_socket_chat.Map.{lookup, lookup-adjust, lookup-adjust_cases}
use cpp_socket_chat.Members.{add}
use cpp_socket_chat.Members.Laws.{member-add, member-remove}
use cpp_socket_chat.Server.Clients.Names.{Connected, IsWf, removed-Connected}
use cpp_socket_chat.Server.Clients.{
  ClientInfo, ClientManager, remove_client, remove_found, is_nickname_taken, set_nickname,
  set_found,
}

-- A connected client bears the nickname.
abbrev pub IsBorne : Bytes → ClientManager → Type 0
IsBorne n m =
    (g : ℕ) × (d : ClientInfo) × Connected m g d × (d.is_authenticated ≡ true) × (d.nickname ≡ n)

stays_taken :
    (fd : ℕ) (n : Bytes) (c : ClientInfo) (m : ClientManager)
    → lookup fd m.clients ≡ some c
    → is_nickname_taken c.nickname m ≡ true
    → n ≢ c.nickname
    → (is_nickname_taken c.nickname (set_nickname fd n m) ≡ true)
      × (is_nickname_taken c.nickname (remove_client fd (set_nickname fd n m)) ≡ true)
unfolding is_nickname_taken remove_client set_nickname remove_found set_found
stays_taken fd n c m known taken other = (
  ground (arith, known, member-add n c.nickname m.nicknames),
  ground (
    arith,
    known,
    lookup-adjust fd fd (λ (x : ClientInfo). record x { nickname = n; is_authenticated = true })
        m.clients,
    ==_refl fd,
    member-remove n c.nickname (add n m.nicknames),
    member-add n c.nickname m.nicknames,
    bytes_beq_iff n c.nickname,
  ),
)

-- Behind setNickname, a client is the one that was renamed, or is as it was.
set_nickname-others :
    (fd : ℕ) (n : Bytes) (c : ClientInfo) (m : ClientManager) (g : ℕ) (d : ClientInfo)
    → Connected m fd c
    → Connected (set_nickname fd n m) g d
    → ((fd ≡ g) × (d.nickname ≡ n)) ⊎ ((fd ≢ g) × Connected m g d)
unfolding set_nickname set_found
set_nickname-others fd n c m g d known h =
    elim (lookup-adjust_cases fd g
      (λ (x : ClientInfo). record x { nickname = n; is_authenticated = true }) m.clients d
      (rw known at h)) [
        | inl (v, same, before, x) ↦ inl (same, ap (λ (y : ClientInfo). y.nickname) x)
        | inr (apart, before) ↦ inr (λ same. absurd (ground (arith, ==_iff fd g)), before)
      ]

nobody-renamed :
    (fd : ℕ) (n : Bytes) (c : ClientInfo) (m : ClientManager)
    → IsWf m
    → Connected m fd c
    → c.is_authenticated ≡ true
    → n ≢ c.nickname
    → ¬ (IsBorne c.nickname (set_nickname fd n m))
nobody-renamed fd n c m w known named other (g, d, h, authentic, same) =
    elim (set_nickname-others fd n c m g d known h) [
      | inl (_, e) ↦ other (sym e ∙ same)
      | inr (ne, before) ↦ ne (w.unique fd g c d known before named authentic (sym same))
    ]

-- An authenticated client, in a manager that is as it should be, is given another nickname. Then no
-- client bears the first one, and it is taken all the same; and both are so when the client has
-- disconnected.
pub renamed_stays_taken :
    (fd : ℕ) (n : Bytes) (c : ClientInfo) (m : ClientManager)
    → IsWf m
    → Connected m fd c
    → c.is_authenticated ≡ true
    → n ≢ c.nickname
    → ¬ (IsBorne c.nickname (set_nickname fd n m))
      × (is_nickname_taken c.nickname (set_nickname fd n m) ≡ true)
      × ¬ (IsBorne c.nickname (remove_client fd (set_nickname fd n m)))
      × (is_nickname_taken c.nickname (remove_client fd (set_nickname fd n m)) ≡ true)
unfolding is_nickname_taken
renamed_stays_taken fd n c m w known named other =
    let (taken, still) = stays_taken fd n c m known (w.registered fd c known named) other in
    let nobody = nobody-renamed fd n c m w known named other in
    (
      nobody,
      taken,
      λ (g, d, h, authentic, same).
          nobody (g, d, removed-Connected fd (set_nickname fd n m) g d h, authentic, same),
      still,
    )
