-- ===== src/Server/Clients/Names.antt =====
-- Nicknames: what the manager keeps true of them.
use cpp_socket_chat.Prelude.{
  ℕ, true, false, none, some, Bytes, ◌≡◌, refl, sym, ap, ◌∙◌, inl, inr, arith, ==_iff, ==_refl,
  nat_eq, bytes_eq, Option-cases,
}
use cpp_socket_chat.Map.{
  UniqueKeys, lookup, adjust, lookup-insert, lookup-erase, lookup-adjust, lookup-adjust_cases,
  lookup-erase_cases, lookup-adjust_cases, insert-UniqueKeys, erase-UniqueKeys, adjust-UniqueKeys,
}
use cpp_socket_chat.Members.{member}
use cpp_socket_chat.Members.Laws.{member-add, member-remove}
use cpp_socket_chat.Server.Clients.{
  ClientInfo, ClientManager, fresh_client, add_client, remove_client, remove_found,
  is_nickname_taken, set_nickname, set_found, set_room_code, set_recv_buffer,
}

abbrev pub Connected : ClientManager → ℕ → ClientInfo → Type 0
Connected m fd c = lookup fd m.clients ≡ some c

-- A client's entry is under its descriptor; the nickname of an authenticated client is registered,
-- and is no other authenticated client's.
pub record IsWf (m : ClientManager) : Type 0 where
  pub keys : UniqueKeys m.clients
  pub keyed : (fd : ℕ) (c : ClientInfo) → Connected m fd c → c.fd ≡ fd
  pub registered :
      (fd : ℕ) (c : ClientInfo)
      → Connected m fd c
      → c.is_authenticated ≡ true
      → member c.nickname m.nicknames ≡ true
  pub unique :
      (f g : ℕ) (c d : ClientInfo)
      → Connected m f c
      → Connected m g d
      → c.is_authenticated ≡ true
      → d.is_authenticated ≡ true
      → c.nickname ≡ d.nickname
      → f ≡ g

pub add_client-IsWf : (fd : ℕ) (ip : Bytes) (m : ClientManager) → IsWf m → IsWf (add_client fd ip m)
unfolding add_client
add_client-IsWf fd ip m w = record {
  keys = insert-UniqueKeys fd (fresh_client fd ip) m.clients w.keys;
  keyed = λ j c h. ground (arith, lookup-insert fd j (fresh_client fd ip) m.clients, w.keyed j c);
  registered = λ j c h a.
      ground (arith, lookup-insert fd j (fresh_client fd ip) m.clients, w.registered j c);
  unique = λ f g c d hc hd ac ad e. ground (
    arith,
    lookup-insert fd f (fresh_client fd ip) m.clients,
    lookup-insert fd g (fresh_client fd ip) m.clients,
    w.unique f g c d,
  );
}

remove_found-IsWf :
    (fd : ℕ) (c : ClientInfo) (m : ClientManager)
    → Connected m fd c
    → IsWf m
    → IsWf (remove_found fd (some c) m)
unfolding remove_found
remove_found-IsWf fd c m found w = record {
  keys = erase-UniqueKeys fd m.clients w.keys;
  keyed = λ j d h. ground (arith, lookup-erase fd j m.clients, w.keyed j d);
  registered = λ j d h a. ground (
    arith,
    lookup-erase fd j m.clients,
    w.registered j d,
    w.unique fd j c d,
    member-remove c.nickname d.nickname m.nicknames,
    ==_iff c.nickname d.nickname,
  );
  unique = λ f g d x hd hx ad ax e.
      ground (arith, lookup-erase fd f m.clients, lookup-erase fd g m.clients, w.unique f g d x);
}

-- Removing a client keeps the manager as it should be: the nickname of each authenticated client is
-- registered, and is no other authenticated client's.
pub remove_client-IsWf : (fd : ℕ) (m : ClientManager) → IsWf m → IsWf (remove_client fd m)
unfolding remove_client
remove_client-IsWf fd m w = elim (Option-cases (lookup fd m.clients)) [
  | inl e ↦ rw e w
  | inr (c, e) ↦ rw e (remove_found-IsWf fd c m e w)
]

abbrev named : Bytes → ClientInfo → ClientInfo
named n c = record c { nickname = n; is_authenticated = true }

set_found-IsWf :
    (fd : ℕ) (n : Bytes) (c : ClientInfo) (m : ClientManager)
    → Connected m fd c
    → is_nickname_taken n m ≡ false
    → IsWf m
    → IsWf (set_found fd n (some c) m)
unfolding set_found is_nickname_taken
set_found-IsWf fd n c m found fresh w = record {
  keys = adjust-UniqueKeys fd (named n) m.clients w.keys;
  keyed =
      λ j d h. ground (arith, lookup-adjust fd j (named n) m.clients, w.keyed fd c, w.keyed j d);
  registered = λ j d h a. ground (
    arith,
    lookup-adjust fd j (named n) m.clients,
    w.registered j d,
    member-add n d.nickname m.nicknames,
    ==_iff n d.nickname,
  );
  unique = λ f g d x hd hx ad ax e. ground (
    arith,
    lookup-adjust fd f (named n) m.clients,
    lookup-adjust fd g (named n) m.clients,
    w.registered f d,
    w.registered g x,
    w.unique f g d x,
  );
}

-- Giving a client a nickname that is not taken keeps the manager as it should be.
pub set_nickname-IsWf :
    (fd : ℕ) (n : Bytes) (m : ClientManager)
    → is_nickname_taken n m ≡ false
    → IsWf m
    → IsWf (set_nickname fd n m)
unfolding set_nickname
set_nickname-IsWf fd n m fresh w = elim (Option-cases (lookup fd m.clients)) [
  | inl e ↦ rw (e, set_found) w
  | inr (c, e) ↦ rw e (set_found-IsWf fd n c m e fresh w)
]

-- A write to one entry that touches neither the descriptor nor the nickname.
module _ (f : ClientInfo → ClientInfo) (same_fd : (c : ClientInfo) → (f c).fd ≡ c.fd)
    (same_name : (c : ClientInfo) → (f c).nickname ≡ c.nickname)
    (same_auth : (c : ClientInfo) → (f c).is_authenticated ≡ c.is_authenticated) where
  -- An entry after the write is that of some client before it, up to what the write touches.
  before :
      (fd j : ℕ) (d : ClientInfo) (m : ClientManager)
      → lookup j (adjust fd f m.clients) ≡ some d
      → (c : ClientInfo) × Connected m j c
        × (d.fd ≡ c.fd)
        × (d.nickname ≡ c.nickname)
        × (d.is_authenticated ≡ c.is_authenticated)
  before fd j d m h = elim (Option-cases (lookup j m.clients)) [
    | inl e ↦ absurd (ground (arith, lookup-adjust fd j f m.clients))
    | inr (c, e) ↦ (
      c,
      e,
      ground (arith, lookup-adjust fd j f m.clients, same_fd c),
      ground (arith, lookup-adjust fd j f m.clients, same_name c),
      ground (arith, lookup-adjust fd j f m.clients, same_auth c),
    )
  ]

  adjust-IsWf :
      (fd : ℕ) (m : ClientManager) → IsWf m → IsWf (record m { clients = adjust fd f m.clients })
  adjust-IsWf fd m w = record {
    keys = adjust-UniqueKeys fd f m.clients w.keys;
    keyed = λ j d h. let b = before fd j d m h in b.2 ∙ w.keyed j b.0 b.1;
    registered = λ j d h a. let b = before fd j d m h in ground (arith, b, w.registered j b.0 b.1);
    unique = λ g k d x hd hx ad ax e.
        let b = before fd g d m hd in
        let b' = before fd k x m hx in
        w.unique g k b.0 b'.0 b.1 b'.1 (sym b.4 ∙ ad) (sym b'.4 ∙ ax) (sym b.3 ∙ e ∙ b'.3);
  }

-- The other writes touch neither nicknames nor descriptors.
pub set_room_code-IsWf :
    (fd : ℕ) (code : Bytes) (m : ClientManager) → IsWf m → IsWf (set_room_code fd code m)
unfolding set_room_code
set_room_code-IsWf fd code m =
    adjust-IsWf (λ c. record c { room_code = code }) (λ c. refl) (λ c. refl) (λ c. refl) fd m

pub set_recv_buffer-IsWf :
    (fd : ℕ) (buffer : Bytes) (m : ClientManager) → IsWf m → IsWf (set_recv_buffer fd buffer m)
unfolding set_recv_buffer
set_recv_buffer-IsWf fd buffer m =
    adjust-IsWf (λ c. record c { recv_buffer = buffer }) (λ c. refl) (λ c. refl) (λ c. refl) fd m

-- A nickname does not move anybody.
pub set_nickname-room_code :
    (fd : ℕ) (n : Bytes) (m : ClientManager) (j : ℕ) (d : ClientInfo)
    → Connected (set_nickname fd n m) j d
    → (c : ClientInfo) × Connected m j c × (d.room_code ≡ c.room_code)
unfolding set_nickname
set_nickname-room_code fd n m j d = elim (Option-cases (lookup fd m.clients)) [
  | inl e ↦ rw (e, set_found) (λ h. (d, h, refl))
  | inr (c, e) ↦
      rw (e, set_found)
        (λ h. elim (lookup-adjust_cases fd j _ m.clients d h) [
          | inl (v, same, before, x) ↦ (v, before, ap (λ (y : ClientInfo). y.room_code) x)
          | inr (other, before) ↦ (d, before, refl)
        ])
]

-- Who is connected behind a disconnection was before it.
pub removed-Connected :
    (fd : ℕ) (m : ClientManager) (j : ℕ) (d : ClientInfo)
    → Connected (remove_client fd m) j d
    → Connected m j d
unfolding remove_client remove_found
removed-Connected fd m j d = elim (Option-cases (lookup fd m.clients)) [
  | inl e ↦ rw (e, remove_found) (λ h. h)
  | inr (c, e) ↦ rw (e, remove_found) (λ h. (lookup-erase_cases fd j m.clients d h).1)
]

-- A client who disconnected is unknown.
pub removed-unknown : (fd : ℕ) (m : ClientManager) → lookup fd (remove_client fd m).clients ≡ none
unfolding remove_client remove_found
removed-unknown fd m = elim (Option-cases (lookup fd m.clients)) [
  | inl e ↦ rw (e, remove_found) e
  | inr (c, e) ↦ rw (e, remove_found) (ground (arith, lookup-erase fd fd m.clients, ==_refl fd))
]
