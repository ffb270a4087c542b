-- ===== src/Server/Room/Limit.antt =====
-- The limit of a room, an `int` that is compared with an unsigned size.
use cpp_socket_chat.Prelude.{ℕ, ◌<◌, ◌^◌, ◌≡◌, ◌≢◌, arith, pos, negsuc, length, nat_eq}
use cpp_socket_chat.Server.Room.{Room, room_full, accept_new_user}

-- A room whose limit is a negative `int` is never full, with fewer than 2 ^ 63 members.
pub negative_limit :
    (fd n : ℕ) (r : Room)
    → r.max_user_cnt ≡ negsuc n
    → n < 2 ^ 31
    → length r.clients < 2 ^ 63
    → (accept_new_user fd r).0 ≢ room_full
unfolding accept_new_user
negative_limit fd n r limit range few = ground (arith, limit)

-- A room with the limit 0 lets nobody in.
pub zero_limit : (fd : ℕ) (r : Room) → r.max_user_cnt ≡ pos 0 → (accept_new_user fd r).0 ≡ room_full
unfolding accept_new_user
zero_limit fd r limit = ground (arith, limit)
