-- ===== src/Server/Parser/View.antt =====
-- The three ways in which a round of the parser's loop can go, with the equation for each, and the
-- induction on the rounds.
use cpp_socket_chat.Prelude.{
  ℕ, zero, suc, ◌≤◌, ◌<◌, ◌≡◌, ◌⊎◌, inl, inr, Bytes, arith, length, length-drop, drop, ltb,
  Bool-cases, not-ltb→le, ltb→lt,
}
use cpp_socket_chat.Server.Parser.{
  waiting, overflow, packet_size, front_packet, stop, deliver, parse_packets,
}
use cpp_socket_chat.Server.Parser.Fuel.{parse_packets_lem}

pub data Round (a : Bytes) : Type 0 where
  incomplete :
      (length a < 4) ⊎ (length a < packet_size a) → parse_packets a ≡ stop a waiting → Round a
  too_large :
      4 ≤ length a
      → packet_size a ≤ length a
      → 1028 < packet_size a
      → parse_packets a ≡ stop a overflow
      → Round a
  whole :
      4 ≤ length a
      → packet_size a ≤ length a
      → packet_size a ≤ 1028
      → parse_packets a ≡ deliver (front_packet a) (parse_packets (drop (packet_size a) a))
      → Round a

pub round : (a : Bytes) → Round a
round a = elim (Bool-cases (ltb (length a) 4)) [
  | inl short ↦ incomplete (inl (ltb→lt _ _ short)) (rw (parse_packets_lem, short))
  | inr long ↦ elim (Bool-cases (ltb (length a) (packet_size a))) [
    | inl part ↦ incomplete (inr (ltb→lt _ _ part)) (rw (parse_packets_lem, long, part))
    | inr full ↦ elim (Bool-cases (ltb 1028 (packet_size a))) [
      | inl big ↦
          too_large (not-ltb→le _ _ long) (not-ltb→le _ _ full) (ltb→lt _ _ big)
            (rw (parse_packets_lem, long, full, big))
      | inr fits ↦
          whole (not-ltb→le _ _ long) (not-ltb→le _ _ full) (not-ltb→le _ _ fits)
            (rw (parse_packets_lem a, long, full, fits))
    ]
  ]
]

shorter-drop :
    (n : ℕ) (a : Bytes) → length a < suc n → 4 ≤ length a → length (drop (packet_size a) a) < n
unfolding packet_size
shorter-drop n a h long = omega (arith, length-drop (packet_size a) a)

-- What holds of a buffer if it holds of what each round leaves of it.
module _ {ℓ} (P : Bytes → Type ℓ)
    (step : (a : Bytes)
      → (4 ≤ length a → packet_size a ≤ length a → P (drop (packet_size a) a))
      → P a) where
  bounded_induction : (n : ℕ) (a : Bytes) → length a < n → P a
  bounded_induction zero a h = elim h [ ]
  bounded_induction (suc n) a h =
      step a (λ long full. bounded_induction n _ (shorter-drop n a h long))

  pub rounds_induction : (a : Bytes) → P a
  rounds_induction a = bounded_induction (suc (length a)) a (omega arith)
