-- ===== src/Server/Parser/Stream.antt =====
-- The parser on a byte stream: packets come out as they were sent, however the stream is cut.
use cpp_socket_chat.Prelude.{
  ◌+◌, ◌≤◌, ◌≡◌, refl, sym, ◌∙◌, ap, List, [], ◌∷◌, ◌++◌, arith, Bytes, length, length-append,
  length-drop, drop, drop-append, take-append, append_assoc, append-nil, concat,
}
use cpp_socket_chat.Server.Parser.{
  Parsed, waiting, overflow, ntohs, payload_size, packet_size, front_packet, stop, deliver,
  parse_packets, after, feed,
}
use cpp_socket_chat.Server.Parser.Fuel.{parse_packets-ends}
use cpp_socket_chat.Server.Parser.View.{round, incomplete, too_large, whole, rounds_induction}

ntohs-append : (xs ys : Bytes) → 2 ≤ length xs → ntohs (xs ++ ys) ≡ ntohs xs
unfolding ntohs
ntohs-append [] ys h = elim h [ ]
ntohs-append (x ∷ []) ys h = absurd (omega arith)
ntohs-append (x ∷ y ∷ xs) ys h = refl

payload_size-append : (a b : Bytes) → 4 ≤ length a → payload_size (a ++ b) ≡ payload_size a
unfolding payload_size
payload_size-append a b h =
    rw (drop-append 2 a b (omega arith))
      (ntohs-append (drop 2 a) b (omega (arith, length-drop 2 a)))

packet_size-append : (a b : Bytes) → 4 ≤ length a → packet_size (a ++ b) ≡ packet_size a
unfolding packet_size
packet_size-append a b h = ap (λ n. 4 + n) (payload_size-append a b h)

front_packet-append :
    (a b : Bytes) → 4 ≤ length a → packet_size a ≤ length a → front_packet (a ++ b) ≡ front_packet a
unfolding front_packet packet_size
front_packet-append a b h k = rw (
  payload_size-append a b h,
  ntohs-append a b (omega arith),
  drop-append 4 a b h,
  take-append (payload_size a) (drop 4 a) b (omega (arith, length-drop 4 a)),
)

abbrev Appends : Bytes → Type 0
Appends a =
    (b : Bytes)
    → (parse_packets a).status ≡ waiting
    → parse_packets (a ++ b)
      ≡ after (parse_packets a).packets (parse_packets ((parse_packets a).rest ++ b))

whole-append :
    (a b : Bytes)
    → 4 ≤ length a
    → packet_size a ≤ length a
    → packet_size a ≤ 1028
    → parse_packets (a ++ b)
      ≡ deliver (front_packet a) (parse_packets (drop (packet_size a) a ++ b))
whole-append a b long full fits = elim (round (a ++ b)) [
  | incomplete h e ↦ absurd (omega (arith, length-append a b, packet_size-append a b long, h))
  | too_large h k big e ↦ absurd (omega (arith, packet_size-append a b long))
  | whole h k f e ↦ rw (
    e,
    packet_size-append a b long,
    front_packet-append a b long full,
    drop-append (packet_size a) a b full,
  )
]

Appends-step :
    (a : Bytes)
    → (4 ≤ length a → packet_size a ≤ length a → Appends (drop (packet_size a) a))
    → Appends a
Appends-step a ih b = elim (round a) [
  | incomplete h e ↦ rw e (λ w. refl)
  | too_large h k big e ↦ rw e (λ w. cc)
  | whole h k f e ↦ rw e (λ w. whole-append a b h k f ∙ ap (deliver (front_packet a)) (ih h k b w))
]

-- Bytes that come later are parsed as if they had been there from the start.
pub parse_packets-append :
    (a b : Bytes)
    → (parse_packets a).status ≡ waiting
    → parse_packets (a ++ b)
      ≡ after (parse_packets a).packets (parse_packets ((parse_packets a).rest ++ b))
parse_packets-append = rounds_induction Appends Appends-step

abbrev Spreads : Bytes → Type 0
Spreads a =
    (b : Bytes) → (parse_packets a).status ≡ overflow → (parse_packets (a ++ b)).status ≡ overflow

Spreads-step :
    (a : Bytes)
    → (4 ≤ length a → packet_size a ≤ length a → Spreads (drop (packet_size a) a))
    → Spreads a
Spreads-step a ih b = elim (round a) [
  | incomplete h e ↦ rw e (λ w. cc)
  | too_large long full big e ↦ λ w. elim (round (a ++ b)) [
    | incomplete h x ↦ absurd (omega (arith, length-append a b, packet_size-append a b long))
    | too_large h k l x ↦ rw x refl
    | whole h k f x ↦ absurd (omega (arith, packet_size-append a b long))
  ]
  | whole h k f e ↦ rw (e, whole-append a b h k f) (ih h k b)
]

-- A parse that ends well has ended well on every prefix of the stream.
pub waiting-prefix :
    (a b : Bytes) → (parse_packets (a ++ b)).status ≡ waiting → (parse_packets a).status ≡ waiting
waiting-prefix a b h =
    ground (arith, rounds_induction Spreads Spreads-step a b, parse_packets-ends a)

abbrev Settles : Bytes → Type 0
Settles a =
    (parse_packets a).status ≡ waiting
    → parse_packets (parse_packets a).rest ≡ stop (parse_packets a).rest waiting

Settles-step :
    (a : Bytes)
    → (4 ≤ length a → packet_size a ≤ length a → Settles (drop (packet_size a) a))
    → Settles a
Settles-step a ih = elim (round a) [
  | incomplete h e ↦ rw e (λ w. e)
  | too_large h k big e ↦ rw e (λ w. cc)
  | whole h k f e ↦ rw e (ih h k)
]

-- What the parser leaves in the buffer holds no complete packet.
pub rest_settled :
    (a : Bytes)
    → (parse_packets a).status ≡ waiting
    → parse_packets (parse_packets a).rest ≡ stop (parse_packets a).rest waiting
rest_settled = rounds_induction Settles Settles-step

feed-more :
    (buffer chunk : Bytes) (chunks : List Bytes)
    → (parse_packets (buffer ++ chunk)).status ≡ waiting
    → feed buffer (chunk ∷ chunks)
      ≡ after
          (parse_packets (buffer ++ chunk)).packets
          (feed (parse_packets (buffer ++ chunk)).rest chunks)
unfolding feed
feed-more buffer chunk chunks h = ground (arith, h)

-- However a stream without oversized packets is cut into receptions, the same packets come out, in
-- the same order, and the same bytes stay.
pub feed-concat :
    (buffer : Bytes) (chunks : List Bytes)
    → parse_packets buffer ≡ stop buffer waiting
    → (parse_packets (buffer ++ concat chunks)).status ≡ waiting
    → feed buffer chunks ≡ parse_packets (buffer ++ concat chunks)
unfolding feed
feed-concat buffer [] idle h = rw append-nil (sym idle)
feed-concat buffer (chunk ∷ chunks) idle h =
    let joined = sym (append_assoc buffer chunk (concat chunks)) in
    let total = rw joined at h in
    let first = waiting-prefix (buffer ++ chunk) (concat chunks) total in
    let split = parse_packets-append (buffer ++ chunk) (concat chunks) first in
    feed-more buffer chunk chunks first
    ∙ ap (after (parse_packets (buffer ++ chunk)).packets) (
        feed-concat (parse_packets (buffer ++ chunk)).rest chunks
          (rest_settled (buffer ++ chunk) first)
          (sym (ap (λ (r : Parsed). r.status) split) ∙ total))
    ∙ sym split
    ∙ ap parse_packets (append_assoc buffer chunk (concat chunks))
