-- ===== src/Netlink/Batch/Delivery.antt =====
-- Which views reach the callback of NetlinkSocket, source/src/netlink_monitor.cc.
use link_layer_discovery.Base.{
  ℕ, zero, suc, ◌+◌, ◌-◌, ◌^◌, ◌%◌, ◌≤◌, ◌<◌, ◌≡◌, ◌≢◌, ◌⊎◌, refl, inl, inr, true, List, [], ◌∷◌,
  ◌++◌, Option, none, some, arith, length, length-append, append_assoc, drop, length-drop,
  take-append_self, drop-append_self, Option-cases,
}
use link_layer_discovery.Base.Ints.{pos}
use link_layer_discovery.Netlink.{PacketView}
use link_layer_discovery.Netlink.Fields.{read_field, align, read_field-append}
use link_layer_discovery.Netlink.Parse.{packet_view_parser}
use link_layer_discovery.Netlink.Batch.{
  Queue, Extracted, past_end, no_message, message, extract_message_from_buffer, keep_view, deliver,
  deliver_all, recv_netlink_message_batch, call, grow,
}

Extracted-cases :
    (e : Extracted)
    → (e ≡ past_end) ⊎ ((e ≡ no_message) ⊎ ((m : List ℕ) × (rest : List ℕ) × (e ≡ message m rest)))
Extracted-cases past_end = inl refl
Extracted-cases no_message = inr (inl refl)
Extracted-cases (message m rest) = inr (inr (m, rest, refl))

-- A round takes bytes away, unless the length wraps in the alignment.
extract_message_shorter :
    (bytes m rest : List ℕ)
    → length bytes < 2 ^ 32 - 4
    → extract_message_from_buffer bytes ≡ message m rest
    → length rest < length bytes
unfolding extract_message_from_buffer
extract_message_shorter bytes m rest small e = elim (Option-cases (read_field 4 bytes)) [
  | inl r ↦ ground (arith, r)
  | inr ((len, left), r) ↦ ground (arith, r, length-drop (align len) bytes)
]

deliver_fuel :
    (f g : ℕ) (bytes : List ℕ)
    → length bytes < 2 ^ 32 - 4
    → length bytes < f
    → length bytes < g
    → deliver f bytes ≡ deliver g bytes
unfolding deliver
deliver_fuel zero g bytes small p q = absurd (omega arith)
deliver_fuel (suc f) zero bytes small p q = absurd (omega arith)
deliver_fuel (suc f) (suc g) bytes small p q =
    elim (Extracted-cases (extract_message_from_buffer bytes)) [
      | inl e ↦ rw (deliver, e) refl
      | inr (inl e) ↦ rw (deliver, e) refl
      | inr (inr (m, rest, e)) ↦
          let shorter = extract_message_shorter bytes m rest small e in
          let same = deliver_fuel f g rest (omega arith) (omega arith) (omega arith) in
          rw (deliver, e, same) refl
    ]

-- What the loop of Call does, without fuel. Its rounds are finite in number, as those of any proof of it are: it ends
-- where there is no message any more, or where the behaviour is undefined.
pub data Delivers : List ℕ → Option (List PacketView) → Type 0 where
  ends :
      (bytes : List ℕ) → extract_message_from_buffer bytes ≡ no_message → Delivers bytes (some [])
  breaks : (bytes : List ℕ) → extract_message_from_buffer bytes ≡ past_end → Delivers bytes none
  misreads :
      (bytes m rest : List ℕ)
      → extract_message_from_buffer bytes ≡ message m rest
      → packet_view_parser m ≡ none
      → Delivers bytes none
  goes_on :
      (bytes m rest : List ℕ) (v : PacketView) (o : Option (List PacketView))
      → extract_message_from_buffer bytes ≡ message m rest
      → packet_view_parser m ≡ some v
      → Delivers rest o
      → Delivers bytes (keep_view (some v) o)

deliver-Delivers :
    (fuel : ℕ) (bytes : List ℕ)
    → length bytes < 2 ^ 32 - 4
    → length bytes < fuel
    → Delivers bytes (deliver fuel bytes)
unfolding deliver
deliver-Delivers zero bytes small enough = absurd (omega arith)
deliver-Delivers (suc fuel) bytes small enough =
    elim (Extracted-cases (extract_message_from_buffer bytes)) [
      | inl e ↦ rw (deliver, e) (breaks bytes e)
      | inr (inl e) ↦ rw (deliver, e) (ends bytes e)
      | inr (inr (m, rest, e)) ↦
          let shorter = extract_message_shorter bytes m rest small e in
          let further = deliver-Delivers fuel rest (omega arith) (omega arith) in
          elim (Option-cases (packet_view_parser m)) [
            | inl p ↦ rw (deliver, e, p) (unfold keep_view in misreads bytes m rest e p)
            | inr (v, p) ↦
                rw (deliver, e, p) (goes_on bytes m rest v (deliver fuel rest) e p further)
          ]
    ]

-- With a buffer of less than four gigabytes the loop of Call terminates, whatever the buffer holds: after finitely many
-- rounds, each of which takes one message from the front, it is at its end or at undefined behaviour, and what
-- `deliver_all` returns is the outcome of those rounds.
pub deliver_all-Delivers :
    (bytes : List ℕ) → length bytes < 2 ^ 32 - 4 → Delivers bytes (deliver_all bytes)
deliver_all-Delivers bytes small = deliver-Delivers (suc (length bytes)) bytes small (omega arith)

-- Where a message is taken, its view is delivered and the loop goes on with the data that remain.
deliver_step :
    (bytes m rest : List ℕ)
    → length bytes < 2 ^ 32 - 4
    → extract_message_from_buffer bytes ≡ message m rest
    → deliver_all bytes ≡ keep_view (packet_view_parser m) (deliver_all rest)
unfolding deliver
deliver_step bytes m rest small e =
    let shorter = extract_message_shorter bytes m rest small e in
    let same =
      deliver_fuel (length bytes) (suc (length rest)) rest (omega arith) (omega arith)
        (omega arith) in
    ground (arith, e, same)

-- A message as the kernel sends it: its length is that of its header, a multiple of four.
pub record IsMessage (m : List ℕ) : Type 0 where
  pub payload : List ℕ
  pub has_header : 16 ≤ length m
  pub len_field : read_field 4 m ≡ some (length m, payload)
  pub aligned : length m % 4 ≡ 0

extract_message_append :
    (m rest : List ℕ)
    → IsMessage m
    → length m < 2 ^ 32 - 4
    → extract_message_from_buffer (m ++ rest) ≡ message m rest
unfolding extract_message_from_buffer
extract_message_append m rest h small =
    let enough = h.has_header in
    let multiple = h.aligned in
    let same : align (length m) ≡ length m = omega arith in
    ground (
      arith,
      same,
      read_field-append 4 (length m) m h.payload rest h.len_field,
      length-append m rest,
      take-append_self m rest,
      drop-append_self m rest,
    )

-- Every byte is that of a message, and each message is parsed into its view.
abbrev pub concat : List (List ℕ × PacketView) → List ℕ
concat [] = []
concat ((m, v) ∷ ms) = m ++ concat ms

abbrev pub views : List (List ℕ × PacketView) → List PacketView
views [] = []
views ((m, v) ∷ ms) = v ∷ views ms

abbrev pub IsBatch : List (List ℕ × PacketView) → Type 0
IsBatch [] = Unit
IsBatch ((m, v) ∷ ms) = IsMessage m × (packet_view_parser m ≡ some v) × IsBatch ms

deliver_all-concat :
    (ms : List (List ℕ × PacketView)) (tail : List ℕ)
    → IsBatch ms
    → length tail < 16
    → length (concat ms ++ tail) < 2 ^ 32 - 4
    → deliver_all (concat ms ++ tail) ≡ some (views ms)
unfolding keep_view
deliver_all-concat [] tail h short small =
    unfold deliver extract_message_from_buffer in ground arith
deliver_all-concat ((m, v) ∷ ms) tail h short small =
    let rest = concat ms ++ tail in
    let lengths : length (m ++ concat ms ++ tail) ≡ length m + length rest =
      rw append_assoc (length-append m rest) in
    let step : deliver_all (m ++ concat ms ++ tail)
        ≡ keep_view (packet_view_parser m) (deliver_all rest) =
      rw append_assoc (
        deliver_step (m ++ rest) m rest (omega (arith, length-append m rest))
          (extract_message_append m rest h.0 (omega arith))) in
    rw (step, h.1, deliver_all-concat ms tail h.2 short (omega arith), keep_view) refl

-- The kernel's answers for one datagram in the queue: the peek tells its length, and a read copies it, with
-- the pid of the sender.
pub record Holds (queue : Queue) (pid : ℕ) (datagram : List ℕ) : Type 0 where
  pub is_open : queue.is_valid ≡ true
  pub peeks : queue.peek ≡ pos (length datagram)
  pub receives : queue.receive (length datagram) ≡ (pos (length datagram), pid, datagram)

receive_datagram :
    (queue : Queue) (datagram : List ℕ)
    → Holds queue 0 datagram
    → recv_netlink_message_batch queue [] ≡ datagram
unfolding recv_netlink_message_batch
receive_datagram queue [] h = ground (arith, h.is_open, h.peeks)
receive_datagram queue (b ∷ bs) h =
    let behind = drop (length (b ∷ bs)) (grow (length (b ∷ bs)) []) in
    rw (h.is_open, h.peeks, h.receives) (ground (arith, take-append_self (b ∷ bs) behind))

-- Where the kernel's datagram has whole messages, with less than a header behind them, each message is
-- parsed and its view handed to the callback, in order and once.
pub call-concat :
    (queue : Queue) (ms : List (List ℕ × PacketView)) (tail : List ℕ)
    → Holds queue 0 (concat ms ++ tail)
    → IsBatch ms
    → length tail < 16
    → length (concat ms ++ tail) < 2 ^ 32 - 4
    → call true queue ≡ some (views ms)
unfolding call
call-concat queue ms tail holds h short small =
    rw (receive_datagram queue (concat ms ++ tail) holds) (deliver_all-concat ms tail h short small)

-- A datagram that did not come from the kernel is read and dropped.
pub call_foreign :
    (queue : Queue) (pid : ℕ) (datagram : List ℕ)
    → Holds queue pid datagram
    → pid ≢ 0
    → call true queue ≡ some []
unfolding call recv_netlink_message_batch
call_foreign queue pid [] h foreign =
    unfold deliver extract_message_from_buffer in ground (arith, h.is_open, h.peeks)
call_foreign queue pid (b ∷ bs) h foreign =
    unfold deliver extract_message_from_buffer in ground (arith, h.is_open, h.peeks, h.receives)

unaligned_undefined :
    (bytes payload : List ℕ)
    → 16 ≤ length bytes
    → length bytes < 2 ^ 32 - 4
    → read_field 4 bytes ≡ some (length bytes, payload)
    → length bytes % 4 ≢ 0
    → deliver_all bytes ≡ none
unfolding deliver extract_message_from_buffer
unaligned_undefined bytes payload enough small len unaligned = ground (arith, len)

batch_undefined :
    (ms : List (List ℕ × PacketView)) (last : List ℕ)
    → IsBatch ms
    → deliver_all last ≡ none
    → length (concat ms ++ last) < 2 ^ 32 - 4
    → deliver_all (concat ms ++ last) ≡ none
unfolding keep_view
batch_undefined [] last h undefined small = undefined
batch_undefined ((m, v) ∷ ms) last h undefined small =
    let rest = concat ms ++ last in
    let lengths : length (m ++ concat ms ++ last) ≡ length m + length rest =
      rw append_assoc (length-append m rest) in
    let step : deliver_all (m ++ concat ms ++ last)
        ≡ keep_view (packet_view_parser m) (deliver_all rest) =
      rw append_assoc (
        deliver_step (m ++ rest) m rest (omega (arith, length-append m rest))
          (extract_message_append m rest h.0 (omega arith))) in
    rw (step, h.1, batch_undefined ms last h.2 undefined (omega arith), keep_view) refl

-- Where the kernel's datagram of less than four gigabytes has any number of whole messages that are parsed, and then a last one
-- whose length, as its header says it, is not a multiple of four, Call is undefined: the last message is cut out
-- by its aligned length, which is past the end of the data.
pub call_unaligned :
    (queue : Queue) (ms : List (List ℕ × PacketView)) (last payload : List ℕ)
    → Holds queue 0 (concat ms ++ last)
    → IsBatch ms
    → 16 ≤ length last
    → read_field 4 last ≡ some (length last, payload)
    → length last % 4 ≢ 0
    → length (concat ms ++ last) < 2 ^ 32 - 4
    → call true queue ≡ none
unfolding call
call_unaligned queue ms last payload holds h enough len unaligned small =
    let short : length last < 2 ^ 32 - 4 = omega (arith, length-append (concat ms) last) in
    let end = unaligned_undefined last payload enough short len unaligned in
    rw (receive_datagram queue (concat ms ++ last) holds) (batch_undefined ms last h end small)
