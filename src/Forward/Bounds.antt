-- ===== src/Forward/Bounds.antt =====
-- What the forwarder holds between two packets, and how long the datagrams are that it sends on.
use data_diode.Prelude.{
  ℕ, ◌+◌, ◌-◌, ◌%◌, ◌^◌, ◌≤◌, ◌<◌, true, not, List, [], ◌∷◌, ◌++◌, ◌≢◌, inl, inr, Option, none,
  some, ◌≡◌, refl, ap, arith, Bytes, length, length-append, take, All, All-append, ◌==◌,
  beq_bytes_sound, Bool-cases, both_branches,
}
use data_diode.Decimal.{max_u64, parse_utf8}
use data_diode.Proto.{udp_max_forward_bytes}
use data_diode.Receive.Packet.{Packet}
use data_diode.Forward.{
  UdpForwardState, new_forward_state, reset, Forwarded, forward_if_complete, same_id, is_busy,
  first_fragment_fits, start_flow, next_fragment_fits, continue_flow, forward_fragment,
  forward_packet, sent, forward_all,
}

-- A flow in flight has some of its bytes and lacks some; without a flow there are no bytes.
pub record IsFlow (fwd : UdpForwardState) : Type 0 where
  pub begun : fwd.current_id ≢ none → 1 ≤ length fwd.full_packet
  pub unfinished : fwd.current_id ≢ none → length fwd.full_packet < fwd.expected_size
  pub bounded : fwd.expected_size ≤ udp_max_forward_bytes
  pub empty : fwd.current_id ≡ none → (fwd.full_packet ≡ []) × (fwd.expected_size ≡ 0)

abbrev pub IsBounded : Bytes → Type 0
IsBounded datagram = (1 ≤ length datagram) × (length datagram ≤ udp_max_forward_bytes)

-- The state is sound and what is sent on has a permitted length.
abbrev Good : Forwarded → Type 0
Good (none, fwd) = IsFlow fwd
Good (some datagram, fwd) = IsBounded datagram × IsFlow fwd

reset-IsFlow : (fwd : UdpForwardState) → IsFlow (reset fwd)
unfolding reset
reset-IsFlow fwd = record {
  begun = λ h. absurd (h refl);
  unfinished = λ h. absurd (h refl);
  bounded = omega arith;
  empty = λ _. (refl, refl);
}

forward_if_complete-Good :
    (fwd : UdpForwardState) (id : Bytes)
    → fwd.current_id ≡ some id
    → 1 ≤ length fwd.full_packet
    → length fwd.full_packet ≤ fwd.expected_size
    → fwd.expected_size ≤ udp_max_forward_bytes
    → Good (forward_if_complete fwd)
unfolding forward_if_complete
forward_if_complete-Good fwd id active some_bytes fits bounded =
    elim (Bool-cases (length fwd.full_packet == fwd.expected_size)) [
      | inl e ↦ rw e ((some_bytes, omega arith), reset-IsFlow fwd)
      | inr e ↦
          let less : length fwd.full_packet < fwd.expected_size = ground arith in
          rw e (record {
            begun = λ _. some_bytes;
            unfinished = λ _. less;
            bounded = bounded;
            empty = λ n. cc;
          })
    ]

first_fragment_facts :
    (content : Bytes) (size : ℕ)
    → first_fragment_fits content size ≡ true
    → (1 ≤ length content) × (length content ≤ size) × (size ≤ udp_max_forward_bytes)
unfolding first_fragment_fits
first_fragment_facts content size h = ground arith

next_fragment_facts :
    (content : Bytes) (remaining : ℕ)
    → next_fragment_fits content remaining ≡ true
    → (1 ≤ length content) × (length content ≤ remaining)
unfolding next_fragment_fits
next_fragment_facts content remaining h = ground arith

same_id_facts :
    (current : Option Bytes) (id : Bytes) → same_id current id ≡ true → current ≡ some id
same_id_facts none id h = cc
same_id_facts (some c) id h = ap some (beq_bytes_sound c id h)

start_flow-Good :
    (fwd : UdpForwardState) (now : ℕ) (id : Bytes) (size : ℕ) (content : Bytes)
    → IsFlow fwd
    → Good (start_flow fwd now id size content)
unfolding start_flow
start_flow-Good fwd now id size content v = elim (Bool-cases (first_fragment_fits content size)) [
  | inr e ↦ rw e v
  | inl e ↦
      let (some_bytes, fits, bounded) = first_fragment_facts content size e in
      rw e (
        both_branches Good (is_busy fwd id now) v (
          forward_if_complete-Good
            (record fwd {
              current_id = some id;
              full_packet = content;
              previous_count = 0;
              expected_size = size;
              last_activity = now;
            })
            id refl some_bytes fits bounded))
]

continue_flow-Good :
    (fwd : UdpForwardState) (now : ℕ) (id : Bytes) (size count : ℕ) (content : Bytes)
    → IsFlow fwd
    → Good (continue_flow fwd now id size count content)
unfolding continue_flow
continue_flow-Good fwd now id size count content v = elim (Bool-cases (same_id fwd.current_id id)) [
  | inr e ↦ rw e v
  | inl e ↦
      let active = same_id_facts fwd.current_id id e in
      let less = v.unfinished (λ n. cc) in
      let remaining = fwd.expected_size - length fwd.full_packet in
      rw e (
        both_branches Good (not (count == (fwd.previous_count + 1) % 2 ^ 64)) v (
          both_branches Good (not (size == fwd.expected_size)) v
            (elim (Bool-cases (next_fragment_fits content remaining)) [
              | inr f ↦ rw f (reset-IsFlow fwd)
              | inl f ↦
                  let (some_bytes, fits) = next_fragment_facts content remaining f in
                  rw f (
                    forward_if_complete-Good
                      (record fwd {
                        full_packet = fwd.full_packet ++ content;
                        previous_count = count;
                        last_activity = now;
                      })
                      id active (omega (arith, length-append fwd.full_packet content))
                      (omega (arith, length-append fwd.full_packet content, less)) v.bounded)
            ])))
]

forward_fragment-Good :
    (size : Option ℕ) (fwd : UdpForwardState) (now : ℕ) (packet : Packet)
    → IsFlow fwd
    → Good (forward_fragment size fwd now packet)
unfolding forward_fragment
forward_fragment-Good none fwd now packet v = v
forward_fragment-Good (some size) fwd now packet v =
    both_branches Good (packet.count == 0)
      (start_flow-Good fwd now (take 8 packet.data_hash) size packet.content v)
      (continue_flow-Good fwd now (take 8 packet.data_hash) size packet.count packet.content v)

forward_packet-Good :
    (fwd : UdpForwardState) (p : ℕ × Packet) → IsFlow fwd → Good (forward_packet fwd p)
unfolding forward_packet
forward_packet-Good fwd (now, packet) v =
    forward_fragment-Good (parse_utf8 max_u64 packet.path_hash) fwd now packet v

sent-IsBounded : (f : Forwarded) → Good f → All IsBounded (sent f.0) × IsFlow f.1
sent-IsBounded (none, fwd) g = (tt, g)
sent-IsBounded (some datagram, fwd) (b, g) = ((b, tt), g)

forward_all-Good :
    (ps : List (ℕ × Packet)) (fwd : UdpForwardState)
    → IsFlow fwd
    → All IsBounded (forward_all fwd ps).0 × IsFlow (forward_all fwd ps).1
unfolding forward_all
forward_all-Good [] fwd v = (tt, v)
forward_all-Good (p ∷ ps) fwd v =
    let f = forward_packet fwd p in
    let (now, sound) = sent-IsBounded f (forward_packet-Good fwd p v) in
    let (later, end) = forward_all-Good ps f.1 sound in
    (All-append IsBounded (sent f.0) (forward_all f.1 ps).0 now later, end)

-- Whatever packets the forwarder is given, and whenever they come, every datagram that it sends on
-- has at least one byte and at most 4 MiB, and a flow that is left in flight still lacks bytes of
-- a size of at most 4 MiB.
pub forward_all_bounded :
    (start : ℕ) (ps : List (ℕ × Packet))
    → let f = forward_all (new_forward_state start) ps in
      All (λ datagram. (1 ≤ length datagram) × (length datagram ≤ udp_max_forward_bytes)) f.0
      × (f.1.current_id ≢ none → length f.1.full_packet < f.1.expected_size)
      × (f.1.expected_size ≤ udp_max_forward_bytes)
forward_all_bounded start ps =
    let (bounded, sound) = forward_all-Good ps (new_forward_state start) (record {
      begun = λ h. absurd (h refl);
      unfinished = λ h. absurd (h refl);
      bounded = omega arith;
      empty = λ _. (refl, refl);
    }) in
    (bounded, sound.unfinished, sound.bounded)
