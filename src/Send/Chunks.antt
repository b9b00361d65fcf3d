-- ===== src/Send/Chunks.antt =====
-- `data.chunks(CHUNK_SIZE)` of `spawn_udp_forwarder` cuts a datagram without loss.
use data_diode.Prelude.{
  ℕ, zero, suc, ◌≤◌, List, [], ◌∷◌, ◌++◌, ◌≡◌, refl, arith, Bytes, length, drop, length-take,
  length-drop, take-append-drop, All,
}
use data_diode.Proto.{chunk_size}
use data_diode.Send.{chunks_within}

-- The pieces put together again.
abbrev pub joined : List Bytes → Bytes
joined [] = []
joined (c ∷ cs) = c ++ joined cs

-- A fragment's payload, as the receiver wants it.
abbrev pub FitsChunk : Bytes → Type 0
FitsChunk c = (1 ≤ length c) × (length c ≤ chunk_size)

pub joined-chunks_within :
    (rounds : ℕ) (datagram : Bytes)
    → length datagram ≤ rounds
    → joined (chunks_within rounds datagram) ≡ datagram
unfolding chunks_within
joined-chunks_within zero [] h = refl
joined-chunks_within zero (b ∷ datagram) h = absurd (omega arith)
joined-chunks_within (suc rounds) [] h = refl
joined-chunks_within (suc rounds) (b ∷ datagram) h =
    rw
      (joined-chunks_within rounds (drop chunk_size (b ∷ datagram))
        (omega (arith, length-drop chunk_size (b ∷ datagram))))
      (take-append-drop chunk_size (b ∷ datagram))

pub chunks_within-FitsChunk :
    (rounds : ℕ) (datagram : Bytes) → All FitsChunk (chunks_within rounds datagram)
unfolding chunks_within
chunks_within-FitsChunk zero datagram = tt
chunks_within-FitsChunk (suc rounds) [] = tt
chunks_within-FitsChunk (suc rounds) (b ∷ datagram) = (
  (
    omega (arith, length-take chunk_size (b ∷ datagram)),
    omega (arith, length-take chunk_size (b ∷ datagram)),
  ),
  chunks_within-FitsChunk rounds (drop chunk_size (b ∷ datagram)),
)

pub length-chunks_within :
    (rounds : ℕ) (datagram : Bytes) → length (chunks_within rounds datagram) ≤ length datagram
unfolding chunks_within
length-chunks_within zero datagram = omega arith
length-chunks_within (suc rounds) [] = omega arith
length-chunks_within (suc rounds) (b ∷ datagram) = omega (
  arith,
  length-drop chunk_size (b ∷ datagram),
  length-chunks_within rounds (drop chunk_size (b ∷ datagram)),
)
