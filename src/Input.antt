-- ===== src/Input.antt =====
-- src/input.c: what the descriptors have to be read, packets and commands. `select` and `read` are
-- the kernel's: what they give is an argument.
pub mod Receive
use netemul.Base.{
  ℕ, zero, suc, ◌+◌, ◌-◌, ◌%◌, ◌^◌, Bool, true, false, Option, none, some, List, [], ◌∷◌,
  if◌then◌else◌, ltb, leb, ◌==◌, length, get_elem?,
}
use netemul.Node.{Ptr}
use netemul.Env.{Env}
use netemul.World.{Packet}
use netemul.World.Run.{
  Cmd, pure, ◌>>=◌, ◌>>◌, fails, exited, out_of_fuel, deref, world, load_packet, store_packet,
  free_packet, malloc,
}
use netemul.Component.{network_process}
use netemul.Switch.{slack}
use netemul.Composite.{destroy_one}
use netemul.Interface.{load_ni}
use netemul.Manager.{fd_add}

-- `PACKET_BUF_SIZE + (ALIGN - 1)` bytes are allocated for a buffer. `ALIGN` is defined as nothing,
-- so that `(ALIGN - 1)` is -1.
abbrev pub packet_buf_size : ℕ
packet_buf_size = 2048

abbrev pub allocated_size : ℕ
allocated_size = packet_buf_size - 1

-- `((address + (ALIGN - 1)) & ~(ALIGN - 1)) - address`, stored in 16 bits: the mask is 0.
abbrev pub aligned_start : ℕ → ℕ
aligned_start address = (2 ^ 64 - address % 2 ^ 64) % 2 ^ 16

-- A byte of what was read; what is not written reads as zero.
abbrev pub byte_at : List ℕ → ℕ → ℕ
byte_at [] i = 0
byte_at (b ∷ bs) zero = b
byte_at (b ∷ bs) (suc i) = byte_at bs i

-- A packet before and after the bytes were read.
abbrev pub blank_packet : ℕ → Packet
blank_packet start = record {
  start = start;
  end = 0;
  size = 0;
  capacity = allocated_size + slack;
  buffer = λ i. 0;
}

abbrev pub read_packet : ℕ → List ℕ → Packet
read_packet start received = record {
  start = start;
  end = (start + length received) % 2 ^ 16;
  size = 0;
  capacity = allocated_size + slack;
  buffer = λ i. if ltb i start then 0 else byte_at received (i - start);
}

-- Do the bytes stay within the buffer?
abbrev pub fits_buffer : ℕ → List ℕ → Bool
fits_buffer start received = leb (start + length received) allocated_size

module _ (e : Env) where
  -- The port's packet, by what `read` gives: `none` is an error, for which the port is destroyed.
  unfoldable pub read_into : Ptr → Ptr → Option (List ℕ) → Cmd (Unit {0})
  unfolding load_packet store_packet free_packet destroy_one network_process
  read_into port packet none = do destroy_one e port; free_packet packet
  read_into port packet (some received) = do
    p ← load_packet packet
    if fits_buffer p.start received then pure tt else fails
    store_packet packet (read_packet p.start received)
    network_process e port packet

  -- The branch for a packet; without memory it is not read.
  unfoldable pub receive : ℕ → Option (List ℕ) → Cmd (Unit {0})
  unfolding malloc load_ni store_packet read_into
  receive fd received = do
    m ← malloc e
    elim m [
      | none ↦ pure tt
      | some packet ↦ (do
        store_packet packet (blank_packet (aligned_start (e.buffer_address packet)))
        w ← world
        ni ← deref (w.manager.nis fd)
        n ← load_ni ni
        read_into n.port packet received)
    ]

  -- `list_get`, whose `NULL` is the descriptor 0.
  abbrev pub fd_at : Option ℕ → ℕ
  fd_at none = 0
  fd_at (some fd) = fd

  -- What `select` finds ready, and what a descriptor has then.
  module _ (commands : Cmd (Unit {0})) (ready : ℕ → Bool) (received : ℕ → Option (List ℕ)) where
    unfoldable pub serve : ℕ → Cmd (Unit {0})
    unfolding receive
    serve fd =
        if ready fd then (if fd == 0 then commands else receive fd (received fd)) else pure tt

    -- The loop over the descriptors: their count is read again in each round.
    unfoldable pub input_loop : ℕ → ℕ → Cmd (Unit {0})
    unfolding serve
    input_loop zero i = λ w. out_of_fuel
    input_loop (suc fuel) i = do
      w ← world
      if ltb i w.manager.fd_count
          then (do serve (fd_at (get_elem? w.manager.fds i)); input_loop fuel (i + 1))
          else pure tt

    -- `input_process`; `select` fails, or finds how many descriptors are ready.
    unfoldable pub input_process : ℕ → Option ℕ → Cmd Bool
    unfolding input_loop
    input_process fuel none = λ w. exited 255
    input_process fuel (some zero) = pure true
    input_process fuel (some (suc n)) = do input_loop fuel 0; pure true

  -- `input_init`
  unfoldable pub input_init : Cmd Bool
  unfolding fd_add
  input_init = fd_add e 0
