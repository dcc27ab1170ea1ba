-- ===== src/Netlink/Reader/Wiring.antt =====
-- DeviceReader and IpReader as objects, source/include/device_reader.hh and source/include/ip_reader.hh: which reader the
-- callback of a socket goes to, over constructions, moves and destructions. Readers and sockets are
-- numbered; a socket goes with the reader that holds it.
pub mod Bound
pub mod Lifetime
use link_layer_discovery.Base.{ℕ, Option, none, some}
use link_layer_discovery.Base.Ints.{ℤ, negsuc}
use link_layer_discovery.Base.Store.{put}

-- The fields of a reader; a callback is the number of the repository that it goes to.
pub record ReaderObject : Type 0 where
  pub socket : Option ℕ
  pub sequence_number : Option ℕ
  pub timeout : ℤ
  pub update_callback : Option ℕ
  pub end_of_dump_callback : Option ℕ
  pub dump_errored_callback : Option ℕ

-- The readers that there are, and the reader in the callback of each socket.
pub record Wires : Type 0 where
  pub readers : ℕ → Option ReaderObject
  pub callbacks : ℕ → Option ℕ

-- BindReaderSocketCallback
unfoldable pub bind_reader_socket_callback : ℕ → Option ℕ → (ℕ → Option ℕ) → ℕ → Option ℕ
bind_reader_socket_callback i none callbacks = callbacks
bind_reader_socket_callback i (some s) callbacks = put s (some i) callbacks

-- ClearCallback, where there is a socket; and what becomes of the callback of a socket that is let go.
unfoldable pub clear_callback : Option ℕ → (ℕ → Option ℕ) → ℕ → Option ℕ
clear_callback none callbacks = callbacks
clear_callback (some s) callbacks = put s none callbacks

-- A reader that was moved from, and one as the constructor makes it.
abbrev pub empty : ReaderObject
empty = record {
  socket = none;
  sequence_number = none;
  timeout = negsuc 0;
  update_callback = none;
  end_of_dump_callback = none;
  dump_errored_callback = none;
}

abbrev pub holding : ℕ → ReaderObject
holding s = record empty { socket = some s }

-- The constructor, with a new socket.
unfoldable pub construct : ℕ → ℕ → Wires → Wires
construct i s w = record {
  readers = put i (some (holding s)) w.readers;
  callbacks = bind_reader_socket_callback i (some s) w.callbacks;
}

-- The fields of `j`, which stand as `r`, go to `i`.
abbrev pub take_over : ℕ → ℕ → ReaderObject → (ℕ → Option ReaderObject) → ℕ → Option ReaderObject
take_over i j r readers = put j (some empty) (put i (some r) readers)

-- The move constructor of either reader.
unfoldable pub move_construct : ℕ → ℕ → ReaderObject → Wires → Wires
move_construct i j r w = record {
  readers = take_over i j r w.readers;
  callbacks = bind_reader_socket_callback i r.socket w.callbacks;
}

-- The move assignment of DeviceReader, to another object that stands as `old`.
unfoldable pub move_assign_device : ℕ → ReaderObject → ℕ → ReaderObject → Wires → Wires
move_assign_device i old j r w = record {
  readers = take_over i j r w.readers;
  callbacks = bind_reader_socket_callback i r.socket (clear_callback old.socket w.callbacks);
}

-- The move assignment of IpReader: it does not bind the callback.
unfoldable pub move_assign_ip : ℕ → ReaderObject → ℕ → ReaderObject → Wires → Wires
move_assign_ip i old j r w = record {
  readers = take_over i j r w.readers;
  callbacks = clear_callback old.socket w.callbacks;
}

-- The destructor.
unfoldable pub destroy : ℕ → ReaderObject → Wires → Wires
destroy i r w = record {
  readers = put i none w.readers;
  callbacks = clear_callback r.socket w.callbacks;
}
