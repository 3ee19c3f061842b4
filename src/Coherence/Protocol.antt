-- ===== src/Coherence/Protocol.antt =====
-- `CoherenceProtocolBase` of src/core/coherence_protocol.h as an interface, the adapter that gives it to the
-- MESI protocol, and the factory of src/core/coherence_protocol.cpp.
use cache_simulator.Prelude.{ℕ, Bool, ◌==◌, if◌then◌else◌}
use cache_simulator.Coherence.Mesi
use cache_simulator.Coherence.Mesi.{MesiState, modified, exclusive, shared, invalid}
use cache_simulator.Coherence.Msi
use cache_simulator.Coherence.Moesi

pub data CoherenceProtocolType : Type 0 where
  msi mesi moesi : CoherenceProtocolType

-- States are numbers. The object is the protocol's own state, its table of transitions.
pub record CoherenceProtocol : Type 1 where
  pub Object : Type 0
  pub start : Object
  pub handle_local_read : Object → ℕ → Bool → Object × ℕ
  pub handle_local_write : Object → ℕ → Object × ℕ
  pub handle_remote_read : Object → ℕ → Object × ℕ
  pub handle_remote_write : Object → ℕ → Object × ℕ
  pub requires_writeback : ℕ → Bool
  pub is_valid : ℕ → Bool
  pub invalid_state : ℕ

-- `static_cast<MESIState>(state)`, for the states that the adapter hands out.
unfoldable pub mesi_of_int : ℕ → MesiState
mesi_of_int i =
    if i == 0 then modified else if i == 1 then exclusive else if i == 2 then shared else invalid

abbrev pub encoded : Mesi.MesiProtocol × MesiState → Mesi.MesiProtocol × ℕ
encoded (p, s) = (p, Mesi.state_to_index s)

-- `MESIProtocolAdapter`
unfoldable pub mesi_adapter : CoherenceProtocol
mesi_adapter = record {
  Object = Mesi.MesiProtocol;
  start = Mesi.create;
  handle_local_read = λ p s copy. encoded (Mesi.handle_local_read p (mesi_of_int s) copy);
  handle_local_write = λ p s. encoded (Mesi.handle_local_write p (mesi_of_int s));
  handle_remote_read = λ p s. encoded (Mesi.handle_remote_read p (mesi_of_int s));
  handle_remote_write = λ p s. encoded (Mesi.handle_remote_write p (mesi_of_int s));
  requires_writeback = λ s. Mesi.requires_writeback (mesi_of_int s);
  is_valid = λ s. Mesi.is_valid (mesi_of_int s);
  invalid_state = Mesi.state_to_index invalid;
}

unfoldable pub msi_protocol : CoherenceProtocol
msi_protocol = record {
  Object = Msi.MsiProtocol;
  start = Msi.create;
  handle_local_read = Msi.handle_local_read;
  handle_local_write = Msi.handle_local_write;
  handle_remote_read = Msi.handle_remote_read;
  handle_remote_write = Msi.handle_remote_write;
  requires_writeback = Msi.requires_writeback;
  is_valid = Msi.is_valid;
  invalid_state = Msi.invalid_state;
}

unfoldable pub moesi_protocol : CoherenceProtocol
moesi_protocol = record {
  Object = Moesi.MoesiProtocol;
  start = Moesi.create;
  handle_local_read = Moesi.handle_local_read;
  handle_local_write = Moesi.handle_local_write;
  handle_remote_read = Moesi.handle_remote_read;
  handle_remote_write = Moesi.handle_remote_write;
  requires_writeback = Moesi.requires_writeback;
  is_valid = Moesi.is_valid;
  invalid_state = Moesi.invalid_state;
}

unfoldable pub create : CoherenceProtocolType → CoherenceProtocol
create msi = msi_protocol
create mesi = mesi_adapter
create moesi = moesi_protocol
