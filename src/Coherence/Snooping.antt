-- ===== src/Coherence/Snooping.antt =====
-- The three protocols of the factory of src/core/coherence_protocol.cpp on the bus.
use cache_simulator.Prelude.{ℕ, arith, Bool, ◌||◌, ◌==◌}
use cache_simulator.Coherence.Mesi
use cache_simulator.Coherence.Msi
use cache_simulator.Coherence.Moesi
use cache_simulator.Coherence.Protocol.{
  CoherenceProtocolType, msi, mesi, moesi, create, msi_protocol, mesi_adapter, moesi_protocol,
  mesi_of_int,
}
use cache_simulator.Coherence.Safety.{
  Bus, Reachable, SafeProtocol, IsCoherent, Reachable-IsCoherent,
}

-- The number of the states, and those that may be written without telling the others.
abbrev pub states_of : CoherenceProtocolType → ℕ
states_of msi = 3
states_of mesi = 4
states_of moesi = 5

abbrev pub sole_of : CoherenceProtocolType → ℕ → Bool
sole_of msi s = s == 0
sole_of mesi s = s == 0 || s == 1
sole_of moesi s = s == 0 || s == 2

msi_protocol-SafeProtocol : SafeProtocol msi_protocol (sole_of msi) (states_of msi)
unfolding msi_protocol Msi.handle_local_read Msi.handle_local_write Msi.handle_remote_read
    Msi.handle_remote_write Msi.requires_writeback Msi.is_valid Msi.invalid_state Msi.to_int
    Msi.of_int Msi.next_on_local_read Msi.next_on_local_write Msi.next_on_remote_read
    Msi.next_on_remote_write
msi_protocol-SafeProtocol = record {
  invalid_friend = λ t ht. ground arith;
  read_pair = λ o p s t copy hs ht (h, k) told. (ground arith, ground arith);
  snoop_pair = λ o p s t hs ht (h, k). (ground arith, ground arith);
  write_pair = λ o p s t hs ht. ((ground arith, ground arith), (ground arith, ground arith));
  in_range = λ o s copy hs. (ground arith, ground arith, ground arith, ground arith);
}

mesi_adapter-SafeProtocol : SafeProtocol mesi_adapter (sole_of mesi) (states_of mesi)
unfolding mesi_adapter mesi_of_int Mesi.handle_local_read Mesi.handle_local_write
    Mesi.handle_remote_read Mesi.handle_remote_write Mesi.requires_writeback Mesi.is_valid
    Mesi.state_to_index Mesi.next_on_remote_read
mesi_adapter-SafeProtocol = record {
  invalid_friend = λ t ht. ground arith;
  read_pair = λ o p s t copy hs ht (h, k) told. (ground arith, ground arith);
  snoop_pair = λ o p s t hs ht (h, k). (ground arith, ground arith);
  write_pair = λ o p s t hs ht. ((ground arith, ground arith), (ground arith, ground arith));
  in_range = λ o s copy hs. (ground arith, ground arith, ground arith, ground arith);
}

moesi_protocol-SafeProtocol : SafeProtocol moesi_protocol (sole_of moesi) (states_of moesi)
unfolding moesi_protocol Moesi.handle_local_read Moesi.handle_local_write Moesi.handle_remote_read
    Moesi.handle_remote_write Moesi.requires_writeback Moesi.is_valid Moesi.invalid_state
    Moesi.to_int Moesi.of_int Moesi.next_on_local_read Moesi.next_on_local_write
    Moesi.next_on_remote_read Moesi.next_on_remote_write
moesi_protocol-SafeProtocol = record {
  invalid_friend = λ t ht. ground arith;
  read_pair = λ o p s t copy hs ht (h, k) told. (ground arith, ground arith);
  snoop_pair = λ o p s t hs ht (h, k). (ground arith, ground arith);
  write_pair = λ o p s t hs ht. ((ground arith, ground arith), (ground arith, ground arith));
  in_range = λ o s copy hs. (ground arith, ground arith, ground arith, ground arith);
}

-- For MSI, MESI and MOESI alike: whatever reads, writes and evictions the caches perform, no valid
-- copy ever stands beside one that may be written, and one copy at most is to be written back.
pub create-IsCoherent :
    (t : CoherenceProtocolType) (b : Bus (create t))
    → Reachable (create t) b
    → IsCoherent (create t) (sole_of t) (states_of t) b
unfolding create
create-IsCoherent msi b r =
    Reachable-IsCoherent msi_protocol (sole_of msi) 3 msi_protocol-SafeProtocol (omega arith) b r
create-IsCoherent mesi b r =
    Reachable-IsCoherent mesi_adapter (sole_of mesi) 4 mesi_adapter-SafeProtocol (omega arith) b r
create-IsCoherent moesi b r =
    Reachable-IsCoherent moesi_protocol (sole_of moesi) 5 moesi_protocol-SafeProtocol (omega arith)
      b r
