-- ===== src/Trace/Writer.antt =====
-- The trace files that src/utils/trace_utils.cpp writes: `writeAccess`, `generateFilteredTrace` and the loops of
-- the generators. The random choices are an argument, a list of what each access draws.
use cache_simulator.Prelude.{
  ℕ, zero, suc, ◌+◌, ◌-◌, ◌*◌, ◌/◌, ◌%◌, Bool, List, [], ◌∷◌, ltb, min, if◌then◌else◌, u32_mod,
  sub32,
}
use cache_simulator.Trace.Text.{Text}
use cache_simulator.Trace.Parser.{MemoryAccess}

unfoldable pub digit_char : ℕ → ℕ
digit_char d = if ltb d 10 then d + b'0' else d - 10 + b'a'

-- The hexadecimal digits of `n` before `acc`, at most `digits` of them.
unfoldable pub hex_onto : ℕ → ℕ → Text → Text
unfolding digit_char
hex_onto zero n acc = acc
hex_onto (suc digits) n acc =
    let more = hex_onto digits (n / 16) (digit_char (n % 16) ∷ acc) in
    if ltb n 16 then digit_char n ∷ acc else more

-- `std::hex << n` for a `uint32_t`, which has eight digits at most.
unfoldable pub to_hex : ℕ → Text
unfolding hex_onto
to_hex n = hex_onto 8 n []

-- The line without its end.
unfoldable pub write_access : Bool → ℕ → Text
unfolding to_hex
write_access is_write address =
    (if is_write then b'w' else b'r') ∷ b' ' ∷ b'0' ∷ b'x' ∷ to_hex address

abbrev pub line_of : MemoryAccess → Text
line_of access = write_access access.is_write access.address

-- The filter's accesses, in their order. A core is not written.
unfoldable pub generate_filtered_trace : (MemoryAccess → Bool) → List MemoryAccess → List Text
unfolding write_access
generate_filtered_trace filter [] = []
generate_filtered_trace filter (access ∷ rest) =
    let lines = generate_filtered_trace filter rest in
    if filter access then line_of access ∷ lines else lines

-- The accesses of `generateSequentialTrace` from number `i` on; a choice is whether the access writes.
unfoldable pub generate_sequential_trace : ℕ → ℕ → ℕ → List Bool → List Text
unfolding write_access
generate_sequential_trace start stride i [] = []
generate_sequential_trace start stride i (is_write ∷ choices) =
    write_access is_write ((start + i * stride) % u32_mod)
    ∷ generate_sequential_trace start stride (i + 1) choices

-- `generateRandomTrace`: a choice is an address between the two bounds, and whether it is written.
unfoldable pub generate_random_trace : List (ℕ × Bool) → List Text
unfolding write_access
generate_random_trace [] = []
generate_random_trace ((address, is_write) ∷ choices) =
    write_access is_write address ∷ generate_random_trace choices

-- The accesses of `generateLocalityTrace` to one region; a choice is an offset, before its bound.
unfoldable pub write_region : ℕ → ℕ → List (ℕ × Bool) → List Text
unfolding write_access
write_region region_start region_size [] = []
write_region region_start region_size ((offset, is_write) ∷ choices) =
    write_access is_write ((region_start + min offset (sub32 region_size 1)) % u32_mod)
    ∷ write_region region_start region_size choices
