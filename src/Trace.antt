-- ===== src/Trace.antt =====
-- The trace files of src/utils/trace_parser.h, trace_parser.cpp and trace_utils.cpp.
pub mod Text
pub mod Parser
pub mod Reader
pub mod Writer
pub mod RoundTrip
pub mod Reading
pub mod Files
pub mod Addresses
pub mod Patterns
pub mod Detection
