-- ===== src/Cpp.antt =====
-- The C++ guest runtime that crabgen emits: tools/crabgen/templates/cpp/crab.hpp, crab.cpp, mesh.hpp
-- and mesh.cpp (guest/hello-cpp/gen holds the same crab.hpp and crab.cpp), and the guest hello-cpp.
pub mod Res
pub mod Encode
pub mod Utf8
pub mod Decoder
pub mod Primitive
pub mod Wire
pub mod Runtime
pub mod Linear
pub mod Cursor
pub mod Mesh
pub mod Hello
