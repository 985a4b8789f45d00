-- ===== src/Tests.antt =====
-- Runs of the definitions on concrete inputs.
mod Protobuf
mod Grpc
mod Rpc
mod Operations
mod Channels
mod Scalars
mod Messages
mod Settings
mod Texts
mod Durations
mod Json
mod Cycles
mod Options
mod Anys
mod Namespaces
