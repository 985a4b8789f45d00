-- ===== src/Grpc.antt =====
-- src/grpc: the gRPC client over HTTP/2.
pub mod Status
pub mod Limits
pub mod DataParser
pub mod Handler
pub mod Channel
pub mod Interceptors
pub mod Operation
pub mod Connection
pub mod Options
pub mod Settings
