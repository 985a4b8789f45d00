-- ===== src/Protobuf.antt =====
-- src/protobuf: the binary wire format of protobuf messages.
pub mod Iterator
pub mod Varint
pub mod Ordering
pub mod Header
pub mod Deserializer
pub mod LengthDelimited
pub mod Scalars
pub mod Serializer
pub mod SerializerBase
pub mod Limits
pub mod DeserializerBase
pub mod Json
