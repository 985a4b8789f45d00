-- ===== src/Lib.antt =====
-- Verification of Qt GRPC and Qt Protobuf: the binary wire format, JSON, the HTTP/2 transport, and
-- the texts of the code generators.
--
-- The parts and their files. A message on the wire is a sequence of fields, each a header and a
-- value; the transport carries messages with a prefix of five bytes in the DATA frames of a stream.
--
-- Protobuf/Iterator models src/protobuf/qprotobufselfcheckiterator_p.h: an address that runs over a
--   container. Addresses wrap at 2 ^ 64, and a step takes the bit pattern of a signed count.
-- Protobuf/Varint models serializeVarintCommonImpl (src/protobuf/protobufscalarserializers_p.cpp) and
--   deserializeVarintCommon (protobufscalarserializers_p.h). Its children have the encoding, the
--   reader on any bytes, and the round trip.
-- Protobuf/Header models encodeHeader and decodeHeader of src/protobuf/qprotobufserializer.cpp.
-- Protobuf/Ordering models src/protobuf/qprotobufpropertyordering.cpp: the arrays behind a message's
--   metadata, their readers, and the builder that fills them.
-- Protobuf/Deserializer models the walk of QProtobufDeserializerImpl over the fields of a message:
--   nextFieldIndex, skipField and what they call. It uses the iterator, the varints, the header and
--   the ordering. Deserializer/Rounds has one round of its loop, and Deserializer/Backward what a
--   length of 2 ^ 63 or more does to it. Deserializer/Unknown has the readers of the unknown fields
--   that src/protobuf/qprotobufmessage.cpp offers.
-- Protobuf/LengthDelimited models prependLengthDelimitedSize and deserializeLengthDelimited,
--   Protobuf/Serializer the nesting of messages in QProtobufSerializerImpl, and Protobuf/Limits the
--   size limits around serialize and deserialize.
-- Protobuf/Scalars models the scalars of src/protobuf/protobufscalarserializers_p.h: Scalars/ZigZag
--   the signed integers, Scalars/Fixed those of fixed width, and Scalars/Lists packed lists of any
--   scalar that keeps the interface IsCodec; Scalars/Codecs fills it for each kind.
-- Protobuf/DeserializerBase models the loop over the fields of a message in
--   src/protobuf/qprotobufdeserializerbase.cpp: DeserializerBase/Cached compares its cache with a loop
--   that has none, DeserializerBase/Seen has the words of bits that it keeps, and
--   DeserializerBase/Required the required fields. What it reads for a field is a parameter.
-- Protobuf/SerializerBase models src/protobuf/qprotobufserializerbase.cpp, the walk over the fields of
--   a message, and SerializerBase/Cycles required fields whose types form a cycle.
-- Protobuf/Json models src/protobuf/qprotobufjsonserializer.cpp. Json/Writer has the objects that are
--   written, Json/Reader the field that is read next, and Json/Keys the names of both. Json/Scalars
--   joins the two on a message of scalar fields, and Json/RoundTrip on repeated messages of that sort,
--   over Json/Objects and Json/Written. Json/Stalls and Json/Verdict have what goes wrong; the
--   latter runs the loop of Protobuf/DeserializerBase. Json/Numbers models
--   the integers and lists of src/protobuf/protobufscalarjsonserializers_p.h.
-- Grpc/Status models the status codes of src/grpc/qtgrpcnamespace.h and the maps into them.
-- Grpc/Limits, Grpc/DataParser, Grpc/Handler and the files below them model
--   src/grpc/qgrpchttp2channel.cpp: Limits the resolution of options, environment and defaults
--   (clampToRange, constructMaximumReceiveSize, constructReceiveWindowSizes, ReconnectBackoff);
--   DataParser the class GrpcDataParser; Handler the class Http2Handler, whose state is the record
--   Handler and whose slots and methods are functions on it. Handler/Send has writeMessage,
--   processQueue, writesDone and sendInitialRequest, Handler/Receive the slot of dataReceived,
--   Handler/Headers handleHeaders and the slot of headersReceived. Handler/Once follows a handler
--   through any sequence of those events, Handler/Send/Fifo compares its queue with a first-in
--   first-out channel, and Handler/Send/Progress has what the queue counts and when it moves.
-- Grpc/Channel models the sanitized URI, the kind of socket and the headers of a request, and
--   Channel/ContentType the negotiation of their content type.
-- Grpc/Interceptors models src/grpc/qgrpcinterceptor.h, qgrpcinterceptorchain.h and .cpp, and
--   qgrpcinterceptorengine_p.h. Interceptors/Order has the order of the calls and Interceptors/Start
--   the calls that are dropped.
-- Grpc/Operation models src/grpc/qgrpcoperation.cpp and the setters of qgrpcoperationcontext.cpp;
--   an operation runs the interceptors of its channel. Operation/Start is initOperation of
--   src/grpc/qgrpcclientbase.cpp, Operation/Events what happens to an operation, Operation/Finished and
--   Operation/Frozen what it reports.
-- Grpc/Connection models the class QGrpcHttp2ChannelPrivate with the handlers that share its
--   HTTP/2 connection: processOperation, createHttp2Connection, handleSocketError and the timers.
--   A null stream that is dereferenced is a mark on its handler. Connection/Run follows a channel
--   through any sequence of those and of what Connection/Handlers lets happen to its RPCs, over
--   Connection/Served, Connection/Sound and Connection/Later. Connection/Fails has the
--   errors of the socket, and Connection/Refused the streams that are refused.
-- Grpc/Options models the metadata of src/grpc/qgrpccommonoptions.cpp and its setters in
--   qgrpccalloptions.cpp, which qgrpcchanneloptions.cpp repeats. Options/Views follows any sequence of
--   the setters, and Options/Stale the deprecated setter.
-- Grpc/Settings models the settings of src/grpc/qgrpcchanneloptions.cpp that have limits: delays, the
--   size of metadata, and the accepted compression. Settings/Valid follows any sequence of setters.
-- Generator/Text models src/tools/qtprotoccommon/utils.cpp: splitting and replacing, the escapes of
--   literals and of comments, identifiers, and the order of headers. Generator/Options models
--   options.cpp beside it, with the options that the generators share as the state, and
--   Generator/Namespace the namespaces of generatorcommon.cpp.
-- WellKnown/Duration models durations in src/wellknown/qprotobufwellknowntypesjsonserializers.cpp:
--   Duration/Decimal has decimal numbers, and Duration/Fraction what stands behind the period.
-- WellKnown/Any models src/wellknown/qprotobufanysupport.cpp, and Any/Nested messages in an Any that
--   stands in further ones. What a serializer makes of a message is a parameter.
-- Prelude has the shared names, lists over the native numbers, bit operations and text.
--
-- Bounds and fuel. A varint is written in ten rounds, which 64 bits never exceed. The reader of a
-- varint and the loop over frames take a round for each byte and one more. The loops of
-- nextFieldIndex, skipVarint and deserializeMessage take fuel, and none means that it ran out. The
-- loops of split and replace take a round for each byte and one more, a decimal number has nineteen
-- digits at most, and the default messages of the serializer base take fuel too.
--
-- Parameters. What an address holds, the value of a shift by 64 or more, and the largest size of a
-- QByteArray come with the record Machine. QHttp2Stream, QHttp2Connection, QDecompressHelper, the
-- compression by zlib, the number parsers of QByteArray and the constants of Qt Network are
-- parameters too.
--
-- Not modelled: message texts and warnings, the random jitter of a backoff, QVariant and the meta
-- types (the typed readers of fields, the registries), the parser and the printer of JSON
-- documents, the sockets, the ownership of interceptors, the templates of the code generators and
-- the QML bindings. Slots of the program that start or cancel RPCs while the transport is still
-- visiting its handlers are not modelled either.
pub mod Prelude
pub mod Protobuf
pub mod Grpc
pub mod Generator
pub mod WellKnown
pub mod Tests
