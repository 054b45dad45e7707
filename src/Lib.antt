-- ===== src/Lib.antt =====
-- libki: bit buffers, DML records and messages, control messages, the sessions of the protocol,
-- property classes and their binary and JSON serializers.
--
-- Parts, from the bottom up, and how they interact:
--   Common, Common/*       numbers, lists, bits of numbers, integers, and results that are a value, an
--                          exception, an access outside memory (fault), or the end of the fuel (stuck).
--   Position               IBitBuffer::buffer_pos of src/util/BitStream.cpp and include/ki/util/BitStream.h.
--   Buffer                 BitBuffer of the same file: the list of its bytes, `read`, `write`, `resize`.
--                          Buffer/Spec says what a buffer means, a sequence of bits.
--   Interface              the virtual class IBitBuffer as a record of operations, and what the class
--                          builds on them: the typed read and write, read_copy, write_copy.
--   Stream                 BitStream, over any IBitBuffer, with the growth of the buffer.
--   Segment                BitBufferSegment, which is an IBitBuffer over another one.
--   Io                     the behaviour of std::stringstream that the code relies on.
--   Dml                    src/dml: numbers as bytes (Dml/Bytes), fields of the eleven types (Dml/Field),
--                          and records of them (Dml/Record), which read and write through Io; their
--                          XML form, over the nodes of rapidxml (Dml/Xml).
--   Control                src/protocol/control: four messages, each made of a record.
--   Map                    std::map and std::unordered_map as a sorted sequence, with the order of
--                          std::string in Map/Names.
--   Message                src/protocol/dml: headers, made of a record (Message/Header); templates
--                          (Message/Template); messages, by a template or raw (Message/Body); modules,
--                          which number their templates (Message/Module); and the manager, which loads
--                          modules and reads messages by them (Message/Manager).
--   Net                    src/protocol/net: headers (Net/Header), the session with its framing
--                          (Net/Session), the clocks (Net/Clock), its two ends (Net/Client, Net/Server),
--                          the two together (Net/Handshake), and DMLSession, which sends and reads
--                          the messages of Message in application packets (Net/DmlSession).
--   BitTypes               include/ki/util/BitTypes: integers of N bits.
--   Pclass                 src/pclass: enum types and enums (Pclass/EnumType, Pclass/Enum), and property
--                          lists with the hash of a property (Pclass/PropertyList, Pclass/Hash); how
--                          values are read and written (Pclass/Primitive, Pclass/Enum/Transfer);
--                          objects as trees of properties (Pclass/Object) and the types that make them
--                          (Pclass/TypeSystem).
--   Serializer             src/serialization/BinarySerializer: Serializer/Save and Serializer/Load; what
--                          an IBitBuffer pointer leads to (Serializer/AnyBuffer). The format as a list
--                          of steps (Serializer/Steps, Serializer/Values, Serializer/Objects) is what the
--                          two are compared with (Serializer/RoundTrip). load recurs on fuel for the
--                          depth of an object, eight times the bytes of the segment and one, since each
--                          object takes 32 bits (Serializer/Fuel, Serializer/Termination).
--   Serializer/Json        src/serialization/JsonSerializer, over the values of nlohmann::json, whose
--                          objects are lists of members. load_object recurs on fuel
--                          for the depth of an object, of which the number of its pointers is enough.
--   Examples               the theorems at concrete inputs.
--
-- Functions keep the names of the source, with constructors named after their class in lower case.
-- Numbers of a fixed width are natural numbers with their wrap-around written out; a signed number is
-- the unsigned one with the same bytes. The host is little-endian, its char is signed.
-- What a session does to its surroundings (send_packet_data, close, on_established and the handlers
-- that it leaves to applications) is a list of events in its state. The readings of its two clocks are
-- parameters, functions from the number of the reading to nanoseconds.
--
-- Fuel: the loops of Buffer take at least one bit in a round, so a run of n bits gets n + 1 rounds;
-- the copies of Interface get a round for each bit of the size and one more. The loop of process_data gets
-- two turns for each byte and one more, since each turn takes a byte but for the one that a packet of
-- length 0 ends with.
--
-- A pointer to a template or to a module is its position in the list that owns it. load_module gets
-- what rapidxml makes of the file, and the text of a value is a parameter (get_value_string and
-- set_value_from_string format and scan through iostreams). The texts of a node are C strings, so that
-- as_xml cuts names and values at a NUL.
--
-- deflate and uncompress of zlib are parameters of save and load. A property's elements are values of a
-- primitive or an enum type or pointers to objects; on_created of an object is const and not followed.
--
-- Not modelled: the text forms of values; of src/pclass values, casters and the property templates, with
-- classes held by value and pointers to values; the XML and file serializers; include/ki/util's
-- other headers; the vendored libraries; tests and examples.
pub mod Common
pub mod BitTypes
pub mod Position
pub mod Buffer
pub mod Interface
pub mod Stream
pub mod Segment
pub mod Io
pub mod Dml
pub mod Control
pub mod Map
pub mod Message
pub mod Net
pub mod Examples
pub mod Pclass
pub mod Serializer
