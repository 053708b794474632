-- ===== src/Lib.antt =====
-- matter-rs: the Matter protocol in Rust, from the bytes of a packet up to access control.
--
-- The parts, and the files that model them:
--   matter/src/utils/writebuf.rs     WriteBuf: the buffer that is sent; `prepend` and `append` become
--                                    state passing, and WriteBuf/Laws reads it as a byte string.
--   matter/src/utils/parsebuf.rs     ParseBuf: the cursor over a received packet; ParseBuf/Laws and
--                                    ParseBuf/Decoding say what a parser takes from it.
--   matter/src/transport             Transport: plain_hdr.rs (PlainHdr), proto_hdr.rs (ProtoHdr, with
--                                    the encryption of matter/src/crypto/crypto_openssl.rs in Crypto),
--                                    packet.rs (Packet, Packet/Pool), mrp.rs (Mrp), session.rs
--                                    (SessionMode, Session, its Table and Manager) and exchange.rs
--                                    (Exchange, its Manager and Manager/Receiving).
--   matter/src/secure_channel        SecureChannel: status_report.rs and common.rs (Status).
--   matter/src/tlv                   Tlv: mod.rs (Tag), writer.rs (Writer), parser.rs (Element, Parser,
--                                    Parser/Container); RoundTrip joins the writer and the parser.
--   matter/src/acl.rs                Acl: requests and entries (Entry), the list (Manager), and the
--                                    privileges of matter/src/data_model/objects (Privilege).
--   matter/src/interaction_model     InteractionModel: core.rs (Status) and messages.rs (Messages);
--                                    the transaction and its commands (Commands).
--   matter/src/data_model            DataModel: objects (Attribute, Cluster, Endpoint, Node, with the
--                                    closures that change a node in Node/Changing), core.rs (Reading,
--                                    Writing, Commands), and of sdm failsafe.rs (FailSafe) and
--                                    general_commissioning.rs (GeneralCommissioning). Node/Places
--                                    reads a path as the list of places that it names.
--   matter/src/fabric.rs             Fabric: fabrics, with the keys of group_keys.rs; Fabric/Store says what
--                                    the persistent store gives back. Fabric/Manager is the table.
--   matter/src/cert                  Cert: asn1_writer.rs (Asn1Writer); Tree reads it as the distinguished
--                                    encoding of trees.
--   matter/src/error.rs              Base/Errors, with a panic as an outcome of its own.
--
-- A packet's headers are encoded by Transport into a WriteBuf and decoded from a ParseBuf; the payload
-- is a TLV element, which the same WriteBuf takes. A received message is allowed by Acl before the
-- data model acts on it, and the fail-safe guards the changes of commissioning.
--
-- A received packet goes from the pool's buffer through the plain header to its session (Session), which
-- decrypts it, and to its exchange (Exchange), where the reliability layer (Mrp) notes what is to be
-- acknowledged. Sending takes the way back. Where the sessions are full, the exchange manager evicts the
-- least recently used one, with a status report (SecureChannel) to its peer.
--
-- A method on `&mut self` is a function from the state to the result and the state (Base/Exec): what
-- was done before an error stays done. Numbers are natural numbers, within the bounds that the
-- statements name; where the source casts, the wrap-around is written out, and where it subtracts,
-- the panic below 0. A slice is a list with the bounds of the slice written out.
--
-- Code outside the repository is an interface with its documented behaviour as laws: byteorder
-- (Base/Bytes, LittleEndian), bitflags (Base/Flags, Bitflags), heapless::LinearMap (Base/LinearMap),
-- the cipher (Transport/Crypto, Aead), and the files of the persistent store (Fabric, Psm). Each has an
-- implementation that the tests run with. What fabrics call of certificates, keys and multicast DNS are
-- arguments of which nothing is assumed (Fabric, Backend). The clock, the
-- random counters, the network, the slab's free slots and the persistent store are arguments.
--
-- The two loops over a container (Tlv/Parser/Container) run on fuel, one more than the bytes that are
-- left. That is enough, since every element takes a byte; running out of fuel is a panic in the model,
-- which the theorems exclude. The search for a session id (Session/Manager) runs on one try more than
-- there are sessions, which is enough as long as there are less than 65535 of them.
--
-- Not modelled: the threads, locks and sockets of matter/src/transport/mgr.rs and udp.rs, the
-- establishment of sessions by PASE and CASE, the dispatch of the interaction model, the other
-- clusters of the devices, the reading of certificates, the derive macros, and the
-- crypto back ends, which call other libraries.
-- Of the modelled files: Display and logging, `str16_as`, the comparison of TLV elements, and the TLV
-- form of the access control entries, which a macro generates.
pub mod Base
pub mod WriteBuf
pub mod ParseBuf
pub mod Cert
pub mod SecureChannel
pub mod Transport
pub mod InteractionModel
pub mod DataModel
pub mod Tlv
pub mod Acl
pub mod Fabric
