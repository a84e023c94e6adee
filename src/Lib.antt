-- ===== src/Lib.antt =====
-- Headquarter, a client without graphics for the Guild Wars protocol: the path of a message between
-- the struct of a request or a handler and the encrypted byte stream of a connection, the containers
-- and codecs under it, the events above it, and the texts of the login.
--
-- The program has three parts. code/common holds the containers and codecs, code/portal logs in, and
-- code/client keeps a connection to the auth server and one to the game server. A request is packed
-- into the queue of its connection (SendPacket), the queue is encrypted and sent (NetConn_Send), and
-- what is received is decrypted and dispatched to the handlers (NetConn_Recv,
-- NetConn_DispatchPackets). Both directions are driven by tables of formats (code/client/packets.c).
--
-- Files and what they model:
--   Base                       lists as C arrays, fixed widths, bit operations as arithmetic, and
--                              `Outcome`: a result, an error code that is returned, a failed
--                              assertion, or an access outside of a buffer
--   Common/Endian              code/common/endian.h, the decoders and encoders of words
--   Common/Array               code/common/array.c and array.h, growing, inserting, copying and
--                              removing
--   Common/Uuid                code/common/uuid.h, the codecs
--   Common/Hash                code/common/hash.h, the hashes of integers and of texts
--   Common/List                code/common/list.h, the links of all nodes by address; Chain has the
--                              sequence of nodes that a head stands for (`IsList`)
--   Common/Rbtree              code/common/rbtree.c and rbtree.h: Tree is the tree that nodes stand for,
--                              cut in frames above and a tree below; Rotate, Restore, Round and
--                              Settle follow rbtree_insert, Walk and Successor rbtree_min and
--                              rbtree_next, Delete to Repair rbtree_delete
--   Common/Timer               code/common/timer.c, on the red-black tree
--   Client/Kstr                code/client/kstr.c and kstr.h, strings with a length and a capacity
--   Client/Event               code/client/event.c, and RegisterEvent and UnRegisterEvent of
--                              code/client/api.c
--   Client/Arc4                code/client/arc4.c, mbedtls_arc4_setup and mbedtls_arc4_crypt;
--                              Keystream and Schedule have RC4 as it is published beside them
--   Client/Network/Fields      code/client/packets.h, and get_static_size, get_element_size and
--                              get_prefix_size of code/client/network.c
--   Client/Network/Unpack      unpack of code/client/network.c
--   Client/Network/Pack        pack and unicode16_len
--   Client/Network/Message     the specification of both: messages as values, their bytes on the
--                              wire (`wire`), and the packed structs that hold them (`Holds`)
--   Client/Network/Dispatch    NetMsg_Unpack and NetConn_DispatchPackets
--   Client/Network/Connection  NetMsg_Pack, SendPacket, NetConn_Send and NetConn_Recv
--   Client/Network/Update      NetConn_Update, NetConn_HardShutdown and NetConn_IsShutdown
--   Client/Network/Digest      arc4_hash
--   Portal/Stream              code/portal/stream.c, the readers and array_add_be_uint16
--   Portal/Sts                 code/portal/sts.c: Scan is sscanf as it is used there, Parse and Fuel
--                              are about the parser of replies, Request about the writers
--   Portal/Totp                code/portal/totp.c: b32decode, hmac_sha1 and totp; Spec has the
--                              passwords of RFC 6238 and HMAC of RFC 2104
--
-- A pointer into a buffer with the size behind it is the list of the bytes from there on. The two
-- codecs recurse on the list of fields as the source does on `fields + i + 1`. The loop of
-- NetConn_DispatchPackets runs on fuel, the number of bytes in the buffer; every round but the last
-- takes at least one of them away. `size_t` and `int` offsets stay below the capacity of the buffers,
-- 5840 bytes, so that they do not wrap. A handler is a parameter and may
-- change what NetConn_Send and SendPacket do, the queue and the sending cipher of its connection
-- (`Outgoing`), and a state `S`, the flags among it, which comes with the tests of a flag and of
-- `secured` and with NetConn_HardShutdown (`Endpoint`). Not covered are handlers that do not return,
-- as where an assertion fails in them, and those that free the input buffer or touch the receiving
-- cipher of their own connection. What `send` and `recv` return is an argument; where `recv` would
-- return more bytes than it is asked for, the model has a fault. The mutex of a connection makes each
-- operation one step.
--
-- An array holds as many elements as its capacity says; sizes are `size_t` and wrap, and the theorems
-- ask that twice the capacity and what is added, in bytes, stay below 2 ^ 64.
--
-- The nodes of the intrusive lists are numbers, with 0 for the null pointer, and a struct is known by
-- the address of its node. broadcast_event runs on fuel, one more than the entries of the list; a
-- callback is a parameter, and may change the lists in any way that leaves the later entries in place.
--
-- The nodes of a red-black tree are numbers too. Its two mirror images are one function with a side;
-- the loops run on fuel, one more than the depth of the tree. A colour is a Boolean, since only 0 and
-- 1 are ever written to the byte. The clock of the timers is an argument, and their handlers are a
-- parameter.
--
-- The loop of sts_parse_reply runs on fuel, one more than the bytes behind the status line. sscanf and
-- snprintf are written out for the formats of sts.c; where C leaves a conversion undefined, because
-- the number does not fit or the text runs past the buffer, the model has a fault.
--
-- SHA-1 is a parameter of the one-time passwords, and the clock an argument; the array that b32decode
-- fills is taken to grow.
--
-- Not modelled: the handshake with its big numbers, sockets, threads and files; allocating and freeing
-- the buffers of a connection; mbedtls, a library; the tables of packets.c, which are data; the
-- transport and the key derivation of code/portal; the game state that the handlers keep.
pub mod Base
pub mod Client
pub mod Common
pub mod Portal
