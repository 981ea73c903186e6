-- ===== src/Lib.antt =====
-- mate-corba: the GIOP layer of the ORB, the values of its calls, and its object adapters.
--
-- A client builds a message in a send buffer (src/orb/GIOP/giop-send-buffer.c): a list of pieces of
-- memory, some of them the caller's, some in chunks of the buffer's own, behind a header of twelve
-- bytes. The bytes go over a connection to a receive buffer (src/orb/GIOP/giop-recv-buffer.c), which
-- checks the header, collects the body and its fragments, and demarshals what comes before the
-- arguments. The arguments are values that a TypeCode describes (src/orb/orb-core/corba-any.c). A
-- request reaches an object of an adapter, which finds it a servant and counts its uses
-- (src/orb/poa/poa.c). References to objects can be written as texts (src/orb/orb-core/corba-loc.c).
-- The adapters are governed by a manager (src/orb/poa/poa-manager.c).
--
-- Prelude: tests on the native numbers, lists over them, words of 16 and 32 bits in either byte
--   order.
-- Giop.Align: ALIGN_VALUE of include/matecorba/util/matecorba-util.h, on 64 bits.
-- Giop.Types: include/matecorba/GIOP/giop-types.h: the header, versions, message types, flags.
-- Giop.SendBuffer: giop-send-buffer.c. Memory has the state: a pointer is a place (an entry's
--   memory: the header, a field that is copied, memory of the caller with its bytes, or an offset in
--   a chunk). Defs has the operations under the names of the C functions without the prefix
--   giop_send_buffer_. Invariant, Put, Writes and Append have well-formedness and what each
--   operation adds; Pool has the recycling of buffers, giop_send_buffer_use and _unuse.
-- Giop.Messages: giop_send_buffer_use_request and its siblings, with the operation's vector of
--   src/orb/orb-core/matecorba-small.c; Layout is the CDR specification of the bodies, Build and
--   Wire the refinement.
-- Giop.RecvBuffer: Reader has the buffer and the checks that reading is made of; a read beyond the
--   end is the outcome `fault`. Demarshal has one function for each of giop-recv-buffer.c. Safety,
--   Fields and Encaps are about any input; At, Parts, Replies, Operation, Requests, OldRequests and
--   RoundTrip are about input that a send buffer wrote.
-- Giop.Input: giop_recv_msg_reading_body, alloc_buffer (Header, Checks), the fragments of a
--   connection and their collation (Fragments, Concat, Reassembly).
--   The callers that wait for replies, and handle_reply (Queue, Delivery). The loop of
--   giop_connection_handle_input, one pass at a time (Reading), a message in two passes (Arrival), a
--   reply from the server to the caller (Journey).
-- Any: corba-any.c. Types has TypeCodes and values; a value is what the memory that the C code
--   walks over stands for, the addresses of other files' objects are numbers. Unions is the member
--   that a discriminator selects; Words the words of four and eight bytes. Marshal and Demarshal
--   have MateCORBA_marshal_value and MateCORBA_demarshal_value; Encode is the CDR specification of
--   a value, Marshal.Writes the refinement, Fronts, Forms and RoundTrip the way back; Demarshal.Safety and
--   Demarshal.Texts are about any input. Sequences: the operations on sequences, and against lists.
-- Poa: poa-manager.c (Manager), the collection of adapters (Collection), sequences of calls
--   (Lifecycle). The objects of an adapter that retains servants, from poa.c: activation and
--   deactivation (Objects), their invariant (Objects.Invariant, Objects.Steps), requests, and the
--   adapter's own deactivation (Requests), that the operations keep the invariant
--   (Requests.Activating, Serving, Ending), all that they reach (Requests.Reachable), pending
--   deactivations (Requests.Pending), the end of an adapter (Requests.Shutdown). The reference that
--   a running request holds on its object is not counted.
-- Corbaloc: corba-loc.c. A text is a list of character codes; Texts has the functions of the C
--   library, Parse and Print the two directions; Pieces and Tokens are about parts of a text,
--   RoundTrip and Several about what is read of what was printed.
-- Examples: the theorems at concrete inputs.
--
-- Numbers are native; arithmetic on guint32 is written modulo 2^32, on gulong and pointers modulo
-- 2^64. Loops are recursion on lists or on a count that is read from the message. The byte order of
-- a host is a parameter. GLib's lists and byte-swap macros are taken as part of the language; what
-- g_malloc returns is a parameter where an address matters, and fresh memory has unknown bytes. What
-- marshals an Any, a TypeCode and an object reference is a parameter of Any.
--
-- Not modelled: sockets (linc2), threads and locks, freeing of memory, the native layout of values,
-- long double, object references in memory, child adapters, adapters that do not retain servants,
-- the ORB's start, the name service, the IDL compiler.
pub mod Prelude
pub mod Any
pub mod Corbaloc
pub mod Giop
pub mod Poa
pub mod Examples
