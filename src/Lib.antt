-- ===== src/Lib.antt =====
-- smithsnmp: an SNMP agent in C (core/) whose MIB groups are Lua programs.
--
-- The agent reads a datagram, looks up the objects that it names in a tree of registered nodes, asks
-- the Lua handler of each for its value, and encodes the answer. The development models this way of
-- a GET, GETNEXT, SET or GETBULK request from the bytes that are received to those that are sent, and
-- the registrations that it depends on; the same way of the requests that a master agent sends to the
-- agent as its AgentX sub-agent, with the session between them; and the traps that the agent sends.
--
--   Base, Base/*        Boolean tests, lists, bits and memory over the native numbers.
--   Asn1                core/asn1.h: tags and bounds.
--   Parse               The result of decoding a message, for SNMP and AgentX.
--   Ber/Int             core/snmp_encoder.c and core/snmp_decoder.c: `ber_int_*`, `ber_uint_*`.
--   Ber/Length          `ber_length_*`.
--   Ber/Oid             `ber_oid_*`.
--   Ber/Value           `ber_value_*`, which select by the tag.
--   Oid                 core/mib_tree.c: `oid_cmp`, `oid_cover`, `oid_binary_search`.
--   Mib/Tree            core/mib_tree.c: `mib_node_reg`, `mib_node_unreg`, `mib_tree_delete` and what
--                       they call; core/mib.h: the nodes.
--   Mib/Tree/Delete     core/mib_tree.c: the traversal of `__mib_tree_delete`.
--   Mib/View            core/mib_view.c: views and communities, `mib_community_*`.
--   Mib/User            core/mib_view.c: users, `mib_user_*`.
--   Mib/Instance        core/mib_tree.c: `mib_instance_search`.
--   Mib/Search          core/mib_tree.c: `mib_tree_search`.
--   Mib/Next            core/mib_tree.c: `mib_tree_search_next`.
--   Snmp/Access         core/snmp_msg_proc.c: `mib_get`, `mib_set`, `mib_getnext`.
--   Snmp/Request        core/snmp_msg_proc.c: `snmp_get`, `snmp_getnext`, `snmp_set`, `snmp_bulkget`.
--   Snmp/Message        core/snmp.h: the parts of a message, and single fields.
--   Snmp/Decode         core/snmp_msg_in.c: `snmp_decode` and what it calls.
--   Snmp/Encode         core/snmp_msg_out.c: `snmp_response` without cryptography.
--   Snmp/Recv           core/snmp_msg_in.c: `snmp_recv`, `snmp_request_dispatch`.
--   Snmp/Trap           core/snmp_trap.c: `snmp_trap_varbind`, `snmp_trap_send`.
--   Agentx              core/agentx_encoder.c, core/agentx_decoder.c: `agentx_value_*`.
--   Agentx/Message      core/agentx.h: the parts of a message, and single fields.
--   Agentx/Decode       core/agentx_msg_in.c: `agentx_decode` and what it calls.
--   Agentx/Encode       core/agentx_msg_out.c: `agentx_*_pdu`, `agentx_response`.
--   Agentx/Process      core/agentx_msg_proc.c: `agentx_get`, `agentx_getnext`, `agentx_set`.
--   Agentx/Recv         core/agentx_msg_in.c: `agentx_recv`, `agentx_request_dispatch`.
--   Agentx/Session      core/agentx.c: the operations that send a message and wait for the response.
--   Agentx/*            The other files hold the proofs on these.
--   Tests               runs, and the theorems at concrete inputs.
--
-- A number of w bits is a natural number below 2 ^ w, and a signed one is its bit pattern; where
-- the source wraps, `% 2 ^ w` is written. An array with its length is a list. The memory of the
-- union in `Variable` is a list of bytes, little-endian, which a longer value extends, and is 0
-- behind its end. The tree is a value: a function that changes it returns the new one; a pointer
-- to a node is its path from the root. Views are told apart by their addresses, as the pointers in
-- the source. The Lua interpreter is a parameter (`Lua` of Mib/Instance): a state, conversions,
-- and a protected call, of which nothing is assumed. A failed assertion is `none`, `aborted` or
-- `failed`; where an answer is longer than the memory that is allocated for it, or the loop that counts
-- the bytes of an identifier does not end, a request is `exceeded`, and a trap `none`. Registration in a
-- group whose arrays have no room, after their 16-bit capacity has wrapped, is `none`.
--
-- A message is a list of bytes. Decoding reads from its front; a read behind the end, or a write
-- behind the end of a field, is `overrun`. The cryptography of 3rd/crypto is a parameter (`Crypto`
-- of Snmp/Decode/Security): the code of a message and the decryption of a text with the keys of a
-- user, of which nothing is assumed; `KeyMaker` of Mib/User makes the keys. `send` and `recv` of
-- the session with the master agent are a parameter too (`exchange` of Agentx/Session), and so is
-- the random number of a trap.
--
-- Rounds of loops. `oid_binary_search` has as many rounds as the array has numbers, and ends
-- before. The loops of `mib_community_unreg`, `mib_user_unreg`, `mib_get`, `mib_getnext` and
-- `mib_set` are given a number of rounds, and the outcome tells when it was not enough; one round
-- more than there are communities, users or views is, where the loop ends. `mib_tree_search_next`
-- is given rounds too; more than twice `rounds` of the tree (Mib/Next/Candidates), a bound on the
-- nodes, is enough. The traversal of `__mib_tree_delete` takes as many rounds as `rounds` of
-- Mib/Tree/Delete/Releases says. The loops over received bindings and ranges have as many rounds
-- as there are bytes. All other loops follow a list or an identifier.
--
-- Not modelled: the encryption and signature of a response, what a rejected AgentX message leaves
-- in the datagram, transports, the event loop and the Lua binding; the cryptography in 3rd/crypto
-- is another project's. In an AgentX message the last string has its padding: the code also takes
-- one that is cut off there, which the model takes for overrun. What is behind the written bytes
-- of a response that has the flag for encryption but not that for authentication is not modelled.
-- Allocation does not fail, and memory that is freed is gone. A list of views, bindings or bytes
-- is shorter than 2 ^ 31.
pub mod Base
pub mod Agentx
pub mod Asn1
pub mod Parse
pub mod Ber
pub mod Oid
pub mod Mib
pub mod Snmp
mod Tests
