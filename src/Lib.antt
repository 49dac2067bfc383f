-- ===== src/Lib.antt =====
-- VirtualLTE is a virtual 5G UE in user space: towards the network it speaks the RLS protocol of
-- UERANSIM over UDP, towards the host it is a USB modem with the MBIM protocol.
-- This library models the parts of it that decide what goes over a wire and what state the UE is in.
--
-- * Rls, src/ue_engine/ue_rls.c: the messages between the UE and the radio access network. Ran
--   sends and receives them; the payloads of its data messages are what the user plane moves.
-- * Ran, src/ue_engine/ue_ran_transport.c: the transport of RLS messages, with the cells that were heard
--   of, the receive queues and the ids to acknowledge. State has its types, Queue and Cells the static
--   helpers, Send and Receive what goes over the socket, Control the operations.
-- * NasSecurity, src/ue_engine/ue_nas_security.c: the keys of NAS and the protection of its messages.
--   Aes and Sha have the primitives, Keys the derivation, Protection the counts and the messages.
-- * Rrc, src/ue_engine/ue_rrc.c: the RRC messages around the messages of the core network, bit by bit.
--   Stream has the bit streams, Messages the encoders and decoders.
-- * NasEncode, src/ue_engine/ue_nas_encode.c: the messages to the core network. Cursor has the writes,
--   Suci the identity, Mobility and Session the messages.
-- * NasDecode, src/ue_engine/ue_nas_decode.c: the fields of the messages of the core network. The
--   engine, src/ue_engine/ue_engine.c, turns the events into calls of the two state machines. Event
--   has the result, Mobility and Session the messages, Dispatch the entry points.
-- * Mm, src/ue_engine/ue_mm.c: the registration of the UE, a state machine with retries. State has its
--   types, Procedure the static functions, and Mm itself the operations that the engine calls.
-- * Sm, src/ue_engine/ue_sm.c: its PDU session, a state machine over a registered UE, in the same
--   three modules.
-- * Up, src/ue_engine/ue_up.c: the data path between the host, the internal services and the RAN
--   transport, per PDU session. State has the sessions, Packets the way of a packet, and Up itself
--   the operations on the sessions.
-- * Ntb, src/mbim_frontend/mbim_ntb.c: the IP packets of the host in NCM transfer blocks.
-- * MbimWire, src/mbim_frontend/mbim_wire.c: the builder of the information buffers of MBIM messages.
-- * RpData, src/ims_service/ims_rpdata.c: short messages as RP-DATA, for the IMS service.
-- * ImsIp, src/ims_service/ims_ip.c: UDP over IPv4 for the packets of the IMS service, which go over
--   its internal session of the user plane.
-- * Apn, src/apn_context/apn_context.c: the access point names that the host and the IMS service ask
--   for, and the ids that it hands out for them.
-- * Common, the helpers of all parts: lists measured by native numbers, Boolean tests, checked memory
--   and strings.
--
-- A function of the source is a function of the same name, less its prefix (`ue_mm_tick` is
-- `Mm.tick`, `mbim_ntb16_deframe` is `Ntb.deframe`). A struct is a record, and a function that
-- changes it returns the new one. A buffer is a list of bytes with its size as its length, and an
-- access of a message or a buffer is checked: an error code of the source is `reject`, an access
-- outside a buffer is `fault`. The arrays of a struct (the tables of sessions, of cells and of access
-- points) and those of the ciphers are read without such a check, and so are the bytes of a message
-- that NasSecurity reads behind its test of the length. Fixed-width integers wrap at the width of
-- their C type where the source computes in it; the ids that Ran gives to new cells, an `int` in the
-- source, have no bound.
-- In each part the child module Tests runs the code and applies the theorems to concrete inputs.
--
-- Loops whose length the data decides take fuel. In Ntb the inner loop moves on by 4 bytes and the
-- chain of tables moves strictly forward in a 16-bit index, so that the length of the block and
-- 2 ^ 16 + 1 rounds are enough; in NasDecode every loop moves on by a byte at least, and has one
-- round more than the message has bytes. Running out is a `fault` too. In Sm the start of an
-- establishment and its retry call one another; two attempts are as many as there can be. That the
-- fuel is enough is part of what is proved on `deframe`, `decode_event` and `tick`. In ImsIp three
-- rounds are enough to fold the carries of a 32-bit sum.
--
-- What is left out: null pointers, logging, threads and locks (an operation is one step), sockets,
-- USB and files. In Ran the resolver and sendto are parameters, and what recvfrom answers in a
-- tick is a list. The network adapter that the state machines submit requests to, the answers of
-- the RAN transport and the callbacks of the user plane are parameters or arguments. In
-- NasSecurity nothing is a parameter: the ciphers and the hash are modelled too. Not modelled are
-- the engine, the layouts of the MBIM messages, the IMS service above RP-DATA and UDP, and the
-- configuration.
pub mod Common
pub mod Rls
pub mod Mm
pub mod Sm
pub mod RpData
pub mod Ntb
pub mod NasDecode
pub mod Up
pub mod Apn
pub mod ImsIp
pub mod MbimWire
pub mod Rrc
pub mod NasEncode
pub mod Ran
pub mod NasSecurity
