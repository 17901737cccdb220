-- ===== src/Lib.antt =====
-- The flight software of the OreSat flight computer, package oresat_c3: the part that decides what
-- is powered and in which state the satellite is.
--
-- Parts and how they interact. The power domain (OPD) carries the cards of the satellite; each card
-- sits behind a MAX7310 I/O expander on an I2C bus, through which it is powered, reset and put in
-- its bootloader. The node manager watches the cards in a loop, switches them on and off, resets
-- those in error and gives up those that stay in error; it calls the OPD. The state service runs the
-- main state machine of the satellite, from the wait after launch over the deployment of the
-- antennas to the states STANDBY, BEACON and EDL; it runs in a loop of its own and shares the object
-- dictionary with the other services. The EDL service takes the frames that come from the ground:
-- the protocols check the HMAC of a frame and unpack the command in it, the service compares its
-- number with the sequence count, runs the command on the OPD and the nodes, and packs the response
-- in a frame of its own. The radios service carries frames and beacons, over a socket or the S-band
-- radio, which it boots and switches off, and keeps the synthesizer of the L-band radio; the beacon
-- service makes the beacons; the payload service runs the payload of the mission.
--
-- Files and sources.
--   Base, Base/*: tests on numbers, lists, bits and Python's dict.
--   Drivers/Max7310: oresat_c3/drivers/max7310.py, class Max7310. Bus has the registers and the I2C
--     transfers, Pins and Live the lemmas, Live for a bus on which no transfer fails.
--   Drivers/Fm24cl64b: oresat_c3/drivers/fm24cl64b.py, class Fm24cl64b, on a memory of bytes.
--   Subsystems/Opd: oresat_c3/subsystems/opd.py. Node is OpdNode and its subclasses with a card,
--     with the class as a field; Sband is OpdSpr8Node and the union of all nodes; System is Opd.
--     The other children hold theorems.
--   Services/State: oresat_c3/services/state.py, class StateService, with C3State of
--     oresat_c3/__init__.py. Each method is a function on a record with the objects it reads and
--     writes; `_reset` is `system_reset`, and a method `_deploy` is `on_deploy`. Fram is
--     store_state, restore_state and clear_state on the memory of the F-RAM.
--   Services/NodeManager: oresat_c3/services/node_manager.py. The parent determines the state of one
--     node, Monitor is `on_loop`, Control has enable, disable and the callbacks, Start the construction
--     and the start of the service. Resets, Supervised and Counting hold theorems.
--   Services/ChannelRouter: oresat_c3/services/channel_router.py and cop_manager.py beside it. The
--     queues of the radios, the router and the EDL service are lists of their own in each model.
--   Services/NodeFlasher: oresat_c3/services/node_flasher.py. Order and Cleanup hold theorems.
--   Protocols/Ax25: oresat_c3/protocols/ax25.py.
--   Protocols/EdlCommand: oresat_c3/protocols/edl_command.py. Struct has what it uses of Python's
--     struct, Callbacks the functions for what struct cannot pack, Codes the enum.
--   Protocols/Sdls, Protocols/Uslp, Protocols/EdlPacket: sdls.py, uslp.py and edl_packet.py beside it.
--     The digest of hmac and what spacepackets packs and unpacks are parameters of their sections;
--     Protocols/Sample has concrete ones for the runs.
--   Protocols/CacheStore: oresat_c3/protocols/cachestore.py, class CacheStore. Checksum has the
--     checksums; Mapped shows the files as a map, Checksums what the loops compute.
--   Subsystems/Antennas: oresat_c3/subsystems/antennas.py, class AntennasC3v7.
--   Drivers/Si41xx: oresat_c3/drivers/si41xx.py. Wire has `_write_reg` as levels on the three lines, with
--     a listener at their other end; Divider has `calc_div`; `stop` is `halt`. Transfer, Divider/Exact,
--     Sequence and Tuning hold theorems.
--   Services/Radios: oresat_c3/services/radios.py. Sband, Lband and Uhf are the three radio classes, Link
--     the S-band downlink of the service, Service its senders and its loop. The other children hold
--     theorems.
--   Services/Beacon: oresat_c3/services/beacon.py, on Services/Radios and Protocols/Ax25.
--   Services/Payload: oresat_c3/services/payload.py. Service is the service with any handler; Beecon, on
--     the card of Subsystems/Opd/Node, PiPlasma, on Protocols/CacheStore, and Osiris are the handlers.
--   Services/Edl: oresat_c3/services/edl.py. State has the record of the service and the parameters,
--     Frames `_frame_to_packet` and `_respond`, Commands `_run_cmd`, Loop the rest of a pass. The
--     other children hold theorems.
--
-- State is passed on explicitly. A method that can raise returns a result and the state, which keeps
-- what was written before the raise. What hardware and clock answer is data of the model: whether a
-- transfer fails is a list of Booleans that each transfer takes one of, the readings of the fault
-- line are such a list too, each with a value or a raise, and the clock readings and heartbeats of one pass are an `Env`.
--
-- Bounds and fuel. The tries of the two reset methods are recursion on the tries left. The loops of
-- the checksums run on fuel: a round more than the words of the file, or than the size to verify, is
-- enough, since each round passes over at least one byte. The halving of `calc_div` has its start
-- value for fuel, the search of `_make_file` a round for each file and one. Times of the radios are
-- in ticks of 1/9000 second, in which one S-band frame takes 17. Registers are bytes with their masks
-- written out; numbers of the object dictionary are taken as they are read. A float of a command is
-- the 32 bits that it is packed to: the rounding of a Python float to them is not modelled.
--
-- Not modelled: logging, threads, the real I2C and GPIO access below a transfer, floating point
-- (the current measurement of the OPD, the ADCS), the sockets and daemons of the radios, FARM-1
-- and CFDP, whose state machines are packages', the choice of a payload's handler, the
-- deployment over GPIO lines of AntennasC3v6, the encoding of a value of the object dictionary,
-- the web pages and the scripts. What a command of the ground does outside of the OPD and the
-- service is recorded and not carried out. What an SDO write to the flight computer's own object
-- dictionary makes of the objects of the EDL service is a parameter, and so is the quotient of
-- floats that gives the copies of a LEOP beacon.
pub mod Base
pub mod Drivers
pub mod Protocols
pub mod Subsystems
pub mod Services
