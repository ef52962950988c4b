-- ===== src/Lib.antt =====
-- zenoh-proxy: a proxy between clients on a serial line and a zenoh network. The client sends messages
-- (connect, subscriber, publisher, publish, disconnect) as CBOR arrays in PPP-like frames; the proxy
-- takes the frames from the line, decodes the messages and calls zenoh for them; what zenoh delivers
-- goes back the same way.
--
-- The parts, in the order in which a message passes them, with their files here and in the repository:
--   Serial   src/serial.cpp, serial.h: the port over the system calls. Connect has the end of connect,
--            Transmit and Receive the loops of txd and rxd, Modes the control lines, Rates the table of
--            baud rates, Names shortName.
--   Frame    common/Frame.cpp, Frame.h: FrameExtractor, which cuts the bytes at the flags and drops what
--            is late. View is what an observer sees of it, Delivery and Resync use that.
--   Ppp      common/ppp_frame.cpp, ppp_frame.h: ppp_frame and ppp_deframe. Stuffing describes a frame
--            independently of the loops.
--   Fcs      common/ppp_frame.cpp: the class Fcs with its table; Reference is the bitwise CRC.
--   Cbor     common/CborSerializer.cpp, CborDeserializer.cpp, broker_protocol.h: the (de)serializer and
--            the messages. Laws is what is asked of TinyCBOR, Kinds the messages as one family,
--            Mistyped what a value of another type does.
--   Proxy    src/proxy.cpp: the filters and handlers that main connects. Line joins Frame, Cbor, Proxy and
--            Broker; Served joins these with Serial and Sessions, from the reads of the port to its
--            writes; Startup is what main does first.
--   Broker   src/BrokerZenoh.cpp, BrokerZenoh.h: the tables of subscribers and publishers and the calls
--            to zenoh.
--   Tcp      src-pico/tcp.cpp: the loops over recv and send (Transfer), the sockets (Sockets), the
--            locator (Locator), the choice of an interface (Scout) and datagrams (Datagram).
--   Watcher  src-pico/listener.h: select() on the descriptors of the listeners.
--   Client   src_client/unix_serial.cpp: the frames of a client that tunnels TCP over the serial line
--            (Stream), and the functions that zenoh-pico calls (Transport, Unused).
--   Pico     src-pico/proxy.cpp: the handlers of the proxy for that client; Stream joins Sessions, Pico and
--            Client.
--   Arduino  zenoh-arduino/src: the microcontroller. Node has BrokerSerial.cpp, Resources the ids and
--            topics of broker.h, Loopback its values, Extractor BytesToFrame of BrokerSerial.h, Agreement
--            the same next to FrameExtractor, Quiet its timeouts, Recovery the microcontroller and the
--            proxy together, Announced and Steady what follows, Drivers the button and the led, Board main.cpp with the serial port, Received what arrives there,
--            Wire all of it over the bytes of the line.
--   Sessions src-pico/tcp_session.cpp (Tunnel), src/serial_session.cpp (Line; Turns and Sending are runs of it) and
--            src-pico/zenoh_session.cpp (Net), with what they ask of their thread.
--   Dump     common/CborDump.cpp: the text of a CBOR value; Tree is the text as it should be.
--   Text     common/util.cpp, util.h: hexDump, charDump and fnv1.
--   Clock    src/Sys.cpp: the time and the name of the host.
--   Sample   src_client/serial_client.cpp: a program that writes a numbered text every second.
--   Hello    src/BrokerZenoh.cpp and src-pico/zenoh_session.cpp: scout.
--   Config   src/config.cpp: loadFile.
--   Prelude  numbers, lists, bits and tables that the parts share.
--
-- How the code is modelled. A class is a record, a method a function from the record to the record and
-- the result. Code outside the repository is a parameter: zenoh and the system calls by a function that
-- gives a call's answer from the calls before it, which the record keeps; the clock by a function from
-- the number of a reading to the time; TinyCBOR by a record of its functions. What goes out is kept in
-- a list. A byte, an int and a handle are natural numbers, an int its 32-bit pattern. An unordered_map
-- is a list of entries; its order of iteration is not specified.
-- Logging is left out, but for that of scout.
--
-- Bounds. rxd and txd take fuel for the system calls of their loops, and give `none` when it runs out.
-- For txd one write for each byte is enough if every write takes a byte or fails for good; for rxd more
-- reads than are pending. The endless loop of serial_client is run for any number of turns. Undefined
-- behaviour, such as pop_back on an empty vector, is a result of its own.
--
-- Not modelled: the thread and flow library limero, the JSON library, the bits of termios, the modes of
-- the board's pins, the tests, the sample in C, and the sources that nothing includes.
pub mod Prelude
pub mod Fcs
pub mod Ppp
pub mod Frame
pub mod Broker
pub mod Serial
pub mod Cbor
pub mod Proxy
pub mod Tcp
pub mod Watcher
pub mod Client
pub mod Pico
pub mod Arduino
pub mod Sessions
pub mod Text
pub mod Dump
pub mod Clock
pub mod Hello
pub mod Config
pub mod Sample
