-- ===== src/Connection.antt =====
-- session.hpp and handshake.hpp: what the handlers of a connection do to the room. The handler of a
-- read gets the buffer and the number of bytes in it; `h` is the session whose `this` it holds.
-- What the handlers of the handshake print is in Connection/Shown.
pub mod Byte
pub mod Handshake
pub mod Shown
pub mod Credentials
pub mod Deciding
pub mod Accepting
pub mod Greeting
pub mod Unended
pub mod Opening
pub mod Relaying
pub mod Loop
pub mod Frame
pub mod Handlers
pub mod Serving
pub mod Reaching
pub mod Steps
pub mod Drawing
pub mod Drawn
