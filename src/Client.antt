-- ===== src/Client.antt =====
-- The demo client (install/ignore/client/src), a chat in a terminal. It stands on its own, with its own
-- REST client and gateway client: Client/Room is the conversation that main.ts keeps, Client/Socket
-- gateway.ts, Client/Screen chat.ts, and Client/Arguments the command line of main.ts.
pub mod Room
pub mod Startup
pub mod Screen
pub mod Socket
pub mod Api
pub mod Arguments
pub mod Commands
