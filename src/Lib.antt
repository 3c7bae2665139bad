-- ===== src/Lib.antt =====
-- The JavaScript SDK of the Airway IM plugin: a client of an instant-messaging server, as built in
-- install/ignore/sdk/ts/dist/esm, and the same program in install/ignore/sdk/ts/dist/cjs; and the demo
-- client of its server, a chat in the terminal, in install/ignore/client/src.
--
-- The parts and the files that model them:
--   sync.js      Sync, with Sync/Fetch, Sync/Queue and Sync/Events: which messages of a conversation
--                the program has seen, the pages it fetches, and the promises by which fetches of one
--                conversation wait for one another.
--   gateway.js   Gateway, with Gateway/State and Gateway/Frames: the WebSocket, its authentication,
--                reconnection, ping, and the set of the events that it has handed on.
--   http.js      Http, with Http/Calls, Http/Conversations, Http/Messages and Http/Storage: the REST client.
--   internal.js  Internal: minting credentials server-to-server.
--   session.js   Emitter (on, off, emit) and Session: the registry of conversation objects, the
--                callbacks given to the gateway and the engine (Session/Events), and the methods as
--                moves (Session/Steps).
--   conversation.js
--                The same: an object is an entry of the session's registry, under its id.
--   adapter.ts, browser.js, wechat.js
--                Adapter: the storage that the engine is given, with Adapter/Browser and Adapter/Wechat
--                over the platform's; Adapter/Durable: the engine's sequences in such a storage, through
--                restarts of the program; Adapter/Requests: requests, uploads, their replies, and frames.
--   error.js     Error.
--   util.js      Url, with encodeURIComponent of the language.
-- The demo client, which shares no code with the SDK:
--   main.ts      Client/Arguments: the command line. Client/Startup: the calls up to the history of
--                the conversation that it joins. Client/Room: the messages shown, the syncs and the callbacks.
--                Client/Commands: the slash commands.
--   chat.ts      Client/Screen: colors, the buffer of lines, the keys, the width and the screen.
--   gateway.ts   Client/Socket, beside the SDK's Gateway.
--   api.ts       Client/Api: the requests of IMClient and AdminClient, and what their answers
--                come to.
-- The session hands the gateway's events to the engine's handlers (Sync/Events), the engine fetches
-- through the REST client's listMessages and gives its pages to the session's listeners, and the
-- gateway's reconnection resynchronizes all tracked conversations. In Sync the storage is the text that
-- the engine's key holds, and every call of it succeeds; Adapter/Durable has calls that may fail.
-- Names follow the source: runFetch is run_fetch, handleMessageEvent is handle_message_event. Below
-- the parts stand Base (numbers, tests, lists), Text (strings as UTF-16 code units), Dict (a `Map`
-- with string keys) and Json (parsed values). Tests holds small runs and instances.
--
-- How state is modelled. A method is a function from a state to a state. The engine's tasks pause at
-- each await: Sync/Queue gives the steps of a chain of promises, and Sync/Events lets calls, events
-- and answers come in any order. The gateway's methods and callbacks are moves that return what they
-- do to the outside. The REST client is a computation that may throw, over a record of the calls made;
-- the adapter's answers and the host's getCredential are functions of those calls. A listener is a
-- number, and whether a call of it throws is a function of the calls before. A frame becomes a
-- GatewayEvent by a function that is an argument, as TypeScript's cast checks nothing. The session's
-- callbacks come after the gateway's step that makes them, in its order; listeners that call nothing
-- back cannot tell the difference. A refresh by the session's getCredential is two moves: the other holder
-- takes the fresh credential, and then, after an await, the one that asked.
--
-- Bounds. The loops need no fuel of the model's own: runFetch recurs on the pages left (the source's
-- maxPages less page) and postMessage on the retries left (maxRetries less attempt). emit has fuel for
-- the "error" events that listeners cause by throwing: 2 is enough where the "error" listeners do not
-- throw, and no fuel is where one of them always does. Numbers are integers: the code gets its
-- sequences from a Go server.
--
-- Not modelled: listeners that call the session or the engine while they are called; NaN and
-- fractions; the text of JSON, which is given by its parse; the order in which an object lists keys
-- that look like indices, and the key __proto__; the texts of errors; a credential that changes while
-- a request is out; of the adapters (browser.js, wechat.js) what only calls the platform: the tests of
-- the runtime, File and Blob objects, the registration of callbacks; and of the demo client the texts
-- of its lines and lists, and demo.ts.
pub mod Base
pub mod Text
pub mod Dict
pub mod Json
pub mod Url
pub mod Error
pub mod Sync
pub mod Gateway
pub mod Http
pub mod Internal
pub mod Emitter
pub mod Session
pub mod Adapter
pub mod Client
pub mod Tests
