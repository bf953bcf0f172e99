-- ===== src/Lib.antt =====
-- Eternal Blue's command-line client (cpp_client/): a messenger with end-to-end encryption over a
-- server that is not trusted with keys or texts.
--
-- Parts and how they interact. Client owns the others and has the commands: it sends requests by
-- HttpClient, which opens a TlsConnection for each; it keeps the wrapped secret key in Keystore and the
-- messages and pinned keys in LocalStore (SQLite); TrustStore decides whether a fetched key is accepted;
-- CryptoContext makes keys and seals and opens messages; User and Message are what the JSON of the server
-- is read into, with Base64 for binary fields.
--
-- Which module models which file, by the names of the functions there:
--   User, User/FromJson: cpp_client/src/User.cpp (User::from_json).
--   Message, Message/Wire: cpp_client/src/Message.cpp (to_send_json, from_json, iso8601_to_ms); Optional and
--     Reads describe what from_json reads.
--   Base64: cpp_client/src/Base64.cpp.
--   LocalStore: cpp_client/src/LocalStore.cpp. A row is a message and its `deleted` column; each method
--     is one statement, which may fail; each SQL statement is one function on the rows.
--   TrustStore: cpp_client/src/TrustStore.cpp (lookup_or_pin, fingerprint).
--   CryptoContext: cpp_client/src/CryptoContext.cpp, with its HKDF and HPKE helpers in Hkdf and Hpke.
--   Keystore: cpp_client/src/Keystore.cpp (exists, save, load): the file and the results of read and write.
--   TlsConnection: cpp_client/src/TlsConnection.cpp (the constructor, cleanup, write, read_all).
--   HttpClient: cpp_client/src/HttpClient.cpp (request, get, post, del, parse_http_response).
--   Client: cpp_client/src/Client.cpp. State has the members; Session has health, signup, login, logout;
--     Trust has lookup_user, print_fingerprint, confirm_rotation; Sending has send_message and
--     forward_message; Messages has read_message, delete_message, revoke_message; Inbox has sync; Threads
--     has list_conversations, list_thread and what prints them; Start has the constructor, the paths of its
--     files, and the destructor. Evolves has the step relation of the effects on a client, and below it, for
--     each command, that it has no others: one of the effects saves a message, and only one that was opened
--     with the user's key and a pinned one, or sealed by the user's key for a pinned one.
--   Main: cpp_client/src/main.cpp. Terminal has the terminal's settings and the results of poll and read;
--     Words, Index and Lines have split, resolve_index, thread_changed and handle_line; Screen, Keys and
--     Chat have run_chat; Repl has run_repl; Arguments has main.
--   Prelude: shared types and lemmas. Exec is a method that may throw: it returns a value or an error, and
--     the changed object in both cases. Decimal is std::to_string and std::stoi.
--
-- Parameters, none of which is in the repository: Sodium (libsodium), Json (nlohmann::json), Network and
-- Internet (the results of the system's and OpenSSL's calls, which may depend on all that was sent),
-- Calendar and Clock (the C library). Sodium/Toy and Json/Doc are instances for tests and examples.
--
-- Bounds and fuel. Bytes are natural numbers; a text is a list of bytes. The loop of hkdf_expand has L as
-- fuel, that of TlsConnection::write the number of bytes to write, that of std::to_string the number plus
-- one, and each turn takes one at least. The loops over system calls run over the
-- list of their results, after which every call succeeds, or the peer has closed. The size passed to
-- SSL_write is cut to 32 bits as the cast does.
--
-- The shell's fuel is one more than the number of lines on standard input: a turn takes a line, or finds the
-- end. The chat loop runs over the list of what poll and read return, after which the input has ended.
-- Standard input is two streams: the lines that std::getline takes, and the bytes that the chat mode reads.
--
-- Not modelled: the clearing of memory other than the client's key, file modes, the tests, and the server and web pages, which are in other languages.
pub mod Prelude
pub mod User
pub mod Message
pub mod LocalStore
pub mod Sodium
pub mod TrustStore
pub mod CryptoContext
pub mod Keystore
pub mod TlsConnection
pub mod HttpClient
pub mod Json
pub mod Base64
pub mod Client
pub mod Main
