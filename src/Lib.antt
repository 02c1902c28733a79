-- ===== src/Lib.antt =====
-- Ferusa: a password vault that opens only with a phone's consent.
--
-- The program has three parts. `ferusa-core/` holds what both sides share: the messages, their
-- framing, the signed payload of an approval, the layout of the encrypted vault. `cli/` is the
-- desktop, which keeps the vault and asks the phone. `app/src-tauri/` is the Android companion,
-- which keeps the phone's share of the key and the approval key, and answers. A pairing is a
-- transaction on both sides: the phone stages a generation of keys, the desktop writes pending
-- files, and each side commits and activates so that a crash anywhere can be recovered from.
--
-- Base holds what all parts use: Boolean tests on the native numbers, lists, bytes, results, and
-- Action, state passing with errors that keep what was written before them. An action `Ensures` one
-- thing if it returns and another if it fails; `Returns` says that it does return (Returning).
-- Method is the same for handlers of one state, with a rule for each construct that keeps a
-- predicate true (Keeps). Places, Counting and Utf8 are list elements by their place, counts of a
-- test, and which bytes are a string.
--
-- Core models ferusa-core/src: Message the types of auth.rs, transport.rs and types.rs; Wire
-- `FerusaMessage::encode` and `decode`; Approval timestamps and signatures of auth.rs and
-- crypto.rs; Blob `EncryptedBlob` of crypto.rs; Vault `Vault::validate` of types.rs. serde_json and
-- ring are parameters, and so is `usize::MAX`.
--
-- Cli models cli/src: Twofa the checks of twofa/mod.rs on a response; Pairing the files of
-- storage/paths.rs, where every call of the file system may fail, renaming is atomic, and
-- `write_private_file` writes a temporary file first. Sight, Writing and Clearing say what each
-- call does to the files apart from the temporary one; Promotion, Recovery and Success follow a
-- committed transaction, Preparing and Settled the other phases; Status is `pairing.json` and
-- `Paths::pairing_status`. Resume is commands/pair.rs from the commit on: the first try and the
-- loop that resumes it. The connection is a record of calls, `Link`, each of which may fail.
-- Passwords is the generator of interface/password_gen.rs, over a source of random numbers; a panic
-- is an error of it. Clipboard is clipboard.rs: Command which commands are accepted (Plain), Expiry
-- the commands that read and clear, Helper the helper that clears a password away (Clearing what it
-- is sent, Emptying and Running what it does), over a host whose calls may fail. Manual is what the
-- manuals of wl-clipboard, xclip, xsel, pbcopy and Termux say of their options, Aiming that the
-- code's commands follow them. VaultFile is the vault on disk of session.rs and commands/passwd.rs:
-- Opening says when a key opens the file, Saving and Sessions what saving and a new master password
-- do to the file and the open session, Reopening that what was saved is opened again.
--
-- Phone models app/src-tauri/src. Storage is the pairing store of storage.rs: Types, Generation,
-- Cleanup, Transaction and Queries hold its functions under their names, over a keystore of which
-- every call may fail, with or without effect (Laws). View is what the code sees of the store, five
-- slots and the stored generations; Invariant is what it keeps true of them; Effects, Settling,
-- Finalizing, Discarding, Pairing, Committing, Publishing, Activating and Answers say what each
-- call does; History puts calls in any order; Refusals is what is refused. Throttle is the cooldown
-- of commands.rs after wrong PINs: Laws is the phone that a check works on and what each outcome
-- says of it, Allowance, Trying and Guesses count the wrong PINs. Pin is the choice of PINs of
-- pin.rs, Session the state of state.rs and the pending request of commands.rs. A function that the
-- code wraps in a lock is one step; where the code takes a lock more than once, each time is a step
-- of its own. Consent is the life of a request: the handlers of commands.rs that admit it (Admit),
-- let it expire, deny it (Expiry, Answering) and approve it (Approve), over the session, the
-- pending request and a list of what the approval key was asked for (Desk). At every wait other
-- tasks may change the state. Sound proves of each handler that it keeps the state safe, History of
-- any series of them. Protocol puts the desktop's check on top of that. Admission is the limit on
-- connections of peer.rs.
--
-- A `Uuid`, an `Instant`, a counter and a timestamp are native numbers, with the saturation or the
-- wrap of the code written out; a string and an array of bytes are the list of its bytes. Only the
-- `while` loop of reconcile_pairing_transaction has fuel: each turn moves the transaction to its
-- next phase, so that three turns are enough. All other recursion is structural.
--
-- Not modelled: the network and the prompts, the Android plugin, argon2, hkdf, chacha20poly1305,
-- file modes and locks, zeroization, logging; of commands.rs the deadlines of a connection, the
-- pairing and the set-up; of peer.rs the handshake of a pairing; of cli/src the commands but the
-- change of the password, the handshake of a pairing, the settings of the clipboard and the prompts.
pub mod Base
pub mod Core
pub mod Cli
pub mod Phone
pub mod Protocol
