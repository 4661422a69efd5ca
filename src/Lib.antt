-- ===== src/Lib.antt =====
-- A model of the core logic of mautrix-signal, a bridge between Matrix and Signal, and its theorems.
--
-- The bridge has three layers. pkg/signalmeow talks to Signal: it keeps groups, keys and settings and
-- sends and receives messages. pkg/connector drives it from Matrix's side. pkg/msgconv turns the
-- messages of one network into those of the other, with the identifiers of pkg/signalid. What is
-- modelled here is the logic of their own that does not go through a network, a database or libsignal.
--
-- - Common: helpers on tests, lists, texts, bits and maps. Encoding: the variable length integers and
--   the decimal numbers of Go's standard library.
-- - Signalfmt: pkg/msgconv/signalfmt. `Tree.add` is LinkedRangeTree.Add, `Format.format` is
--   BodyRangeTree.Format, `Utf16.encode` and `decode` are UTF16String, and `Convert.parse` is Parse.
-- - Signalid: pkg/signalid/ids.go and media.go, and pkg/libsignalgo/serviceid.go. A function in lower
--   case with underscores is the Go function of that name. github.com/google/uuid is a parameter.
-- - Ringrtc: pkg/signalmeow/ringrtc/signaling.go, callmessage.go and rtp_data.go. protowire is a
--   parameter, with laws that say that what was appended is consumed again. A closure that Go hands to
--   consumeMessage is a function on the value that it changes.
-- - Groups: pkg/signalmeow/groupcache.go, and the data and part of resolveConflict of groups.go. The
--   cache is a record, a map a list of keys and values, and an operation under a lock one step.
--   libsignal is a parameter.
-- - Storage: pkg/signalmeow/storagewrite.go, with the keys and the encryption of storageservice.go and
--   profile.go and part of chatsettings.go. The ciphers, base64, protobuf and the storage service are
--   parameters; random.Bytes is a function of the number of the call.
-- - CallBridge: pkg/connector/callbridging.go. `Session` is signalCallSession with its end,
--   `Goroutines` what starts and answers a call, `Bridge` the bridge with startIncoming, `Handlers` the
--   handlers and startOutgoing, and `Steps` the orders in which they and the goroutines go on. A
--   goroutine is the stage that it has reached, and endOnce with the function that it runs is a stage
--   too. A call of a library, of the network or of the store succeeds or fails as a step says. The
--   two halves of startIncoming, before and after the search of the portal and the ghost, are two
--   steps, and an offer between them is one of the arriving ones of the bridge. A session lists the
--   Matrix legs that were made for it, which the source does not, so that a lost one can be seen.
-- - Padding: addPadding of pkg/signalmeow/sending.go and stripPadding of receiving_decrypt.go.
-- - SenderKey: diffRecipients of pkg/signalmeow/senderkey.go, and the reset that follows it in
--   sendToGroupWithSenderKey. exslices.Diff is a parameter.
-- - Chats: the planning of pkg/connector/chatsettings.go, with pkg/signalmeow/types/chatsettings.go.
--
-- Numbers are natural numbers, with the wrap-around of Go's types written out where a value can reach
-- it. A byte slice and a string are lists of bytes, or of code points in Signalfmt; nil and empty
-- slices are the same list where the code does not tell them apart. Panics are a result of their own.
--
-- The loop of AppendUvarint has nine rounds and a last byte, which is enough for 64 bits, and that of
-- decimal numbers has nineteen. The loops over protobuf fields have as many rounds as there are bytes:
-- every round takes at least the byte of a tag. modifyStorage makes five attempts, as the source does.
-- All other loops are on the list that they read.
--
-- Not modelled are the bindings of pkg/libsignalgo, the generated protobuf code, the SQL of the store,
-- the websocket and the HTTP calls, as they are input and output or not code of the program; of the
-- call bridge the media, the candidates from Matrix and how long a timer runs; and still the rest of
-- the sender keys, attachments and matrixfmt.
pub mod CallBridge
pub mod Chats
pub mod Common
pub mod Encoding
pub mod Groups
pub mod Padding
pub mod Ringrtc
pub mod SenderKey
pub mod Signalfmt
pub mod Signalid
pub mod Storage
