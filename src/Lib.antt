-- ===== src/Lib.antt =====
-- Scriba, an editor of shared texts: its replicated document, its server and the server's database.
--
-- Each client holds a document as lines of symbols (Client/CRDT.cpp). A symbol has a position, a list
-- of identifiers (Utility/symbol.h), and the document is kept in the order of the positions. An edit
-- changes the lines of the client that makes it and is sent to the server (Server/server.cpp), which
-- keeps the symbols of each open file in memory, passes the message on to the other clients of the
-- file, and saves the files in a database (Server/mongo.cpp). The other clients handle the message
-- with the remote operations of Client/CRDT.cpp. Client/client.cpp stands between the document and
-- the server: it turns messages into bytes and what comes back into signals, and both sides read
-- their socket with Utility/byte_reader.h. Client/editor.cpp keeps the document in step with
-- the text of its widget, and the forms of Client/login.cpp, Client/signup.cpp and Client/modify.cpp
-- check what is typed before they ask the client to send it.
--
-- The files:
--   Prelude         numbers, lists, integers, and Outcome: a value, an exception, undefined behaviour
--                   (a read outside a container, a null pointer, a value that is not set) or no fuel.
--   Qt, Json        QString by the operations that the source calls, QMap, QJsonObject.
--   Order           three-way orders; increasing lists with rank, insertion and removal (Rank, Merge),
--                   binary search (Bisect), sequences cut into non-empty blocks (Blocks).
--   Symbol          Utility/symbol.h: Identifier, SymbolFormat, Symbol; Compare is their order, Print
--                   their text, Json toJson and fromJson, Stream the operators of QDataStream.
--   Crdt/Position   generatePositionBetween and generateIdBetween.
--   Crdt/Search     findPosition, findIndexInLine, findInsertPosition, findInsertIndexInLine,
--                   findEndPosition.
--   Crdt/Lines      insertChar, the erasures, findPosBefore, findPosAfter.
--   Crdt/State      the members of CRDT, the messages and the signals.
--   Crdt/Local      localInsert, localInsertGroup, localErase, localChange, localChangeGroup,
--                   localChangeAlignment. Local/Erase is about a run of symbols erased here and there.
--   Crdt/Remote     handleRemoteInsert, handleRemotePaste, handleRemoteErase, handleRemoteChange,
--                   handleRemoteAlignChange.
--                   Remote/Loop and Remote/Delivery are about several messages, Remote/Runs about any
--                   number of them, Remote/Blank about a document that is empty yet.
--   Crdt/Converge   an operation at one replica and its message at another.
--   Mongo           Server/mongo.cpp: the accounts; Mongo/Files the files and their links.
--   Server          Server/server.h and Server/server.cpp: Frame the byte arrays, Threads the workers'
--                   threads and their loads, Accounts, Files and Leave the handlers, Dispatch who handles what,
--                   Rooms who is sent what.
--   Stream          Utility/byte_reader.h, Utility/serializesize.h and sendByteArray: Packets one
--                   packet, Deliver a stream of them cut in any way, Round and Returns any bytes.
--   Client          Client/client.h and Client/client.cpp: Requests what the client sends, Answers
--                   on_jsonReceived, Contents on_byteArrayReceived, Messages what Client/CRDT.cpp
--                   sends; Relay, Typing, Bulk and Deleting an operation from one client to
--                   another, Login the answer to a login.
--   Editor          handleLocalInsertion, alignmentConversion and on_addCRDTterminator of
--                   Client/editor.cpp. Formats holds on_formatChange, and Formats/Spans is about its calls;
--                   Changes holds on_contentsChange, checkAlignment, textAlign, undo and redo, and
--                   Changes/Local is about the widget's text and the document of the CRDT.
--   Forms           Client/login.cpp, Client/signup.cpp, Client/modify.cpp: the forms for the account, their
--                   slots, and what they ask of the client. Password is Signup::isValidPassword; the
--                   slots for buttons and answers are in Signup/Slots and Modify/Slots, and Signup/Runs
--                   is about any run of what happens to the form for signing up.
--   Lseq            Resources/CRDT_LSEQ_implementation_in_c++, an experiment with one line.
--   Examples        concrete documents, accounts, rooms, packets, texts and forms.
--
-- Correspondence. A function of the source is the function of the same name in lower case with
-- underscores; jsonFromLoggedIn is json_from_logged_in. The state of a class is a record that each
-- operation takes and returns. What CRDT gives to its client is the list `sent`, its signals are the
-- list `emitted`, what the server tells a worker to send is the list `outbox`, all in the order of the
-- calls; what a form asks of the client is the list `calls`. A slot of the editor is given the widget
-- as it stands then, a record Document. An `int` is an integer that does not overflow; the sizes of the
-- packets wrap as the source's do.
--
-- Fuel. The search for a position takes as many levels as both positions have identifiers, and one
-- more; a binary search takes as many rounds as its list is long; the loop of newFile takes a number
-- of rounds that is an argument, as nothing bounds it in the source; the reader of a socket takes as
-- many rounds as there are bytes, and one more, which is enough unless the call never ends.
--
-- Arguments. The two sources of random numbers are sequences that are read in order. Qt's texts,
-- streams, compression, JSON documents and regular expressions, libsodium and the calls of the
-- database's driver, which may throw, are records of functions (Text, Texts, Codec, Crypto, Driver,
-- Env, Stream, Streams, ClientEnv, Widget). A format's alignment that the constructor does not set,
-- and the font and colour that on_formatChange does not set, are arguments too.
--
-- Not modelled: the sockets themselves, the drawing of the widgets, the slots of Client/editor.cpp that
-- only change the widget, the windows of Client/appMainWindow.cpp and Client/home.cpp, the programs'
-- main functions, the progress dialog of the client, and the generation of positions in the
-- experiment, which is the same code as the program's.
pub mod Prelude
pub mod Qt
pub mod Json
pub mod Order
pub mod Symbol
pub mod Crdt
pub mod Mongo
pub mod Server
pub mod Stream
pub mod Client
pub mod Editor
pub mod Forms
pub mod Lseq
pub mod Examples
