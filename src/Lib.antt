-- ===== src/Lib.antt =====
-- The SAP HANA compatibility layer for the MongoDB wire protocol takes connections of MongoDB
-- clients, reads their messages, turns their commands into SQL for SAP HANA and answers with
-- messages. This library models the part of it that a message passes first and last: the wire
-- protocol, the BSON encoding, the values that the handlers work on, and the filters, finds,
-- insertions, updates and deletions as SQL.
--
-- The parts and their files (paths from the repository's root):
--
-- - Prelude: the names that the other modules share. Prelude/Results has what a Go call ends in
--   (`Outcome`: a value, an error, a panic, or `stuck` for a model function without fuel), and
--   Prelude/Runs the runs that end in a value or an error.
-- - GoStd: what the sources use of Go's standard library: encoding/binary in little-endian order,
--   io.ReadFull, the methods of bufio.Reader, strconv.Itoa and Atoi, utf8.ValidString.
--   GoStd/Strings has functions of package strings and the runes of a text, GoStd/Format has
--   fmt.Sprintf. A reader is the list of the bytes still to be read, and a function that reads
--   returns those it leaves.
-- - Types: internal/types. Types/Value is the data (`any` is `Value`, a map is an association
--   list), Types/Fields Go's operations on maps, Types/Validate `isValidKey`, `validate` and
--   `validateValue`, Types/Document the methods of `Document` (`ConvertDocument`, `MakeDocument`,
--   `add`, `Get`, `Set`, `Remove`), Types/Arrays those of `Array`, Types/Path `getByPath`, and
--   Types/Compare `CompareScalars`, with the order of float64 on bit patterns. The modules below
--   Types/Document, Types/Arrays and Types/Compare are their proofs.
-- - Bson: internal/bson. Bson/Scalar is `ReadFrom` and `MarshalBinary` of the scalar types,
--   Bson/Read `Document.ReadFrom` and `Array.ReadFrom`, Bson/Marshal `Document.MarshalBinary` and
--   `Array.MarshalBinary`. Bson/Canon and Bson/Fits say what reading back keeps and what BSON can
--   hold; Bson/MarshalLaws, Bson/Indexes, Bson/Elements and Bson/RoundTrip lead to reading what
--   was written, and Bson/ScalarSound, Bson/Calm, Bson/ElementsSound and Bson/Sound to writing
--   what was read.
-- - Wire: internal/wire. Wire/Header is `MsgHeader` and the operation codes, Wire/OpMsg,
--   Wire/OpQuery and Wire/OpReply are the three messages with their `readFrom`, `UnmarshalBinary`
--   and `MarshalBinary`, and Wire/Message is `ReadMessage` and `WriteMessage`. Wire/Sendable,
--   Wire/Sections and the modules whose names end in RoundTrip show that messages are read back;
--   Wire/Left and Wire/Total are about reading any bytes, Wire/Written and Wire/MsgWritten about
--   writing again what was read, and Wire/Lost about a document that is lost.
-- - Handlers: internal/handlers/common/where.go, the filters as WHERE clauses. Handlers/Like is
--   `regex`, Handlers/SqlValue `whereValue`, `whereDocument` and `PrepareArrayForSQL`,
--   Handlers/SqlKey `whereKey` (with `getUpdateKey` of internal/handlers/crud/msg_update.go),
--   Handlers/Where `CreateWhereClause` and `wherePair`, with `fieldExpression`, `filterArray` and
--   `logicExpression` in Handlers/Where/Field, Element and Logic, and the global variables
--   `isNor` and `norCounter` in Handlers/Where/State. Handlers/Clauses and the modules below it,
--   Handlers/Equalities, Handlers/SqlKey/Paths and Handlers/Like/Matching are their proofs.
--   internal/handlers/crud: Handlers/UpdateValue is `getUpdateValue` and `updateDocument` (with
--   proofs in Handlers/UpdateValue/Texts), Handlers/Update `update` and
--   `createSetandUnsetSqlStmnt`, with `Unimplemented` of
--   internal/handlers/common/unimplemented.go, Handlers/MsgUpdate and Handlers/MsgDelete the two
--   handlers, and Handlers/Store what they use of the database, and their state.
--   Handlers/Updates, Handlers/Assignments, Handlers/Updated and Handlers/Deletes are the proofs.
--   Handlers/MsgInsert is `MsgInsert`, with `IsIdUnique` of internal/handlers/common/unique.go
--   and the JSON of internal/fjson as a parameter; Handlers/Inserted is its proofs.
--   Handlers/Projection is `Projection` of internal/handlers/common/projection.go, with its
--   proofs in Handlers/Projection/Uniform, and Handlers/Find is `createSqlStmt` of
--   internal/handlers/crud/msg_find_or_count.go, with its proofs in Handlers/Find/Select.
-- - Tests: runs of the code, and the theorems at concrete documents and messages.
--
-- Wire calls Bson for each document of a message and Types to validate it; Bson builds values of
-- Types and validates each document that it reads or writes. Handlers works on documents of
-- Types: a handler makes a clause of the filter, and statements with it, which it gives to the
-- database.
--
-- Numbers are natural numbers. An int32 and an int64 are their two's-complement patterns, a
-- float64 is its bits, an instant is its milliseconds (an int64 pattern) and the nanoseconds
-- beyond them, and conversions to int32 wrap (`% 2 ^ 32`). Error values carry no text. A method
-- with a pointer receiver returns the new value; that two Go values can share a map or a slice is
-- not modelled.
--
-- Fuel: `read_document`, `read_elements` and `read_value` take a unit for each call, and
-- `document_read_from` starts with one more than the bytes there are, which is enough, since
-- every element takes a byte at least (Bson/Sound). The loop over the sections of an OP_MSG has a
-- unit for each byte and one more, and the loop over the documents of a section one for each
-- byte.
--
-- The functions that make a filter's clause call each other: `where_pair`, `logic_expression`,
-- `field_expression` and `filter_array` take a unit of fuel for each call, and three for each
-- constructor of the filter and two more are enough (Handlers/Clauses). Go visits a map in any
-- order; the loop of `filterArray` has the order of the association list. What fmt.Sprintf makes
-- of a float64, and of a format that does not fit its arguments, is a parameter (`Printing`); so
-- are the database and fjson (`Hana`, and `Inserts` for an insertion), which a handler calls with
-- the text of a statement.
--
-- Not modelled: an error of RowsAffected after a statement that has run (a statement of the
-- database gives a number of rows, or an error and leaves the database as it was); the bounds of
-- `norCounter`, an int in the code; internal/bson/binary.go and timestamp.go, which are commented
-- out (values of these types are constructors of `Value`, which the documents' encoder refuses);
-- the JSON methods of the messages and of the BSON types, which belong to internal/fjson; the
-- names and texts of flags, tags and operation codes; the reading of rows by a find and the
-- removal of excluded fields from the documents found. The other files of internal/handlers,
-- internal/fjson and internal/hana, which make SQL of the commands and run it, are parts of their
-- own that stand on the ones modelled; internal/clientconn, internal/util and cmd are sockets,
-- logging and flags.
pub mod Prelude
pub mod GoStd
pub mod Types
pub mod Bson
pub mod Wire
pub mod Handlers
mod Tests
